-- ===== src/ClientManager/Tables/Purge.antt =====
-- What `PurgePublishState` of src/client_manager.cc takes out of the tables of publishers.
use laps.Prelude.{
  ℕ, ◌≡◌, refl, ap, ◌∙◌, Bool, true, false, ◌&&◌, [], ◌∷◌, Option, none, some, if◌then◌else◌,
  Bool-cases, inl, inr, ◌==◌, is_some, arith,
}
use laps.Prelude.Outcome.{done}
use laps.Prelude.SortedMap.{Key, ◌==◌ as ◌is◌, Map, lookup, nat_key}
use laps.Prelude.SortedMap.Pairs.{lex_key, lex_beq_iff}
use laps.ClientManager.{Relay, erase_all}
use laps.ClientManager.Publishers.{keys_of_connection, purge_publish_state}
use laps.ClientManager.Tables.Rows.{is_among, lookup-erase_all}

same_connection : {K : Type 0} ⦃key : Key K⦄ (j at : K × ℕ) → (j is at) ≡ true → j.1 ≡ at.1
same_connection j at same = ap (λ p. p.1) ((lex_beq_iff j at).0 same)

module _ {K A : Type 0} ⦃key : Key K⦄ where
  is_among-keys_of_connection :
      (conn : ℕ) (at : K × ℕ) (m : Map (K × ℕ) A)
      → is_among at (keys_of_connection conn m) ≡ (at.1 == conn && is_some (lookup at m))
  unfolding keys_of_connection lookup
  is_among-keys_of_connection conn at [] = ground arith
  is_among-keys_of_connection conn at ((j, v) ∷ m) =
      let more = is_among-keys_of_connection conn at m in
      elim (Bool-cases (j is at)) [
        | inl same ↦
            let e = same_connection j at same in
            elim (Bool-cases (j.1 == conn)) [
              | inl here ↦
                  let here' : at.1 == conn ≡ true = rw e at here in rw (here, same, here') refl
              | inr away ↦
                  let away' : at.1 == conn ≡ false = rw e at away in
                  rw (away, same, away') (more ∙ ap (λ b. b && is_some (lookup at m)) away')
            ]
        | inr other ↦ elim (Bool-cases (j.1 == conn)) [
          | inl here ↦ rw (here, other) more
          | inr away ↦ rw (away, other) more
        ]
      ]

  lookup-purged :
      (conn : ℕ) (at : K × ℕ) (m : Map (K × ℕ) A)
      → lookup at (erase_all (keys_of_connection conn m) m)
        ≡ (if at.1 == conn then none else lookup at m)
  lookup-purged conn at m =
      lookup-erase_all at (keys_of_connection conn m) m
      ∙ ap (λ b. if b then none else lookup at m) (is_among-keys_of_connection conn at m)
      ∙ by_case (at.1 == conn) (lookup at m)
    where
      by_case :
          (b : Bool) (o : Option A) → (if b && is_some o then none else o) ≡ (if b then none else o)
      by_case true none = refl
      by_case true (some a) = refl
      by_case false o = refl

module _ {Namespace : Type 0} ⦃key : Key Namespace⦄ where
  -- A purge of a connection takes just its entries out of both tables.
  pub purge_publish_state-lookup :
      (conn : ℕ) (w : Relay Namespace)
      → (w' : Relay Namespace) × (purge_publish_state conn w ≡ (done tt, w'))
        × ((at : ℕ × ℕ)
            → lookup at w'.pub_subscribes
              ≡ (if at.1 == conn then none else lookup at w.pub_subscribes))
        × ((at : Namespace × ℕ)
            → lookup at w'.pub_namespace_active
              ≡ (if at.1 == conn then none else lookup at w.pub_namespace_active))
        × (w'.subscribe_alias_req_id ≡ w.subscribe_alias_req_id)
  unfolding purge_publish_state
  purge_publish_state-lookup conn w = (
    (purge_publish_state conn w).1,
    refl,
    (λ at. lookup-purged conn at w.pub_subscribes),
    (λ at. lookup-purged conn at w.pub_namespace_active),
    refl,
  )
