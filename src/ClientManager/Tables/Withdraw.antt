-- ===== src/ClientManager/Tables/Withdraw.antt =====
-- A namespace that is withdrawn: its tracks and its entry leave the tables of publishers.
use laps.Prelude.{
  ℕ, ◌≡◌, refl, ap, ◌∙◌, Bool, true, false, ◌&&◌, ◌||◌, List, [], ◌∷◌, ◌++◌, map, is_some, Option,
  none, some, Bool-cases, Option-cases, inl, inr, ◌==◌, if◌then◌else◌, arith,
}
use laps.Prelude.Outcome.{done}
use laps.Prelude.Action.{each}
use laps.Prelude.SortedMap.{Key, Map, ◌==◌ as ◌is◌, lookup, erase, nat_key, lookup-erase}
use laps.Prelude.SortedMap.Pairs.{lex_key}
use laps.Prelude.SortedSet.{contains}
use laps.SubscribeHandler.{NamespaceHandler}
use laps.ClientManager.{
  Relay, Environment, RequestTransaction, as_namespace, client_announce, client_unannounce,
  resolve_publish_namespace_done,
}
use laps.ClientManager.Publishers.{
  interested, withdraw_track, aliases_at, publish_namespace_done_received,
}

contains-append :
    (c : ℕ) (xs ys : List ℕ) → contains c (xs ++ ys) ≡ (contains c xs || contains c ys)
unfolding contains
contains-append c [] ys = refl
contains-append c (x ∷ xs) ys = rw (contains-append c xs ys) (ground arith)

contains-keys :
    {A : Type 0} (c : ℕ) (m : Map ℕ A)
    → contains c (map (λ (row : ℕ × A). row.0) m) ≡ is_some (lookup c m)
unfolding contains lookup
contains-keys c [] = refl
contains-keys c ((x, a) ∷ m) = elim (Bool-cases (x == c)) [
  | inl same ↦ rw same refl
  | inr other ↦ rw other (contains-keys c m)
]

module _ {Namespace : Type 0} ⦃key : Key Namespace⦄ (around : Environment Namespace) where
  -- One track goes, and the announced namespaces stay.
  withdraw_track_lem :
      (conn alias : ℕ) (w : Relay Namespace)
      → (w' : Relay Namespace) × (withdraw_track around conn alias w ≡ (done tt, w'))
        × (w'.pub_subscribes ≡ erase (alias, conn) w.pub_subscribes)
        × (w'.pub_namespace_active ≡ w.pub_namespace_active)
  unfolding withdraw_track
  withdraw_track_lem conn alias w = elim (Option-cases (lookup (alias, conn) w.pub_subscribes)) [
    | inl unknown ↦
        ((withdraw_track around conn alias w).1, rw unknown refl, rw unknown refl, rw unknown refl)
    | inr (object, known) ↦
        ((withdraw_track around conn alias w).1, rw known refl, rw known refl, rw known refl)
  ]

  withdraw_tracks :
      (conn : ℕ) (aliases : List ℕ) (w : Relay Namespace)
      → (w' : Relay Namespace) × (each (withdraw_track around conn) aliases w ≡ (done tt, w'))
        × ((alias c : ℕ)
            → lookup (alias, c) w'.pub_subscribes ≡ (
                if c == conn && contains alias aliases
                then none
                else lookup (alias, c) w.pub_subscribes))
        × (w'.pub_namespace_active ≡ w.pub_namespace_active)
  unfolding each contains
  withdraw_tracks conn [] w =
      (w, refl, (λ alias c. by_case (c == conn) (lookup (alias, c) w.pub_subscribes)), refl)
    where
      by_case : (b : Bool) (o : Option ℕ) → o ≡ (if b && false then none else o)
      by_case true o = refl
      by_case false o = refl
  withdraw_tracks conn (a ∷ aliases) w =
      let (w1, e1, rows1, active1) = withdraw_track_lem conn a w in
      let (w2, e2, rows2, active2) = withdraw_tracks conn aliases w1 in
      (
        w2,
        rw (e1, e2) refl,
        (λ alias c.
            rows2 alias c
            ∙ ap (λ m. if c == conn && contains alias aliases then none else lookup (alias, c) m)
                rows1
            ∙ ap (λ o. if c == conn && contains alias aliases then none else o)
                (lookup-erase (a, conn) (alias, c) w.pub_subscribes)
            ∙ merge alias c (contains alias aliases) (lookup (alias, c) w.pub_subscribes)),
        active2 ∙ active1,
      )
    where
      merge :
          (alias c : ℕ) (more : Bool) (o : Option ℕ)
          → (if c == conn && more then none else if a == alias && conn == c then none else o)
            ≡ (if c == conn && (a == alias || more) then none else o)
      merge alias c more o = ground arith

  -- Whether the connection subscribes to a prefix of the namespace, by the table.
  abbrev pub subscribes_prefix : ℕ → Namespace → Map Namespace (Map ℕ NamespaceHandler) → Bool
  subscribes_prefix c ns [] = false
  subscribes_prefix c ns ((prefix, conns) ∷ rest) =
      (around.has_same_prefix prefix ns && is_some (lookup c conns)) || subscribes_prefix c ns rest

  contains-interested :
      (c : ℕ) (ns : Namespace) (m : Map Namespace (Map ℕ NamespaceHandler))
      → contains c (interested around ns m) ≡ subscribes_prefix c ns m
  unfolding interested contains
  contains-interested c ns [] = refl
  contains-interested c ns ((prefix, conns) ∷ rest) =
      elim (Bool-cases (around.has_same_prefix prefix ns)) [
        | inl same ↦ rw same (
            contains-append c (map (λ row. row.0) conns) (interested around ns rest)
            ∙ ap (λ b. b || contains c (interested around ns rest)) (contains-keys c conns)
            ∙ ap (λ b. is_some (lookup c conns) || b) (contains-interested c ns rest))
        | inr other ↦ rw other (contains-interested c ns rest)
      ]

  -- A publisher that is done with a namespace it announced: its tracks that were matched to the
  -- namespace and the entry of the namespace leave the tables, every other publisher and announced
  -- namespace stays, and the connections that are returned are just those that the table has under
  -- a prefix of the namespace.
  pub publish_namespace_done_received_lem :
      (conn request_id : ℕ) (request : RequestTransaction Namespace) (w : Relay Namespace)
      → lookup (conn, request_id) w.requests ≡ some request
      → let announced : Namespace × ℕ = (request.related_data, conn) in
        let aliases = aliases_at around (lookup announced w.pub_namespace_active) in
        (conns : List ℕ) × (w' : Relay Namespace) × (publish_namespace_done_received around conn
            request_id w
          ≡ (done conns, w'))
        × ((c : ℕ)
            → contains c conns ≡ subscribes_prefix c request.related_data w.subscribes_namespaces)
        × ((alias c : ℕ)
            → lookup (alias, c) w'.pub_subscribes ≡ (
                if c == conn && contains alias aliases
                then none
                else lookup (alias, c) w.pub_subscribes))
        × ((at : Namespace × ℕ)
            → lookup at w'.pub_namespace_active
              ≡ (if announced is at then none else lookup at w.pub_namespace_active))
  unfolding publish_namespace_done_received
  publish_namespace_done_received_lem conn request_id request w known =
      let ns = request.related_data in
      let announced : Namespace × ℕ = (ns, conn) in
      let conns = interested around ns w.subscribes_namespaces in
      let w0 : Relay Namespace = record w {
        log =
            resolve_publish_namespace_done conn request_id conns
            ∷ client_announce (as_namespace ns) true true
            ∷ w.log;
      } in
      let (w1, e1, rows, active) =
        withdraw_tracks conn (aliases_at around (lookup announced w.pub_namespace_active)) w0 in
      elim (Bool-cases (conn == 0)) [
        | inl peer ↦ (
          conns,
          record w1 { pub_namespace_active = erase announced w1.pub_namespace_active },
          rw (publish_namespace_done_received, known, e1, peer) refl,
          (λ c. contains-interested c ns w.subscribes_namespaces),
          rows,
          (λ at. rw active (lookup-erase announced at w.pub_namespace_active)),
        )
        | inr client ↦ (
          conns,
          record w1 {
            pub_namespace_active = erase announced w1.pub_namespace_active;
            log = client_unannounce (as_namespace ns) ∷ w1.log;
          },
          rw (publish_namespace_done_received, known, e1, client) refl,
          (λ c. contains-interested c ns w.subscribes_namespaces),
          rows,
          (λ at. rw active (lookup-erase announced at w.pub_namespace_active)),
        )
      ]
