-- ===== src/ClientManager/Tables/Registered.antt =====
-- Every request has its subscribe: kept where requests come and go.
use laps.Prelude.{ℕ, ◌≡◌, refl, ap, ◌∙◌, sym, false, none, some, Bool-cases, inl, inr, arith}
use laps.Prelude.SortedMap.{
  ◌==◌ as ◌is◌, lookup, erase, nat_key, lookup_of_erase, insert, lookup-insert, lookup_of_insert,
  lookup-erase_other,
}
use laps.Prelude.SortedMap.Pairs.{lex_key, lex_beq_iff}
use laps.ClientManager.{Relay, SubscribePublishHandlerInfo}

module _ {Namespace : Type 0} where
  -- Every request in the table of requests has its subscribe in the table of subscribes.
  abbrev pub IsRegistered : Relay Namespace → Type 0
  IsRegistered w =
      (conn request_id alias : ℕ)
      → lookup (conn, request_id) w.subscribe_alias_req_id ≡ some alias
      → (info : SubscribePublishHandlerInfo Namespace) × (lookup (alias, conn) w.subscribes
          ≡ some info)
        × (info.request_id ≡ request_id)

  -- What is found after the request and its subscribe were erased.
  pub erase-IsRegistered :
      (conn request_id alias : ℕ) (info : SubscribePublishHandlerInfo Namespace)
      (w w' : Relay Namespace)
      → lookup (conn, request_id) w.subscribe_alias_req_id ≡ some alias
      → lookup (alias, conn) w.subscribes ≡ some info
      → info.request_id ≡ request_id
      → w'.subscribe_alias_req_id ≡ erase (conn, request_id) w.subscribe_alias_req_id
      → w'.subscribes ≡ erase (alias, conn) w.subscribes
      → IsRegistered w
      → IsRegistered w'
  erase-IsRegistered conn request_id alias info w w' known found own aliases subscribes all c r a
        e =
      let (other, known') =
        lookup_of_erase (conn, request_id) (c, r) a w.subscribe_alias_req_id (rw aliases at e) in
      let (info', found', own') = all c r a known' in
      let here : ℕ × ℕ = (alias, conn) in
      let there : ℕ × ℕ = (a, c) in
      elim (Bool-cases (here is there)) [
        | inl same ↦
            let e : here ≡ there = (lex_beq_iff here there).0 same in
            let same_info : some info ≡ some info' =
              sym found ∙ ap (λ k. lookup k w.subscribes) e ∙ found' in
            absurd (
              twice (conn, request_id) (c, r) other (ap (λ k. k.1) e)
                (sym own ∙ request_of same_info ∙ own'))
        | inr apart ↦
            (info', rw subscribes (lookup-erase_other here there w.subscribes apart ∙ found'), own')
      ]
    where
      request_of :
          {i j : SubscribePublishHandlerInfo Namespace}
          → some i ≡ some j
          → i.request_id ≡ j.request_id
      request_of e = cc e

      twice : (who at : ℕ × ℕ) → (who is at) ≡ false → who.0 ≡ at.0 → who.1 ≡ at.1 → ⊥
      twice who at other ec er = ground (arith, other, ec, er)

  -- And after a request and its subscribe were recorded.
  pub insert-IsRegistered :
      (conn request_id alias : ℕ) (info : SubscribePublishHandlerInfo Namespace)
      (w w' : Relay Namespace)
      → info.request_id ≡ request_id
      → lookup (alias, conn) w.subscribes ≡ none
      → w'.subscribe_alias_req_id ≡ insert (conn, request_id) alias w.subscribe_alias_req_id
      → w'.subscribes ≡ insert (alias, conn) info w.subscribes
      → IsRegistered w
      → IsRegistered w'
  insert-IsRegistered conn request_id alias info w w' own new aliases subscribes all c r a e =
      let who : ℕ × ℕ = (conn, request_id) in
      let track : ℕ × ℕ = (alias, conn) in
      let at : ℕ × ℕ = (c, r) in
      let there : ℕ × ℕ = (a, c) in
      elim (lookup_of_insert who at alias a w.subscribe_alias_req_id (rw aliases at e)) [
        | inl (same, same_alias) ↦
            let here : track ≡ there = pair same_alias (ap (λ k. k.0) same) in
            (
              info,
              rw (subscribes, lookup-insert, (lex_beq_iff track there).1 here) refl,
              own ∙ ap (λ k. k.1) same,
            )
        | inr (other, known) ↦
            let (info', found, own') = all c r a known in
            elim (Bool-cases (track is there)) [
              | inl clash ↦
                  let e' : track ≡ there = (lex_beq_iff track there).0 clash in
                  absurd (neither (sym new ∙ ap (λ k. lookup k w.subscribes) e' ∙ found))
              | inr apart ↦ (info', rw (subscribes, lookup-insert, apart) found, own')
            ]
      ]
    where
      pair : {i j m n : ℕ} → i ≡ j → m ≡ n → ◌≡◌ {A = ℕ × ℕ} (i, m) (j, n)
      pair e f = rw (e, f) refl

      neither : {j : SubscribePublishHandlerInfo Namespace} → none ≡ some j → ⊥
      neither e = cc e
