-- ===== src/ClientManager/Tables/Closing.antt =====
-- The registered requests can be ended, and what a closed connection leaves in three tables.
use laps.Prelude.{
  ℕ, ◌≡◌, refl, ap, ◌∙◌, sym, Bool, true, false, ◌&&◌, ◌||◌, List, [], ◌∷◌, Option, none, some,
  if◌then◌else◌, Bool-cases, Option-cases, inl, inr, ◌==◌, is_some, ==-self,
}
use laps.Prelude.Outcome.{done}
use laps.Prelude.Action.{Action, each}
use laps.Prelude.SortedMap.{
  Key, ◌==◌ as ◌is◌, Map, lookup, IsSorted, lower_bound, nat_key, lookup-erase,
}
use laps.Prelude.SortedMap.Pairs.{lex_key, lex_beq_iff}
use laps.ClientManager.{Relay, Environment, rows_until}
use laps.ClientManager.Unsubscribes.{unsubscribe_received}
use laps.ClientManager.Namespaces.{
  requests_until, requests_of, namespaces_of, end_connection, ConnectionStatus, connected,
  connecting, not_connected, closed_by_remote, idle_timeout, connection_status_changed,
}
use laps.ClientManager.Tables.Registered.{IsRegistered, erase-IsRegistered}
use laps.ClientManager.Tables.Rows.{is_among, lookup-rows_of}
use laps.ClientManager.Tables.Remove.{IsSound}
use laps.ClientManager.Tables.Unsubscribe.{unsubscribe_received_lem}
use laps.ClientManager.Tables.Purge.{purge_publish_state-lookup}

-- To take out what is not there changes nothing that is found.
lookup_same :
    (who : ℕ × ℕ) (m : Map (ℕ × ℕ) ℕ)
    → lookup who m ≡ none
    → (at : ℕ × ℕ) → lookup at m ≡ (if who is at then none else lookup at m)
lookup_same who m unknown at = elim (Bool-cases (who is at)) [
  | inl same ↦ rw same (ap (λ k. lookup k m) (sym ((lex_beq_iff who at).0 same)) ∙ unknown)
  | inr other ↦ rw other refl
]

module _ {Namespace : Type 0} ⦃key : Key Namespace⦄ (around : Environment Namespace) where
  abbrev end_request : ℕ × ℕ → Action (Relay Namespace) (Unit {0})
  end_request who = unsubscribe_received around who.0 who.1

  end_request_lem :
      (who : ℕ × ℕ) (w : Relay Namespace)
      → IsSound w
      → IsRegistered w
      → (w' : Relay Namespace) × (end_request who w ≡ (done tt, w'))
        × ((at : ℕ × ℕ)
            → lookup at w'.subscribe_alias_req_id
              ≡ (if who is at then none else lookup at w.subscribe_alias_req_id))
        × IsSound w'
        × IsRegistered w'
  unfolding unsubscribe_received
  end_request_lem (conn, request_id) w sound all =
      elim (Option-cases (lookup (conn, request_id) w.subscribe_alias_req_id)) [
        | inl unknown ↦ (
          w,
          rw (unsubscribe_received, unknown) refl,
          (lookup_same (conn, request_id) w.subscribe_alias_req_id unknown),
          sound,
          all,
        )
        | inr (alias, known) ↦
            let (info, found, own) = all conn request_id alias known in
            let (w', e, aliases, subscribes, active, sound') =
              unsubscribe_received_lem around conn request_id alias info w sound known found in
            (
              w',
              e,
              (λ at.
                  ap (lookup at) aliases
                  ∙ lookup-erase (conn, request_id) at w.subscribe_alias_req_id),
              sound',
              erase-IsRegistered conn request_id alias info w w' known found own aliases subscribes
                  all,
            )
      ]

  end_requests :
      (ends : List (ℕ × ℕ)) (w : Relay Namespace)
      → IsSound w
      → IsRegistered w
      → (w' : Relay Namespace) × (each end_request ends w ≡ (done tt, w'))
        × ((at : ℕ × ℕ)
            → lookup at w'.subscribe_alias_req_id
              ≡ (if is_among at ends then none else lookup at w.subscribe_alias_req_id))
        × IsSound w'
        × IsRegistered w'
  unfolding each
  end_requests [] w sound all = (w, refl, (λ at. refl), sound, all)
  end_requests (who ∷ ends) w sound all =
      let (w1, e1, left1, sound1, all1) = end_request_lem who w sound all in
      let (w2, e2, left2, sound2, all2) = end_requests ends w1 sound1 all1 in
      (
        w2,
        rw (e1, e2) refl,
        (λ at. left2 at ∙ both at (lookup at w1.subscribe_alias_req_id) (left1 at)),
        sound2,
        all2,
      )
    where
      merge :
          (a b : Bool) (o : Option ℕ)
          → (if b then none else if a then none else o) ≡ (if a || b then none else o)
      merge true true o = refl
      merge true false o = refl
      merge false b o = refl

      both :
          (at : ℕ × ℕ) (o : Option ℕ)
          → o ≡ (if who is at then none else lookup at w.subscribe_alias_req_id)
          → (if is_among at ends then none else o)
            ≡ (if is_among at (who ∷ ends) then none else lookup at w.subscribe_alias_req_id)
      both at o left =
          ap (λ o. if is_among at ends then none else o) left
          ∙ merge (who is at) (is_among at ends) (lookup at w.subscribe_alias_req_id)

-- The requests of a connection are those that are found.
is_among-requests_until :
    (conn : ℕ) (at : ℕ × ℕ) (m : Map (ℕ × ℕ) ℕ)
    → is_among at (requests_until conn m) ≡ is_some (lookup at (rows_until conn m))
unfolding requests_until rows_until lookup
is_among-requests_until conn at [] = refl
is_among-requests_until conn at ((j, a) ∷ m) =
    let more = is_among-requests_until conn at m in
    elim (Bool-cases (j.0 == conn)) [
      | inl here ↦ elim (Bool-cases (j is at)) [
        | inl same ↦ rw (here, same) refl
        | inr other ↦ rw (here, other) more
      ]
      | inr away ↦ rw away refl
    ]

is_among-requests_of :
    (conn : ℕ) (at : ℕ × ℕ) (m : Map (ℕ × ℕ) ℕ)
    → IsSorted m
    → is_among at (requests_of conn m) ≡ (at.0 == conn && is_some (lookup at m))
is_among-requests_of conn (c, r) m sorted =
    let first : ℕ × ℕ = (conn, 0) in
    is_among-requests_until conn (c, r) (lower_bound first m)
    ∙ ap is_some (lookup-rows_of conn c r m sorted)
    ∙ by_case (c == conn) (lookup (c, r) m)
  where
    by_case : (b : Bool) (o : Option ℕ) → is_some (if b then o else none) ≡ (b && is_some o)
    by_case true o = refl
    by_case false o = refl

abbrev pub is_closing : ConnectionStatus → Bool
is_closing connected = false
is_closing connecting = false
is_closing _ = true

module _ {Namespace : Type 0} ⦃key : Key Namespace⦄ (around : Environment Namespace) where
  -- A call that ends, after which no request, no publisher and no announced namespace of a
  -- connection is left, and every request of another connection is.
  abbrev pub LeavesNothing : ℕ → Relay Namespace → Action (Relay Namespace) (Unit {0}) → Type 0
  LeavesNothing conn w m =
      (w' : Relay Namespace) × (m w ≡ (done tt, w'))
      × ((at : ℕ × ℕ)
          → lookup at w'.subscribe_alias_req_id
            ≡ (if at.0 == conn then none else lookup at w.subscribe_alias_req_id))
      × ((alias : ℕ) → lookup (alias, conn) w'.pub_subscribes ≡ none)
      × ((ns : Namespace) → lookup (ns, conn) w'.pub_namespace_active ≡ none)

  end_connection-lookup :
      (conn : ℕ) (w : Relay Namespace)
      → IsSound w
      → IsSorted w.subscribe_alias_req_id
      → IsRegistered w
      → namespaces_of conn w.subscribes_namespaces ≡ []
      → LeavesNothing conn w (end_connection around conn)
  unfolding end_connection each
  end_connection-lookup conn w sound sorted all none_left =
      let (w1, e1, left1, sound1, all1) =
        end_requests around (requests_of conn w.subscribe_alias_req_id) w sound all in
      let (w2, e2, publishers, namespaces, kept) = purge_publish_state-lookup conn w1 in
      (
        w2,
        rw (end_connection, none_left, each, e1, e2) refl,
        (λ at.
            ap (lookup at) kept
            ∙ left1 at
            ∙ ap (λ b. if b then none else lookup at w.subscribe_alias_req_id)
                (is_among-requests_of conn at w.subscribe_alias_req_id sorted)
            ∙ by_case (at.0 == conn) (lookup at w.subscribe_alias_req_id)),
        (λ alias. publishers (alias, conn) ∙ self (lookup (alias, conn) w1.pub_subscribes)),
        (λ ns. namespaces (ns, conn) ∙ self (lookup (ns, conn) w1.pub_namespace_active)),
      )
    where
      by_case :
          (b : Bool) (o : Option ℕ) → (if b && is_some o then none else o) ≡ (if b then none else o)
      by_case true none = refl
      by_case true (some a) = refl
      by_case false o = refl

      self : {A : Type 0} (o : Option A) → (if conn == conn then none else o) ≡ none
      self o = rw (==-self conn) refl

  -- A status that is an end, of a connection that subscribes to no namespace, at a relay whose
  -- subscribe requests all have their subscribes and whose table of them is sorted: the handler
  -- ends. The table of subscribe requests (subscribe_alias_req_id) has none of the connection and
  -- all of the others, pub_subscribes has no publisher of it, and pub_namespace_active no namespace
  -- that it announced.
  pub connection_status_changed-lookup :
      (conn : ℕ) (status : ConnectionStatus) (w : Relay Namespace)
      → is_closing status ≡ true
      → IsSound w
      → IsSorted w.subscribe_alias_req_id
      → IsRegistered w
      → namespaces_of conn w.subscribes_namespaces ≡ []
      → LeavesNothing conn w (connection_status_changed around conn status)
  unfolding connection_status_changed
  connection_status_changed-lookup conn connected w closing = absurd (cc closing)
  connection_status_changed-lookup conn connecting w closing = absurd (cc closing)
  connection_status_changed-lookup conn not_connected w closing = end_connection-lookup conn w
  connection_status_changed-lookup conn closed_by_remote w closing = end_connection-lookup conn w
  connection_status_changed-lookup conn idle_timeout w closing = end_connection-lookup conn w
