-- ===== src/ClientManager/Tables/RoundTrip.antt =====
-- A subscribe and its unsubscribe: the tables of subscribes are as before.
use laps.Prelude.{
  ℕ, ◌≡◌, refl, ap, ◌∙◌, sym, true, false, ◌&&◌, [], ◌∷◌, Option, none, some, Bool-cases, inl, inr,
  ◌==◌, if◌then◌else◌,
}
use laps.Prelude.Outcome.{done}
use laps.Prelude.SortedMap.{
  Key, ◌==◌ as ◌is◌, Map, lookup, insert, erase, nat_key, lookup-insert, lookup-erase,
}
use laps.Prelude.SortedMap.Pairs.{lex_key}
use laps.ClientManager.{
  Relay, Environment, FullTrackName, ActiveSubscribeInfo, SubscribeAttributes, row_at, keep_row,
  try_emplace-new,
}
use laps.ClientManager.Subscribes.{info_of, record_subscribe, subscribe_received}
use laps.ClientManager.Unsubscribes.{unsubscribe_received}
use laps.ClientManager.Tables.Remove.{IsSound, Keeps}
use laps.ClientManager.Tables.Announcer.{GivesRequests}
use laps.ClientManager.Tables.Unsubscribe.{unsubscribe_received_lem}
use laps.ClientManager.Tables.Invariant.{subscribe_received-Keeps}

module _ {K V : Type 0} ⦃key : Key K⦄ where
  lookup-insert_self : (k : K) (v : V) (m : Map K V) → lookup k (insert k v m) ≡ some v
  lookup-insert_self k v m = rw (lookup-insert, (key.beq_iff k k).1 refl) refl

  lookup_equal : (k at : K) (m : Map K V) → (k is at) ≡ true → lookup k m ≡ lookup at m
  lookup_equal k at m same = ap (λ x. lookup x m) ((key.beq_iff k at).0 same)

  -- What was new and is taken out again.
  lookup-erase-insert :
      (k at : K) (v : V) (m : Map K V)
      → lookup k m ≡ none
      → lookup at (erase k (insert k v m)) ≡ lookup at m
  lookup-erase-insert k at v m new = elim (Bool-cases (k is at)) [
    | inl same ↦ rw (lookup-erase, same) (sym new ∙ lookup_equal k at m same)
    | inr other ↦ rw (lookup-erase, other, lookup-insert, other) refl
  ]

module _ {J K V : Type 0} ⦃jk : Key J⦄ ⦃kk : Key K⦄ where
  abbrev pub entry : J → K → Map J (Map K V) → Option V
  entry n at m = lookup at (row_at (lookup n m))

  entry-keep_row :
      (names n : J) (at : K) (row : Map K V) (m : Map J (Map K V))
      → entry n at (keep_row names row m) ≡ (if names is n then lookup at row else entry n at m)
  unfolding keep_row
  entry-keep_row names n at [] m = elim (Bool-cases (names is n)) [
    | inl same ↦ rw (lookup-erase, same) (unfold lookup in refl)
    | inr other ↦ rw (lookup-erase, other) refl
  ]
  entry-keep_row names n at (r ∷ row) m = elim (Bool-cases (names is n)) [
    | inl same ↦ rw (lookup-insert, same) refl
    | inr other ↦ rw (lookup-insert, other) refl
  ]

  -- An entry that was new and is taken out again, with its row where that is left empty.
  entry-restored :
      (names n : J) (who at : K) (v : V) (m : Map J (Map K V))
      → entry names who m ≡ none
      → let m' = insert names (insert who v (row_at (lookup names m))) m in
        entry n at (keep_row names (erase who (row_at (lookup names m'))) m') ≡ entry n at m
  entry-restored names n who at v m new =
      let m' = insert names (insert who v (row_at (lookup names m))) m in
      entry-keep_row names n at (erase who (row_at (lookup names m'))) m'
      ∙ elim (Bool-cases (names is n)) [
        | inl same ↦
            rw (same, lookup-insert_self names (insert who v (row_at (lookup names m))) m)
              (lookup-erase-insert who at v (row_at (lookup names m)) new
                ∙ ap (λ x. lookup at (row_at x)) (lookup_equal names n m same))
        | inr other ↦ rw (other, lookup-insert, other) refl
      ]

module _ {Namespace : Type 0} ⦃key : Key Namespace⦄ (around : Environment Namespace) where
  -- The look into the tables, as it was.
  abbrev pub Restores : Relay Namespace → Relay Namespace → Type 0
  Restores w w2 =
      ((at : ℕ × ℕ) → lookup at w2.subscribe_alias_req_id ≡ lookup at w.subscribe_alias_req_id)
      × ((at : ℕ × ℕ) → lookup at w2.subscribes ≡ lookup at w.subscribes)
      × ((n : Namespace × ℕ) (at : ℕ × ℕ)
          → entry n at w2.subscribe_active ≡ entry n at w.subscribe_active)

  -- The unsubscribe of a subscribe that was new.
  undo :
      (conn request_id : ℕ) (name : FullTrackName Namespace) (attrs : SubscribeAttributes)
      (info : ActiveSubscribeInfo) (w w1 : Relay Namespace)
      → let alias = (around.track_hash name).track_fullname_hash in
        let names : Namespace × ℕ = (name.name_space, (around.track_hash name).track_name_hash) in
        IsSound w1
        → w1.subscribe_alias_req_id ≡ insert (conn, request_id) alias w.subscribe_alias_req_id
        → w1.subscribes ≡ insert (alias, conn) (info_of around request_id name attrs) w.subscribes
        → w1.subscribe_active
          ≡ insert names
              (insert (conn, request_id) info (row_at (lookup names w.subscribe_active)))
              w.subscribe_active
        → lookup (alias, conn) w.subscribes ≡ none
        → lookup (conn, request_id) w.subscribe_alias_req_id ≡ none
        → entry names (conn, request_id) w.subscribe_active ≡ none
        → (w2 : Relay Namespace) × (unsubscribe_received around conn request_id w1 ≡ (done tt, w2))
          × Restores w w2
  undo conn request_id name attrs info w w1 sound aliases subscribes active new no_request
        not_active =
      let alias = (around.track_hash name).track_fullname_hash in
      let names : Namespace × ℕ = (name.name_space, (around.track_hash name).track_name_hash) in
      let who : ℕ × ℕ = (conn, request_id) in
      let track : ℕ × ℕ = (alias, conn) in
      let kept = info_of around request_id name attrs in
      let (w2, e, aliases2, subscribes2, active2, sound2) =
        unsubscribe_received_lem around conn request_id alias kept w1 sound
          (rw aliases (lookup-insert_self who alias w.subscribe_alias_req_id))
          (rw subscribes (lookup-insert_self track kept w.subscribes)) in
      (
        w2,
        e,
        (
          (λ at.
              rw (aliases2, aliases)
                (lookup-erase-insert who at alias w.subscribe_alias_req_id no_request)),
          (λ at. rw (subscribes2, subscribes) (lookup-erase-insert track at kept w.subscribes new)),
          (λ n at.
              rw (active2, active)
                (entry-restored names n who at info w.subscribe_active not_active)),
        ),
      )

  -- A client that subscribes to a track it has not subscribed to, with a request id it does not use,
  -- and takes the subscribe back, is handled twice to the end, and every look into the tables of
  -- requests, subscribes and active subscribes finds what it found before.
  pub subscribe_received-unsubscribe_received :
      (conn request_id : ℕ) (name : FullTrackName Namespace) (attrs : SubscribeAttributes)
      (w : Relay Namespace)
      → GivesRequests around
      → IsSound w
      → (conn == 0 && request_id == 0) ≡ false
      → lookup ((around.track_hash name).track_fullname_hash, conn) w.subscribes ≡ none
      → lookup (conn, request_id) w.subscribe_alias_req_id ≡ none
      → entry
          (name.name_space, (around.track_hash name).track_name_hash)
          (conn, request_id)
          w.subscribe_active
        ≡ none
      → (w1 w2 : Relay Namespace) × (subscribe_received around conn request_id name attrs w
          ≡ (done tt, w1))
        × (unsubscribe_received around conn request_id w1 ≡ (done tt, w2))
        × Restores w w2
  unfolding record_subscribe
  subscribe_received-unsubscribe_received conn request_id name attrs w gives sound client new
        no_request not_active =
      let alias = (around.track_hash name).track_fullname_hash in
      let names : Namespace × ℕ = (name.name_space, (around.track_hash name).track_name_hash) in
      let info : ActiveSubscribeInfo = record {
        track_alias = alias;
        priority = attrs.priority;
        delivery_timeout = attrs.delivery_timeout;
        start_location = attrs.start_location;
      } in
      let (u, w1, e, k') =
        subscribe_received-Keeps around conn request_id name attrs w gives sound new in
      let k : Keeps (record_subscribe around conn request_id name attrs w) w1 = rw client at k' in
      let (w2, e2, restores) =
        undo conn request_id name attrs info w w1 k.sound k.aliases
          (k.subscribes
            ∙ try_emplace-new (alias, conn) (info_of around request_id name attrs) w.subscribes new)
          (k.active
            ∙ ap (λ row. insert names row w.subscribe_active)
                (try_emplace-new (conn, request_id) info (row_at (lookup names w.subscribe_active))
                  not_active))
          new no_request not_active in
      (w1, w2, e, e2, restores)
