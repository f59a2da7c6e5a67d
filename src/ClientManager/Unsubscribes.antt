-- ===== src/ClientManager/Unsubscribes.antt =====
-- The ends of subscribes of src/client_manager.cc: an unsubscribe, what becomes of publishers that
-- nobody listens to, and the end of a publish.
use laps.Prelude.{
  ℕ, ◌==◌, ltb, Bool, true, false, not, ◌&&◌, ◌||◌, List, [], ◌∷◌, Option, none, some,
  if◌then◌else◌, map,
}
use laps.Prelude.Outcome.{done}
use laps.Prelude.Action.{Action, pure, ◌>>=◌, ◌>>◌, gets, modify, when, unless, each}
use laps.Prelude.SortedMap.{Key, Map, lookup, erase, nat_key}
use laps.Prelude.SortedMap.Pairs.{lex_key}
use laps.SubscribeHandler.{
  SubscribeHandler, pause, call as handler_call, remove_subscriber, has_none,
}
use laps.ClientManager.{
  FullTrackName, SubscribePublishHandlerInfo, ok, does_not_exist, Relay, Environment,
  resolve_track_status, unsubscribe_track, client_announce, client_unsubscribe,
  client_subscribe_update, row_at, keep_row, erase_all, rows_of, call, object_at, on_object,
  on_fan_out,
}
use laps.ClientManager.Subscribes.{dampen_or_update, get_largest_available}

-- `HasSubscribers` of a handler.
abbrev pub track_has_subscribers : SubscribeHandler → Bool
track_has_subscribers h = not (has_none h.subscribers) || not (has_none h.sub_namespaces)

abbrev pub is_empty_range : {A : Type 0} → Map (ℕ × ℕ) A → Bool
is_empty_range [] = true
is_empty_range (_ ∷ _) = false

module _ {Namespace : Type 0} where
  -- The publishers of a track that nobody listens to: one that began by itself is paused, another
  -- is unsubscribed. It tells whether a publisher has subscribers, and which rows are to go.
  unfoldable pub settle_rows : Map (ℕ × ℕ) ℕ → Action (Relay Namespace) (Bool × List (ℕ × ℕ))
  settle_rows [] = pure (false, [])
  settle_rows ((at, object) ∷ rest) =
      let more = settle_rows rest in
      do
        h ← object_at object
        if track_has_subscribers h.fan_out
            then (do found ← more; pure (true, found.1))
            else if h.is_publisher_initiated
            then (do on_fan_out object (handler_call pause); more)
            else (do
              call (unsubscribe_track at.1 object)
              found ← more
              pure (found.0, at ∷ found.1))

module _ {Namespace : Type 0} ⦃key : Key Namespace⦄ (around : Environment Namespace) where
  unfoldable pub remove_or_pause : ℕ → Action (Relay Namespace) (Unit {0})
  remove_or_pause hash w =
      unless (around.peers_subscribed hash)
        (do
          rows ← gets (λ w. rows_of hash w.pub_subscribes)
          found ← settle_rows rows
          modify (λ w. record w { pub_subscribes = erase_all found.1 w.pub_subscribes })
          unless found.0 (call (client_unsubscribe hash)))
        w

  -- A subscribe leaves the three tables.
  unfoldable pub forget_subscribe :
      ℕ → ℕ → ℕ → SubscribePublishHandlerInfo Namespace → Action (Relay Namespace) (Unit {0})
  forget_subscribe conn request_id alias info = modify (λ w.
      let th = around.track_hash info.track_full_name in
      let names : Namespace × ℕ = (info.track_full_name.name_space, th.track_name_hash) in
      let who : ℕ × ℕ = (conn, request_id) in
      let track : ℕ × ℕ = (alias, conn) in
      record w {
        subscribe_active =
            keep_row names (erase who (row_at (lookup names w.subscribe_active)))
              w.subscribe_active;
        subscribes = erase track w.subscribes;
      })

  unfoldable pub unsubscribe_received : ℕ → ℕ → Action (Relay Namespace) (Unit {0})
  unsubscribe_received conn request_id w =
      let who : ℕ × ℕ = (conn, request_id) in
      elim (lookup who w.subscribe_alias_req_id) [
        | none ↦ (done tt, w)
        | some alias ↦
            let track : ℕ × ℕ = (alias, conn) in
            elim (lookup track w.subscribes) [
              | none ↦ (done tt, w)
              | some info ↦
                  let hash = (around.track_hash info.track_full_name).track_fullname_hash in
                  (do
                    modify (λ w. record w {
                      subscribe_alias_req_id = erase who w.subscribe_alias_req_id;
                    })
                    rows ← gets (λ w. rows_of hash w.pub_subscribes)
                    each (λ row. on_fan_out row.1 (remove_subscriber conn)) rows
                    forget_subscribe conn request_id alias info
                    remove_or_pause hash)
                    w
            ]
      ]

  unfoldable pub peer_unsubscribe_track : ℕ → Action (Relay Namespace) (Unit {0})
  peer_unsubscribe_track hash = do
    rows ← gets (λ w. rows_of hash w.pub_subscribes)
    each (λ row. on_fan_out row.1 (remove_subscriber 0)) rows

  -- The rows of the subscribers of a track, as connections and requests.
  abbrev pub subscribers_of : ℕ → Relay Namespace → List (ℕ × ℕ)
  subscribers_of hash w = map (λ row. (row.0.1, row.1.request_id)) (rows_of hash w.subscribes)

  unfoldable pub publish_done_received : ℕ → ℕ → Action (Relay Namespace) (Unit {0})
  publish_done_received conn request_id w =
      let by_request : ℕ × ℕ = (request_id, conn) in
      elim (lookup by_request w.pub_subscribes_by_req_id) [
        | none ↦ (done tt, w)
        | some object ↦
            (do
              h ← object_at object
              unless (conn == 0) (call (client_announce h.full_track_name true false))
              let hash = (around.track_hash h.full_track_name).track_fullname_hash
              modify (λ w.
                  let track : ℕ × ℕ = (hash, conn) in
                  record w { pub_subscribes = erase track w.pub_subscribes })
              alone ← gets (λ w. is_empty_range (rows_of hash w.pub_subscribes))
              when (alone && not around.detached_subs) (do
                ends ← gets (subscribers_of hash)
                each (λ who. unsubscribe_received who.0 who.1) ends)
              modify (λ w. record w {
                pub_subscribes_by_req_id = erase by_request w.pub_subscribes_by_req_id;
              }))
              w
      ]

  -- The first publisher on another connection answers.
  unfoldable pub answer_status :
      ℕ → ℕ → FullTrackName Namespace → Map (ℕ × ℕ) ℕ → Action (Relay Namespace) (Unit {0})
  answer_status conn request_id name [] =
      call (resolve_track_status conn request_id does_not_exist false none)
  answer_status conn request_id name ((at, object) ∷ rest) =
      let more = answer_status conn request_id name rest in
      if at.1 == conn then more else (do
        h ← object_at object
        call (
            resolve_track_status conn request_id ok h.is_publisher_initiated
              (get_largest_available around name)))

  unfoldable pub track_status_received :
      ℕ → ℕ → FullTrackName Namespace → Action (Relay Namespace) (Unit {0})
  track_status_received conn request_id name = do
    rows ← gets (λ w. rows_of (around.track_hash name).track_fullname_hash w.pub_subscribes)
    answer_status conn request_id name rows

  -- The test of the pending group: none, or zero asked where one above zero pends, or a later one.
  abbrev pub asks_new_group : Option ℕ → ℕ → Bool
  asks_new_group none group_id = true
  asks_new_group (some pending) group_id =
      (group_id == 0 && not (pending == 0)) || ltb pending group_id

  unfoldable pub request_group : ℕ → (ℕ × ℕ) × ℕ → Action (Relay Namespace) (Unit {0})
  request_group group_id (_, object) = do
    h ← object_at object
    when (asks_new_group h.fan_out.pending_new_group_request_id group_id) (do
      on_object object (around.with_new_group group_id)
      sent ← dampen_or_update around object true
      pure tt)

  -- The attributes of the update for the peers are constants.
  unfoldable pub new_group_requested :
      FullTrackName Namespace → ℕ → Action (Relay Namespace) (Unit {0})
  new_group_requested name group_id = do
    call (client_subscribe_update name)
    rows ← gets (λ w. rows_of (around.track_hash name).track_fullname_hash w.pub_subscribes)
    each (request_group group_id) rows
