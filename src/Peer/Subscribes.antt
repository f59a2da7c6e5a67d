-- ===== src/Peer/Subscribes.antt =====
-- The subscribes of src/peering/peer_manager.cc: `SubscribeInfoReceived`, `ClientSubscribe`,
-- `ClientSubscribeUpdate` and `ClientUnsubscribe`.
use laps.Prelude.{
  ℕ, Bool, true, false, List, [], ◌∷◌, Option, none, some, ◌==◌, ◌||◌, if◌then◌else◌,
}
use laps.Prelude.Outcome.{done, thrown, fault, stuck}
use laps.Prelude.Action.{Action, pure, ◌>>=◌, ◌>>◌, gets, modify, outcome, when, unless, try_catch}
use laps.Prelude.SortedSet.{is_empty}
use laps.Prelude.SortedMap.{Map, lookup, insert, erase, nat_key, pair_key}
use laps.Messages.SubscribeInfo.{SubscribeInfo}
use laps.InfoBase.State.{FibEntry}
use laps.InfoBase.Subscribes.{add_subscribe, remove_subscribe, get_subscribe}
use laps.Peer.Event.{process_subscribe, peer_unsubscribe_track, remove_or_pause_publisher_subscribe}
use laps.Peer.Session.{send_subscribe_info}
use laps.Peer.NodeSets.{add_subscribe_source_node, remove_subscribe_source_node}
use laps.Peer.World.{
  Transport, ParsedSubscribe, World, on_session, on_base, call_client, get_peer_session,
}
use laps.Peer.ClientData.{has_peers}

-- `try_emplace`: nothing changes where the key is there.
unfoldable pub try_emplace : ℕ × ℕ → FibEntry → Map (ℕ × ℕ) FibEntry → Map (ℕ × ℕ) FibEntry
try_emplace key entry m = elim (lookup key m) [ none ↦ insert key entry m | some _ ↦ m ]

-- Whether a publish stands under the full name hash.
unfoldable pub has_publish : ℕ → List (ℕ × ℕ) → Bool
has_publish hash [] = false
has_publish hash (key ∷ keys) = key.0 == hash || has_publish hash keys

unfoldable pub has_prefix_of :
    {Namespace : Type 0} → (Namespace → Namespace → Bool) → Namespace → List Namespace → Bool
has_prefix_of has_same_prefix name [] = false
has_prefix_of has_same_prefix name (n ∷ ns) =
    has_same_prefix n name || has_prefix_of has_same_prefix name ns

module _ {Namespace : Type 0} where
  -- The loop over the sessions of one table. The message goes to all but one peer, or to all, and
  -- each sending may raise its sequence number.
  unfoldable pub send_to_peers :
      Option ℕ → Bool → List (ℕ × ℕ) → SubscribeInfo → Action (World Namespace) SubscribeInfo
  send_to_peers but withdraw [] si = pure si
  send_to_peers but withdraw ((id, object) ∷ m) si =
      if elim but [ none ↦ false | some skipped ↦ skipped == id ]
      then send_to_peers but withdraw m si
      else (do
        sent ← on_session object (send_subscribe_info si withdraw)
        send_to_peers but withdraw m sent)

  unfoldable pub send_to_all :
      Option ℕ → Bool → SubscribeInfo → Action (World Namespace) SubscribeInfo
  send_to_all but withdraw si = do
    client ← gets (λ w. w.client_peer_sessions)
    sent ← send_to_peers but withdraw client si
    server ← gets (λ w. w.server_peer_sessions)
    send_to_peers but withdraw server sent

  unfoldable pub add_client_fib : ℕ × ℕ → FibEntry → Action (World Namespace) (Unit {0})
  add_client_fib key entry = modify (λ w. record w {
    info_base = record w.info_base { client_fib = try_emplace key entry w.info_base.client_fib };
  })

  unfoldable pub erase_client_fib : ℕ × ℕ → Action (World Namespace) (Unit {0})
  erase_client_fib key = modify (λ w. record w {
    info_base = record w.info_base { client_fib = erase key w.info_base.client_fib };
  })

  unfoldable pub is_announced :
      (Namespace → Namespace → Bool) → World Namespace → ℕ → Namespace → Bool
  is_announced has_same_prefix w hash name_space =
      has_publish hash w.pub_subscribes
      || has_prefix_of has_same_prefix name_space w.pub_namespace_active

  -- The withdrawal, once the tables and the peers know. The client manager is told of a track that
  -- no peer is left for, and then of the track in any case.
  unfoldable pub drop_source : ℕ → SubscribeInfo → Action (World Namespace) (Unit {0})
  drop_source peer_session_id si = do
    let hash = si.track_hash.track_fullname_hash
    best ← gets (λ w. lookup si.source_node_id w.info_base.nodes_best)
    elim best [
      | none ↦ pure tt
      | some object ↦ (do
        removed ← on_session object (remove_subscribe_source_node hash si.source_node_id)
        when removed.1 (do
          erase_client_fib (hash, peer_session_id)
          has ← gets (λ w. has_peers w hash)
          unless has (call_client (peer_unsubscribe_track hash))))
    ]
    has_manager ← gets (λ w. w.has_client_manager)
    when has_manager (call_client (remove_or_pause_publisher_subscribe hash))

  -- The source node is added to the node set of the session, and the first time the session is an
  -- egress of the track under the key.
  unfoldable pub add_source :
      Transport Namespace → ℕ → ℕ → SubscribeInfo → ℕ → ℕ → Action (World Namespace) (Unit {0})
  add_source q update_ref object si priority key_session = do
    let hash = si.track_hash.track_fullname_hash
    added ← on_session object (add_subscribe_source_node q.answers hash si.source_node_id priority)
    when added.1 (
        add_client_fib (hash, key_session)
          (record {
            update_ref = update_ref;
            streams = [];
            out_sns_id = added.0;
            peer_session = some object;
            track_fullname_hash = 0;
          }))

module _ {Namespace : Type 0} (q : Transport Namespace) where
  -- The subscribe of another relay meets a publish or an announce of a client of this one.
  unfoldable pub join_publisher :
      ℕ → ℕ → SubscribeInfo → ParsedSubscribe Namespace → ℕ → Action (World Namespace) (Unit {0})
  join_publisher update_ref peer_session_id si p priority = do
    has_manager ← gets (λ w. w.has_client_manager)
    when has_manager (
        call_client
          (process_subscribe si.track_hash p.track_namespace p.track_name p.new_group_request))
    best ← gets (λ w. lookup si.source_node_id w.info_base.nodes_best)
    elim best [
      | none ↦ pure tt
      | some object ↦ add_source q update_ref object si priority peer_session_id
    ]

  unfoldable pub match_publishers : ℕ → ℕ → SubscribeInfo → Action (World Namespace) (Unit {0})
  match_publishers update_ref peer_session_id si = do
    p ← outcome (q.parse_subscribe si.subscribe_data)
    priority ← outcome p.priority
    matches ←
        gets (λ w.
          is_announced q.has_same_prefix w si.track_hash.track_fullname_hash p.track_namespace)
    when matches (join_publisher update_ref peer_session_id si p priority)

  unfoldable pub process_subscribe_info :
      ℕ → ℕ → SubscribeInfo → Bool → Action (World Namespace) (Unit {0})
  process_subscribe_info update_ref peer_session_id si withdraw = do
    object ← get_peer_session peer_session_id
    is_updated ← on_base (λ ib. if withdraw then remove_subscribe ib si else add_subscribe ib si)
    sent ← if is_updated then send_to_all (some peer_session_id) withdraw si else pure si
    if withdraw
        then drop_source peer_session_id sent
        else match_publishers update_ref peer_session_id sent

  -- `update_ref` is what `rand()` returns.
  unfoldable pub subscribe_info_received :
      ℕ → ℕ → SubscribeInfo → Bool → Action (World Namespace) (Unit {0})
  subscribe_info_received update_ref peer_session_id si withdraw =
      try_catch (process_subscribe_info update_ref peer_session_id si withdraw) (pure tt)

  unfoldable pub client_subscribe :
      Namespace → List ℕ → List ℕ → Action (World Namespace) (Unit {0})
  client_subscribe name_space name subscribe_data = unless (is_empty subscribe_data) (do
    node_id ← gets (λ w. w.node_info.id)
    let si : SubscribeInfo = record {
      seq = 0;
      source_node_id = node_id;
      track_hash = q.track_hash name_space name;
      subscribe_data = subscribe_data;
    }
    is_updated ← on_base (λ ib. add_subscribe ib si)
    sent ← send_to_all none false si
    pure tt)

  unfoldable pub client_unsubscribe : ℕ → Action (World Namespace) (Unit {0})
  client_unsubscribe hash = do
    node_id ← gets (λ w. w.node_info.id)
    found ← on_base (λ ib. get_subscribe ib hash node_id)
    elim found [
      | none ↦ pure tt
      | some si ↦ (do
        is_updated ← on_base (λ ib. remove_subscribe ib si)
        sent ← send_to_all none true si
        pure tt)
    ]

  -- The message with the new group request taken out or put in, as the client asks for.
  unfoldable pub edited : Option ℕ → List ℕ → ParsedSubscribe Namespace → List ℕ
  edited none bytes p = if p.has_request then p.without_request else bytes
  edited (some request) bytes p = if p.has_request then bytes else p.with_request request

  -- The table keeps the old message. A message that cannot be parsed is not sent on.
  unfoldable pub client_subscribe_update :
      Namespace → List ℕ → Option ℕ → Action (World Namespace) (Unit {0})
  client_subscribe_update name_space name request = do
    node_id ← gets (λ w. w.node_info.id)
    let hash = (q.track_hash name_space name).track_fullname_hash
    found ← on_base (λ ib. get_subscribe ib hash node_id)
    elim found [
      | none ↦ pure tt
      | some si ↦ elim (q.parse_subscribe si.subscribe_data) [
        | thrown e ↦ pure tt
        | fault ↦ outcome fault
        | stuck ↦ outcome stuck
        | done p ↦ (do
          let updated = record si { subscribe_data = edited request si.subscribe_data p }
          sent ← send_to_all none false updated
          pure tt)
      ]
    ]
