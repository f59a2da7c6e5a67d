-- ===== src/Peer/Nodes.antt =====
-- `NodeReceived`, `PropagateNodeInfo` and `InfoBaseSyncPeer` of src/peering/peer_manager.cc.
use laps.Prelude.{
  ℕ, Bool, true, false, List, [], ◌∷◌, ◌++◌, Option, none, some, ◌||◌, ◌==◌, if◌then◌else◌,
}
use laps.Prelude.Outcome.{Outcome, done, ◌>>=◌ as ◌>>>=◌}
use laps.Prelude.Action.{Action, pure, after, ◌>>=◌, ◌>>◌, gets, when, unless, each, try_catch}
use laps.Prelude.SortedMap.{Map, lookup, insert, nat_key, pair_key}
use laps.Messages.NodeInfo.{NodeInfo, NodePathItem}
use laps.Messages.SubscribeInfo.{SubscribeInfo}
use laps.Messages.AnnounceInfo.{AnnounceInfo}
use laps.InfoBase.State.{InfoBase, NodeItem}
use laps.InfoBase.Nested.{map_at}
use laps.InfoBase.Nodes.{add_node, remove_node}
use laps.Peer.Session.{Session, send_node_info, send_announce_info, send_subscribe_info}
use laps.Peer.World.{
  Transport, World, values, on_session, session_of, on_base, try_base, get_peer_session,
  each_session,
}
pub mod Flood

unfoldable pub is_on_path : ℕ → List NodePathItem → Bool
is_on_path id [] = false
is_on_path id (npi ∷ path) = npi.id == id || is_on_path id path

-- The lambda `skip_node`.
unfoldable pub skip_node : NodeInfo → NodeInfo → Bool
skip_node a b = a.id == b.id || (b.id == 0 || (a.id == 0 || is_on_path b.id a.path))

abbrev pub seen_by : NodeInfo → ℕ → ℕ → NodeInfo
seen_by node_info id srtt_us = record node_info {
  path = node_info.path ++ (record { id = id; srtt_us = srtt_us } ∷ []);
}

abbrev pub dropped : {A : Type 0} → Outcome A → Outcome (A × Unit {0})
dropped o = o >>>= λ a. done (a, tt)

module _ {Namespace : Type 0} (q : Transport Namespace) where
  unfoldable pub offer_node_info : NodeInfo → Bool → ℕ × ℕ → Action (World Namespace) (Unit {0})
  offer_node_info node_info withdraw (_, object) = do
    s ← session_of object
    unless (skip_node node_info s.remote_node_info)
        (on_session object (send_node_info q.uint_var node_info withdraw))

  unfoldable pub propagate_node_info : NodeInfo → Bool → Action (World Namespace) (Unit {0})
  propagate_node_info node_info withdraw = each_session (offer_node_info node_info withdraw)

  -- The function of that name that takes one session.
  unfoldable pub propagate_node_info_to : ℕ → NodeInfo → Bool → Action (World Namespace) (Unit {0})
  propagate_node_info_to peer_session_id node_info withdraw w =
      elim (lookup peer_session_id w.server_peer_sessions) [
        | some object ↦ offer_to object w
        | none ↦ elim (lookup peer_session_id w.client_peer_sessions) [
          | some object ↦ offer_to object w
          | none ↦ (done tt, w)
        ]
      ]
    where
      offer_to : ℕ → Action (World Namespace) (Unit {0})
      offer_to object = do
        s ← session_of object
        unless (s.remote_node_info.id == node_info.id)
            (on_session object (send_node_info q.uint_var node_info withdraw))

  -- The item that is added to the path on an advertisement has the id of the node itself, and on a
  -- withdrawal the id of this relay.
  unfoldable pub accept_node : ℕ → NodeInfo → Action (World Namespace) (Unit {0})
  accept_node object node_info = do
    is_updated ← try_base (λ lock ib. add_node lock ib object node_info)
    s ← session_of object
    when is_updated (propagate_node_info (seen_by node_info node_info.id s.srtt_us) false)

  unfoldable pub withdraw_node : ℕ → ℕ → NodeInfo → Action (World Namespace) (Unit {0})
  withdraw_node object peer_session_id node_info = do
    try_base (λ lock ib. dropped (remove_node lock ib peer_session_id node_info.id))
    s ← session_of object
    propagate_node_info (seen_by node_info s.node_info.id s.srtt_us) true

  unfoldable pub node_received : ℕ → NodeInfo → Bool → Action (World Namespace) (Unit {0})
  node_received peer_session_id node_info withdraw =
      try_catch
        (do
          object ← get_peer_session peer_session_id
          if withdraw
              then withdraw_node object peer_session_id node_info
              else accept_node object node_info)
        (pure tt)

  -- One entry of the table of nodes.
  unfoldable pub sync_node : ℕ → (ℕ × ℕ) × NodeItem → Action (World Namespace) (Unit {0})
  sync_node object (key, item) = do
    s ← session_of object
    let remote = s.remote_node_info.id
    unless
        (key.0 == s.node_info.id
          || (key.1 == s.t_conn_id || (key.0 == remote || is_on_path remote item.node_info.path)))
        (on_session object
          (send_node_info q.uint_var (seen_by item.node_info s.node_info.id s.srtt_us) false))

  unfoldable pub sync_announce : ℕ → AnnounceInfo Namespace → Action (World Namespace) (Unit {0})
  sync_announce object announce_info = do
    s ← session_of object
    unless (s.remote_node_info.id == announce_info.source_node_id)
        (on_session object (send_announce_info q.namespaces announce_info false))

  -- The subscribe info is sent by reference, so that the sequence number in the table goes up.
  unfoldable pub sync_subscribe : ℕ → ℕ → ℕ × SubscribeInfo → Action (World Namespace) (Unit {0})
  sync_subscribe object full (node_id, si) = do
    s ← session_of object
    unless (s.remote_node_info.id == si.source_node_id) (do
      sent ← on_session object (send_subscribe_info si false)
      on_base (λ ib. (
        record ib {
          subscribes =
              insert full (insert node_id sent (map_at (lookup full ib.subscribes))) ib.subscribes;
        },
        tt,
      )))

  unfoldable pub info_base_sync_peer : ℕ → Action (World Namespace) (Unit {0})
  info_base_sync_peer object = do
    nodes ← gets (λ w. w.info_base.nodes)
    each (sync_node object) nodes
    announces ← gets (λ w. w.info_base.announces)
    each (λ row. each (sync_announce object) (values row)) (values announces)
    subscribes ← gets (λ w. w.info_base.subscribes)
    each (λ entry. each (sync_subscribe object entry.0) entry.1) subscribes
