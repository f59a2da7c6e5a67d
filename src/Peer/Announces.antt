-- ===== src/Peer/Announces.antt =====
-- The announces of src/peering/peer_manager.cc: `AnnounceInfoReceived`, `ClientAnnounce` and
-- `GetOriginNodeId`.
use laps.Prelude.{
  ℕ, ◌%◌, Bool, true, false, List, [], ◌∷◌, Option, none, some, not, ◌==◌, ◌&&◌, if◌then◌else◌,
}
use laps.Prelude.Outcome.{Outcome, done}
use laps.Prelude.Action.{
  Action, pure, after, ◌>>=◌, ◌>>◌, gets, outcome, when, unless, each, try_catch,
}
use laps.Prelude.SortedMap.{Map, lookup, nat_key}
use laps.Messages.SubscribeInfo.{SubscribeInfo, TrackHash}
use laps.Messages.AnnounceInfo.{AnnounceInfo}
use laps.InfoBase.State.{InfoBase}
use laps.InfoBase.Announces.{add_announce, remove_announce, get_announce_ids}
use laps.Peer.Event.{
  Event, process_subscribe_again, publish_namespace_received, publish_namespace_done_received,
  publish_received, publish_done_received,
}
use laps.Peer.Session.{send_announce_info}
use laps.Peer.World.{
  Transport, ParsedSubscribe, World, on_session, on_base, session_of, call_client, get_peer_session,
  each_session,
}
use laps.Peer.Subscribes.{add_source}
pub mod Once

module _ {Namespace : Type 0} (q : Transport Namespace) where
  unfoldable pub offer_announce :
      Option ℕ → AnnounceInfo Namespace → Bool → ℕ × ℕ → Action (World Namespace) (Unit {0})
  offer_announce but a withdraw (id, object) =
      unless (elim but [ none ↦ false | some skipped ↦ skipped == id ])
        (on_session object (send_announce_info q.namespaces a withdraw))

  -- The four calls of the client manager.
  unfoldable pub announce_event : AnnounceInfo Namespace → Bool → Event Namespace
  announce_event a withdraw =
      let th = q.track_hash a.name_space a.name in
      if a.flags % 2 == 1
      then (if withdraw
          then publish_namespace_done_received th.track_namespace_hash
          else publish_namespace_received a.name_space th.track_namespace_hash)
      else (if withdraw
          then publish_done_received
          else publish_received a.name_space a.name a.fullname_hash)

  -- An announce that is known, or a withdrawal of one that is not, goes no further.
  unfoldable pub process_announce_info :
      ℕ → AnnounceInfo Namespace → Bool → Action (World Namespace) (Unit {0})
  process_announce_info peer_session_id a withdraw = do
    object ← get_peer_session peer_session_id
    is_changed ←
        on_base
          (λ ib. if withdraw then remove_announce q.hashes ib a else add_announce q.hashes ib a)
    when is_changed (do
      each_session (offer_announce (some peer_session_id) a withdraw)
      call_client (announce_event a withdraw))

  unfoldable pub announce_info_received :
      ℕ → AnnounceInfo Namespace → Bool → Action (World Namespace) (Unit {0})
  announce_info_received peer_session_id a withdraw =
      try_catch (process_announce_info peer_session_id a withdraw) (pure tt)

  -- A subscribe of another relay that the new announce matches.
  unfoldable pub join_announce :
      ℕ → SubscribeInfo → ParsedSubscribe Namespace → Action (World Namespace) (Unit {0})
  join_announce update_ref si p = do
    has_manager ← gets (λ w. w.has_client_manager)
    when has_manager (
        call_client
          (process_subscribe_again si.track_hash p.track_namespace p.track_name p.has_request))
    best ← gets (λ w. lookup si.source_node_id w.info_base.nodes_best)
    elim best [
      | none ↦ pure tt
      | some object ↦ (do
        priority ← outcome p.priority
        s ← session_of object
        add_source q update_ref object si priority s.t_conn_id)
    ]

  unfoldable pub match_subscribe :
      ℕ → Namespace → ℕ × SubscribeInfo → Action (World Namespace) (Unit {0})
  match_subscribe update_ref name_space (node_id, si) w =
      unless (node_id == w.node_info.id)
        (try_catch
          (do
            p ← outcome (q.parse_subscribe si.subscribe_data)
            when
                (q.has_same_prefix name_space p.track_namespace
                  && not (si.source_node_id == w.node_info.id))
                (join_announce update_ref si p))
          (pure tt))
        w

  -- `update_ref` is what `rand()` returns.
  unfoldable pub client_announce :
      ℕ → Namespace → List ℕ → Bool → Bool → Action (World Namespace) (Unit {0})
  client_announce update_ref name_space name withdraw publish_namespace = do
    node_id ← gets (λ w. w.node_info.id)
    let a : AnnounceInfo Namespace = record {
      source_node_id = node_id;
      name_space = name_space;
      name = name;
      fullname_hash = (q.track_hash name_space name).track_fullname_hash;
      flags = if publish_namespace then 1 else 0;
    }
    is_changed ←
        on_base
          (λ ib. if withdraw then remove_announce q.hashes ib a else add_announce q.hashes ib a)
    each_session (offer_announce none a withdraw)
    subscribes ← gets (λ w. w.info_base.subscribes)
    unless withdraw (each (λ row. each (match_subscribe update_ref name_space) row.1) subscribes)

  unfoldable pub client_unannounce : ℕ → Namespace → List ℕ → Action (World Namespace) (Unit {0})
  client_unannounce update_ref name_space name =
      client_announce update_ref name_space name true false

  unfoldable pub get_origin_node_id : World Namespace → Namespace → List ℕ → Outcome (List ℕ)
  get_origin_node_id w name_space name = get_announce_ids q.hashes w.info_base name_space name false
