-- ===== src/Peer/Lifecycle.antt =====
-- The life of a session: `SessionChanged`, `OnConnectionStatus`, `OnNewConnection`,
-- `CreatePeerSession` and a round of `CheckThread` of src/peering/peer_manager.cc, and
-- `OnConnectionStatus` of src/peering/peer_session.cc.
use laps.Prelude.{ℕ, Bool, true, false, List, [], ◌∷◌, Option, none, some, ◌||◌, if◌then◌else◌}
use laps.Prelude.Outcome.{done, fault}
use laps.Prelude.Action.{Action, pure, ◌>>=◌, ◌>>◌, gets, modify, outcome, unless, each}
use laps.Prelude.SortedMap.{Map, lookup, insert, erase, nat_key, pair_key}
use laps.Messages.NodeInfo.{NodeInfo}
use laps.Messages.SubscribeInfo.{SubscribeInfo}
use laps.InfoBase.State.{FibEntry}
use laps.InfoBase.Nodes.{purge_peer_session_info}
use laps.Peer.Event.{TransportStatus}
use laps.Peer.Session.{
  Session, StatusValue, connecting, connected, disconnected, is_connected, new_session, update,
  send_connect, open_connection,
}
use laps.Peer.World.{Transport, World, on_session, session_of, try_base}
use laps.Peer.Nodes.{dropped, propagate_node_info}
use laps.Peer.Subscribes.{subscribe_info_received}
pub mod Entries
pub mod Renewal
pub mod Walk
pub mod Check

-- Whether a subscribe of the row has the session for an egress.
unfoldable pub has_egress : ℕ → Map (ℕ × ℕ) FibEntry → Map ℕ SubscribeInfo → Bool
has_egress id fib [] = false
has_egress id fib ((_, si) ∷ m) =
    (elim (lookup (si.track_hash.track_fullname_hash, id) fib) [ none ↦ false | some _ ↦ true ])
    || has_egress id fib m

-- What the loop over the subscribes collects: those of the node that left. Where a subscribe of
-- another node has the session for an egress, the loop locks the mutex of the info base while it
-- holds it, which is undefined.
unfoldable pub collect :
    ℕ → ℕ → Map (ℕ × ℕ) FibEntry → Map ℕ (Map ℕ SubscribeInfo) → Option (List SubscribeInfo)
collect id node_id fib [] = some []
collect id node_id fib ((_, row) ∷ m) =
    let rest = collect id node_id fib m in
    elim (lookup node_id row) [
      | some si ↦ elim rest [ none ↦ none | some sis ↦ some (si ∷ sis) ]
      | none ↦ if has_egress id fib row then none else rest
    ]

module _ {Namespace : Type 0} where
  unfoldable pub is_any_connected : List (ℕ × ℕ) → Action (World Namespace) Bool
  is_any_connected [] = pure false
  is_any_connected ((_, object) ∷ m) = do
    s ← session_of object
    if is_connected s.status then pure true else is_any_connected m

  -- `announces_.clear()` where no session is connected.
  unfoldable pub clear_announces : Action (World Namespace) (Unit {0})
  clear_announces = do
    client ← gets (λ w. w.client_peer_sessions)
    server ← gets (λ w. w.server_peer_sessions)
    in_client ← is_any_connected client
    in_server ← if in_client then pure true else is_any_connected server
    unless in_server (modify (λ w. record w { info_base = record w.info_base { announces = [] } }))

module _ {Namespace : Type 0} (q : Transport Namespace) where
  unfoldable pub leave_subscribes :
      ℕ → Option (List SubscribeInfo) → Action (World Namespace) (Unit {0})
  leave_subscribes id none = outcome fault
  leave_subscribes id (some left) = each (λ si. subscribe_info_received q 0 id si true) left

  unfoldable pub session_left : ℕ → NodeInfo → Action (World Namespace) (Unit {0})
  session_left id remote = do
    propagate_node_info q remote true
    is_stopped ← gets (λ w. w.stop)
    unless is_stopped (try_base (λ lock ib. dropped (purge_peer_session_info lock ib id)))
    found ← gets (λ w. collect id remote.id w.info_base.client_fib w.info_base.subscribes)
    leave_subscribes id found
    clear_announces

  unfoldable pub session_changed : ℕ → StatusValue → NodeInfo → Action (World Namespace) (Unit {0})
  session_changed id connected remote = pure tt
  session_changed id connecting remote = pure tt
  session_changed id disconnected remote = session_left id remote

  -- `PeerSession::OnConnectionStatus`: the side that connects.
  unfoldable pub client_connection_status :
      ℕ → TransportStatus → Action (World Namespace) (Unit {0})
  client_connection_status object status = do
    elim status [
      | TransportStatus.ready ↦ on_session object (send_connect q.uint_var)
      | TransportStatus.connecting ↦ pure tt
      | _ ↦ on_session object (update (λ s. record s { status = disconnected }))
    ]
    s ← session_of object
    session_changed s.t_conn_id s.status s.remote_node_info

  abbrev pub server_status : TransportStatus → StatusValue
  server_status TransportStatus.ready = connected
  server_status TransportStatus.connecting = connected
  server_status _ = disconnected

  -- The pointer in the table is the last one to the object.
  unfoldable pub erase_server_session : ℕ → ℕ → Action (World Namespace) (Unit {0})
  erase_server_session conn_id object = modify (λ w. record w {
    server_peer_sessions = erase conn_id w.server_peer_sessions;
    objects = erase object w.objects;
  })

  -- `PeerManager::OnConnectionStatus`: the side that is connected to. The session is erased on
  -- every status.
  unfoldable pub server_connection_status :
      ℕ → TransportStatus → Action (World Namespace) (Unit {0})
  server_connection_status conn_id status w = elim (lookup conn_id w.server_peer_sessions) [
    | none ↦ (done tt, w)
    | some object ↦
        (do
          s ← session_of object
          session_changed s.t_conn_id (server_status status) s.remote_node_info
          erase_server_session conn_id object)
          w
  ]

  -- The number of the new session object is an argument.
  unfoldable pub make_session : ℕ → Session → Action (World Namespace) (Unit {0})
  make_session object s = do
    modify (λ w. record w { objects = insert object s w.objects })
    on_session object (open_connection q.answers)

  unfoldable pub on_new_connection : ℕ → ℕ → Action (World Namespace) (Unit {0})
  on_new_connection object conn_id w = elim (lookup conn_id w.server_peer_sessions) [
    | some _ ↦ (done tt, w)
    | none ↦
        (do
          modify (λ w. record w {
            server_peer_sessions = insert conn_id object w.server_peer_sessions;
          })
          make_session object (new_session true conn_id w.node_info))
          w
  ]

  -- `client_peer_sessions_.try_emplace`, and whether the pointer was moved into the table.
  unfoldable pub keep_client : ℕ → Action (World Namespace) Bool
  keep_client object = do
    s ← session_of object
    taken ← gets (λ w. lookup s.t_conn_id w.client_peer_sessions)
    elim taken [
      | some _ ↦ pure false
      | none ↦ do
        modify (λ w. record w {
          client_peer_sessions = insert s.t_conn_id object w.client_peer_sessions;
        })
        pure true
    ]

  -- The last pointer to a session goes, unless it was moved.
  unfoldable pub free_session : Option ℕ → Action (World Namespace) (Unit {0})
  free_session none = pure tt
  free_session (some object) = modify (λ w. record w { objects = erase object w.objects })

  unfoldable pub create_peer_session : ℕ → Action (World Namespace) (Unit {0})
  create_peer_session object = do
    node_info ← gets (λ w. w.node_info)
    make_session object (new_session false 0 node_info)
    kept ← keep_client object
    free_session (if kept then none else some object)

  -- The sessions that lost their connection connect again. The result is their old numbers, each
  -- with the pointer that is left in its entry: none where it was moved to the new number.
  unfoldable pub reconnect : List (ℕ × ℕ) → Action (World Namespace) (List (ℕ × Option ℕ))
  reconnect [] = pure []
  reconnect ((id, object) ∷ m) = do
    s ← session_of object
    elim s.status [
      | disconnected ↦ (do
        on_session object (open_connection q.answers)
        kept ← keep_client object
        old ← reconnect m
        pure ((id, if kept then none else some object) ∷ old))
      | _ ↦ reconnect m
    ]

  -- `client_peer_sessions_.erase`: a session that the entry still points to is destroyed.
  unfoldable pub erase_client : ℕ × Option ℕ → Action (World Namespace) (Unit {0})
  erase_client (id, left) = do
    modify (λ w. record w { client_peer_sessions = erase id w.client_peer_sessions })
    free_session left

  -- One round of the loop of `CheckThread`, after its interval.
  unfoldable pub check_round : Action (World Namespace) (Unit {0})
  check_round = do
    client ← gets (λ w. w.client_peer_sessions)
    old ← reconnect client
    each erase_client old

  -- The constructor, once the transport of the server is started: one session for each peer of the
  -- configuration. Their numbers are an argument.
  unfoldable pub start_manager : List ℕ → Action (World Namespace) (Unit {0})
  start_manager objects = each create_peer_session objects

-- The state that the constructor begins with.
unfoldable pub new_manager : {Namespace : Type 0} → NodeInfo → World Namespace
new_manager node_info = record {
  info_base = record {
    nodes = [];
    nodes_best = [];
    subscribes = [];
    client_fib = [];
    peer_fib = [];
    announces = [];
    prefix_lookup_announces = [];
    nodes_by_peer_session = [];
  };
  objects = [];
  server_peer_sessions = [];
  client_peer_sessions = [];
  node_info = node_info;
  stop = false;
  has_client_manager = false;
  pub_subscribes = [];
  pub_namespace_active = [];
  log = [];
}

unfoldable pub set_client_manager : {Namespace : Type 0} → Action (World Namespace) (Unit {0})
set_client_manager = modify (λ w. record w { has_client_manager = true })

-- The destructor. The sessions are gone with the tables.
unfoldable pub stop_manager : {Namespace : Type 0} → Action (World Namespace) (Unit {0})
stop_manager = modify (λ w. record w {
  stop = true;
  client_peer_sessions = [];
  server_peer_sessions = [];
  objects = [];
})
