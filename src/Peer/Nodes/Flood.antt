-- ===== src/Peer/Nodes/Flood.antt =====
-- Which peers a node info goes to when `PropagateNodeInfo` of src/peering/peer_manager.cc sends it
-- on.
use laps.Prelude.{
  ℕ, ◌≡◌, refl, Bool, true, not, List, [], ◌∷◌, ◌++◌, Option, none, some, ◌&&◌, ◌||◌, ◌==◌, arith,
  if◌then◌else◌, inl, inr, Bool-cases,
}
use laps.Prelude.Outcome.{done}
use laps.Prelude.Action.{each}
use laps.Prelude.SortedSet.{contains}
use laps.Prelude.SortedMap.{Map, IsSorted, lookup, nat_key}
use laps.Prelude.SortedMap.Order.{insert-same}
use laps.Messages.NodeInfo
use laps.Messages.NodeInfo.{NodeInfo, NodePathItem}
use laps.Peer.Event.{Event, enqueue}
use laps.Peer.Session.{Session, is_connected, send_node_info}
use laps.Peer.NodeSets.Told.{send_control-told}
use laps.Peer.World.{Transport, World, each_session}
use laps.Peer.World.Alive.{session_of_alive, on_session_alive}
use laps.Peer.Nodes.{is_on_path, skip_node, offer_node_info, propagate_node_info}

-- Every session of the table is alive.
abbrev pub IsAlive : Map ℕ Session → List (ℕ × ℕ) → Type 0
IsAlive objects [] = Unit {0}
IsAlive objects ((_, object) ∷ m) =
    ((s : Session) × (lookup object objects ≡ some s)) × IsAlive objects m

abbrev pub path_ids : List NodePathItem → List ℕ
path_ids [] = []
path_ids (npi ∷ path) = npi.id ∷ path_ids path

-- The node itself, the nodes on its path, and 0, which no node has.
abbrev pub passed : NodeInfo → List ℕ
passed n = 0 ∷ n.id ∷ path_ids n.path

-- The sessions that a node info is for: connected, with a remote that it has not passed.
abbrev pub is_offered : NodeInfo → Session → Bool
is_offered n s =
    is_connected s.status && not (n.id == 0 || contains s.remote_node_info.id (passed n))

is_on_path-contains :
    (id : ℕ) (path : List NodePathItem) → is_on_path id path ≡ contains id (path_ids path)
unfolding is_on_path contains
is_on_path-contains id [] = refl
is_on_path-contains id (npi ∷ path) = rw (is_on_path-contains id path) refl

skip_node-passed :
    (n remote : NodeInfo) → skip_node n remote ≡ (n.id == 0 || contains remote.id (passed n))
unfolding skip_node contains
skip_node-passed n remote = rw (is_on_path-contains remote.id n.path) (ground arith)

module _ {Namespace : Type 0} (q : Transport Namespace) (n : NodeInfo) (withdraw : Bool) where
  abbrev pub offers_to : Option Session → List (Event Namespace)
  offers_to none = []
  offers_to (some s) =
      if is_offered n s
      then enqueue s.t_conn_id s.control_data_ctx_id s.control_stream_id
          (NodeInfo.serialize q.uint_var true withdraw n) 0 1000 none
        ∷ []
      else []

  -- One message to each of these sessions, the newest first.
  abbrev pub offers : Map ℕ Session → List (ℕ × ℕ) → List (Event Namespace) → List (Event Namespace)
  offers objects [] log = log
  offers objects ((_, object) ∷ m) log = offers objects m (offers_to (lookup object objects) ++ log)

  offer_node_info-offers :
      (id object : ℕ) (s : Session) (w : World Namespace)
      → IsSorted w.objects
      → lookup object w.objects ≡ some s
      → offer_node_info q n withdraw (id, object) w
        ≡ (done tt, record w { log = offers_to (some s) ++ w.log })
  unfolding offer_node_info send_node_info
  offer_node_info-offers id object s w sorted here =
      let has_passed = n.id == 0 || contains s.remote_node_info.id (passed n) in
      rw (session_of_alive object s w here, skip_node-passed)
        (elim (Bool-cases has_passed) [
          | inl skip ↦ rw skip (elim (Bool-cases (is_connected s.status)) [
            | inl up ↦ rw up refl
            | inr down ↦ rw down refl
          ])
          | inr keep ↦
              rw
                (
                  keep,
                  on_session_alive object s w,
                  send_control-told,
                  insert-same object s w.objects sorted here,
                )
                (elim (Bool-cases (is_connected s.status)) [
                  | inl up ↦ rw up refl
                  | inr down ↦ rw down refl
                ])
        ])

  each-offers :
      (m : List (ℕ × ℕ)) (w : World Namespace)
      → IsSorted w.objects
      → IsAlive w.objects m
      → each (offer_node_info q n withdraw) m w
        ≡ (done tt, record w { log = offers w.objects m w.log })
  unfolding each
  each-offers [] w sorted alive = refl
  each-offers ((id, object) ∷ m) w sorted ((s, here), alive) =
      rw (offer_node_info-offers id object s w sorted here, here)
        (each-offers m (record w { log = offers_to (some s) ++ w.log }) sorted alive)

  -- PropagateNodeInfo: where the sessions of both tables are alive, it returns and changes no
  -- state. It enqueues one message for each session that is connected and whose remote is known
  -- and is neither the node itself nor on its path. It makes no other call. A node 0 is not sent.
  pub propagate_node_info-offers :
      (w : World Namespace)
      → IsSorted w.objects
      → IsAlive w.objects w.client_peer_sessions
      → IsAlive w.objects w.server_peer_sessions
      → propagate_node_info q n withdraw w ≡ (
        done tt,
        record w {
          log =
              offers w.objects w.server_peer_sessions
                (offers w.objects w.client_peer_sessions w.log);
        },
      )
  unfolding propagate_node_info each_session
  propagate_node_info-offers w sorted client server =
      rw (each-offers w.client_peer_sessions w sorted client) (
        each-offers w.server_peer_sessions
          (record w { log = offers w.objects w.client_peer_sessions w.log }) sorted server)
