-- ===== src/InfoBase/Nodes.antt =====
-- `AddNode`, `RemoveNode`, `PurgePeerSessionInfo` and `GetBestPeerSession` of
-- src/peering/info_base.cc.
use laps.Prelude.{ℕ, Bool, true, false, List, [], ◌∷◌, Option, none, some, ◌==◌, if◌then◌else◌}
use laps.Prelude.Outcome.{Outcome, done, thrown, fault, stuck, deref, ◌>>=◌, ◌>>◌}
use laps.Prelude.SortedSet
use laps.Prelude.SortedMap.{Map, lookup, insert, erase, lower_bound, nat_key, pair_key}
use laps.Messages.NodeInfo.{NodeInfo}
use laps.InfoBase.State.{Sessions, NodeItem, FibEntry, InfoBase}
use laps.InfoBase.Select.{select_best_node}
pub mod Routed
pub mod Consistent
pub mod Purge

-- The set under a key, and the empty one that `operator[]` makes for a missing key.
abbrev pub set_at : Option (List ℕ) → List ℕ
set_at none = []
set_at (some s) = s

-- `if (ids_it->second.empty()) nodes_by_peer_session_.erase(ids_it)`.
unfoldable pub put_back : ℕ → List ℕ → Map ℕ (List ℕ) → Map ℕ (List ℕ)
put_back id [] m = erase id m
put_back id (n ∷ ns) m = insert id (n ∷ ns) m

-- The node taken out of the set of a session, and the set with it when it is empty.
unfoldable pub drop_node_id : ℕ → ℕ → Map ℕ (List ℕ) → Map ℕ (List ℕ)
drop_node_id id node_id m = elim (lookup id m) [
  | none ↦ m
  | some ids ↦ put_back id (SortedSet.erase node_id ids) m
]

-- The keys of the loop over `peer_fib_` from `{ id, 0 }` on.
unfoldable pub fib_keys : ℕ → Map (ℕ × ℕ) (Map ℕ FibEntry) → List (ℕ × ℕ)
fib_keys id [] = []
fib_keys id ((key, entry) ∷ m) = if key.0 == id then key ∷ fib_keys id m else []

unfoldable pub erase_keys :
    List (ℕ × ℕ) → Map (ℕ × ℕ) (Map ℕ FibEntry) → Map (ℕ × ℕ) (Map ℕ FibEntry)
erase_keys [] m = m
erase_keys (key ∷ keys) m = erase_keys keys (erase key m)

unfoldable pub purge_fib : {Namespace : Type 0} → InfoBase Namespace → ℕ → InfoBase Namespace
purge_fib ib id = record ib {
  peer_fib = erase_keys (fib_keys id (lower_bound (id, 0) ib.peer_fib)) ib.peer_fib;
}

-- The weak pointer that it returns: empty where no session is known.
unfoldable pub get_best_peer_session : {Namespace : Type 0} → InfoBase Namespace → ℕ → Option ℕ
get_best_peer_session ib node_id = lookup node_id ib.nodes_best

module _ {Namespace : Type 0} (lock : Sessions) where
  -- `SelectBestNode` on the object.
  unfoldable pub select : InfoBase Namespace → ℕ → Outcome (InfoBase Namespace × Bool)
  select ib node_id = do
    (nodes_best, is_updated) ← select_best_node lock ib.nodes node_id ib.nodes_best
    done (record ib { nodes_best = nodes_best }, is_updated)

  unfoldable pub add_node : InfoBase Namespace → ℕ → NodeInfo → Outcome (InfoBase Namespace × Bool)
  add_node ib peer_session node_info = do
    id ← deref (lock peer_session)
    let ids = SortedSet.emplace node_info.id (set_at (lookup id ib.nodes_by_peer_session))
    select
        (record ib {
          nodes =
              insert (node_info.id, id)
                (record { peer_session = peer_session; node_info = node_info }) ib.nodes;
          nodes_by_peer_session = insert id ids ib.nodes_by_peer_session;
        })
        node_info.id

  -- `if (nodes_best_.erase(node_id) > 0) SelectBestNode(node_id)`.
  unfoldable pub reselect : InfoBase Namespace → ℕ → Outcome (InfoBase Namespace)
  reselect ib node_id = elim (lookup node_id ib.nodes_best) [
    | none ↦ done ib
    | some _ ↦ do
      (ib', _) ← select (record ib { nodes_best = erase node_id ib.nodes_best }) node_id
      done ib'
  ]

  unfoldable pub remove_node : InfoBase Namespace → ℕ → ℕ → Outcome (InfoBase Namespace)
  remove_node ib id node_id =
      reselect
        (record ib {
          nodes = erase (node_id, id) ib.nodes;
          nodes_by_peer_session = drop_node_id id node_id ib.nodes_by_peer_session;
        })
        node_id

  -- The loop over the nodes of the session.
  unfoldable pub purge_nodes : InfoBase Namespace → ℕ → List ℕ → Outcome (InfoBase Namespace)
  purge_nodes ib id [] = done ib
  purge_nodes ib id (node_id ∷ ids) = do
    ib' ← reselect (record ib { nodes = erase (node_id, id) ib.nodes }) node_id
    purge_nodes ib' id ids

  unfoldable pub purge_peer_session_info : InfoBase Namespace → ℕ → Outcome (InfoBase Namespace)
  purge_peer_session_info ib id = elim (lookup id ib.nodes_by_peer_session) [
    | none ↦ done (purge_fib ib id)
    | some ids ↦ do
      ib' ← purge_nodes ib id ids
      done
          (purge_fib (record ib' { nodes_by_peer_session = erase id ib'.nodes_by_peer_session }) id)
  ]
