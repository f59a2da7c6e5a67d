-- ===== src/InfoBase/Select.antt =====
-- `InfoBase::SelectBestNode`, src/peering/info_base.cc.
use laps.Prelude.{
  ℕ, Bool, true, false, ◌||◌, List, [], ◌∷◌, length, Option, none, some, ltb, ◌==◌, if◌then◌else◌,
}
use laps.Prelude.Outcome.{Outcome, done, thrown, fault, stuck, deref, at, ◌>>=◌, ◌>>◌}
use laps.Prelude.SortedMap.{Map, lookup, insert, lower_bound, nat_key, pair_key}
use laps.Messages.NodeInfo.{NodeInfo, sum_srtt}
use laps.InfoBase.State.{Sessions, NodeItem, InfoBase}
pub mod Total
pub mod Refine
pub mod Choice
pub mod Optimal

-- The test of the loop: a shorter path, or a smaller sum of round trip times.
unfoldable pub is_better : NodeInfo → NodeInfo → Bool
is_better best node =
    ltb (length node.path) (length best.path) || ltb (sum_srtt node) (sum_srtt best)

-- A session and the node info that came by it.
abbrev pub Best : Type 0
Best = Option (ℕ × NodeInfo)

module _ (lock : Sessions) (nodes : Map (ℕ × ℕ) NodeItem) (node_id : ℕ) where
  -- `nodes_.at({ node_id, session.lock()->GetSessionId() }).node_info`.
  unfoldable pub node_info_via : ℕ → Outcome NodeInfo
  node_info_via session = do
    id ← deref (lock session)
    item ← at (lookup (node_id, id) nodes)
    done item.node_info

  unfoldable pub take_item : NodeItem → Outcome (Best × Bool)
  take_item item = do
    info ← node_info_via item.peer_session
    done (some (item.peer_session, info), true)

  -- The body of the loop for one entry of the node.
  unfoldable pub select_round : NodeItem → Best → Bool → Outcome (Best × Bool)
  select_round item none is_updated = take_item item
  select_round item (some (session, info)) is_updated =
      if is_better info item.node_info
      then take_item item
      else done (some (session, info), is_updated)

  -- The loop from the first entry of the node, until the entry of another node.
  unfoldable pub select_loop : Map (ℕ × ℕ) NodeItem → Best → Bool → Outcome (Best × Bool)
  select_loop [] best is_updated = done (best, is_updated)
  select_loop ((key, item) ∷ rest) best is_updated =
      let loop = (do
        (best', is_updated') ← select_round item best is_updated
        select_loop rest best' is_updated') in
      if key.0 == node_id then loop else done (best, is_updated)

  -- What the loop begins with.
  unfoldable pub current_best : Map ℕ ℕ → Outcome Best
  current_best nodes_best = elim (lookup node_id nodes_best) [
    | none ↦ done none
    | some session ↦ do info ← node_info_via session; done (some (session, info))
  ]

-- The debug dump of all best nodes follows the same pointers. (The walk is over a hash table: its
-- order decides at most which of two failing entries comes first.)
unfoldable pub dump : Sessions → Map (ℕ × ℕ) NodeItem → Map ℕ ℕ → Outcome (Unit {0})
dump lock nodes [] = done tt
dump lock nodes ((node_id, session) ∷ rest) = do
  _ ← node_info_via lock nodes node_id session
  dump lock nodes rest

unfoldable pub store_best :
    Sessions → Map (ℕ × ℕ) NodeItem → ℕ → Map ℕ ℕ → Best × Bool → Outcome (Map ℕ ℕ × Bool)
store_best lock nodes node_id nodes_best (some (session, info), true) = do
  _ ← dump lock nodes (insert node_id session nodes_best)
  done (insert node_id session nodes_best, true)
store_best lock nodes node_id nodes_best (_, is_updated) = done (nodes_best, is_updated)

-- It reads `nodes_` and changes `nodes_best_`: the table after it, and the result.
unfoldable pub select_best_node :
    Sessions → Map (ℕ × ℕ) NodeItem → ℕ → Map ℕ ℕ → Outcome (Map ℕ ℕ × Bool)
select_best_node lock nodes node_id nodes_best = do
  best ← current_best lock nodes node_id nodes_best
  result ← select_loop lock nodes node_id (lower_bound (node_id, 0) nodes) best false
  store_best lock nodes node_id nodes_best result
