-- ===== src/InfoBase/Tests.antt =====
-- The tables of nodes, subscribes and announces on small inputs.
use laps.Prelude.{
  ℕ, ◌≡◌, ◌≢◌, refl, sym, ap, Bool, [], ◌∷◌, none, some, ◌&&◌, ◌==◌, if◌then◌else◌, arith, inl, inr,
  ◌⊎◌, subst,
}
use laps.Prelude.Outcome.{done}
use laps.Prelude.SortedSet.{contains}
use laps.Prelude.SortedMap.{Map, lookup, nat_key, pair_key, IsSorted}
use laps.Messages.NodeInfo.{NodeType, NodeInfo, NodePathItem, sum_srtt, sum_srtt_loop}
use laps.InfoBase.State.{Sessions, NodeItem, InfoBase}
use laps.InfoBase.Select.{select_best_node}
use laps.InfoBase.Select.Total.{Known, IsLive, BestIsKnown}
use laps.InfoBase.Select.Choice.{AtLeast}
use laps.InfoBase.Select.Optimal.{EntriesAgree, select_best_node-AtLeast}
use laps.InfoBase.Nodes.{add_node, remove_node, purge_peer_session_info}
use laps.InfoBase.Nodes.Consistent.{IsConsistent, add_node-IsConsistent, remove_node-IsConsistent}
use laps.InfoBase.Nodes.Purge.{purge_peer_session_info-IsConsistent}

-- Every session object is alive, with its own number as its id.
abbrev all_alive : Sessions
all_alive session = some session

abbrev hop : ℕ → NodePathItem
hop srtt = record { id = 5; srtt_us = srtt }

abbrev near : NodeInfo
near = record {
  id = 7;
  type = NodeType.edge;
  contact = 97 ∷ [];
  longitude = 0;
  latitude = 0;
  path = hop 10 ∷ [];
}

abbrev far : NodeInfo
far = record near { path = hop 20 ∷ hop 30 ∷ [] }

abbrev near_item : NodeItem
near_item = record { peer_session = 1; node_info = near }

abbrev far_item : NodeItem
far_item = record { peer_session = 2; node_info = far }

abbrev two_nodes : Map (ℕ × ℕ) NodeItem
two_nodes = ((7, 1), near_item) ∷ ((7, 2), far_item) ∷ []

abbrev best_one : Map ℕ ℕ
best_one = (7, 1) ∷ []

-- Two sessions announce node 7.
abbrev two_sessions : InfoBase ℕ
two_sessions = record {
  nodes = two_nodes;
  nodes_best = best_one;
  subscribes = [];
  client_fib = [];
  peer_fib = [];
  announces = [];
  prefix_lookup_announces = [];
  nodes_by_peer_session = (1, 7 ∷ []) ∷ (2, 7 ∷ []) ∷ [];
}

two_nodes-cases :
    (n s : ℕ) (item : NodeItem)
    → lookup (n, s) two_nodes ≡ some item
    → ((n ≡ 7) × (s ≡ 1) × (item ≡ near_item)) ⊎ ((n ≡ 7) × (s ≡ 2) × (item ≡ far_item))
unfolding lookup
two_nodes-cases n s item e = ground arith

two_nodes-IsLive : IsLive all_alive two_nodes
two_nodes-IsLive (n, s) item e = elim (two_nodes-cases n s item e) [
  | inl (a, b, c) ↦ rw (c, b) refl
  | inr (a, b, c) ↦ rw (c, b) refl
]

best-cases : (n s : ℕ) → lookup n best_one ≡ some s → (7 ≡ n) × (1 ≡ s)
unfolding lookup
best-cases n s e = ground arith

best-known : BestIsKnown all_alive two_nodes best_one
unfolding lookup
best-known n s e =
    let (a, b) = best-cases n s e in
    subst (λ x. (i : NodeInfo) × Known all_alive two_nodes x s i) a
      (near, (1, near_item, ap some (sym b), refl, refl))

two_nodes-IsSorted : IsSorted two_nodes
two_nodes-IsSorted = ground arith

best-IsSorted : IsSorted best_one
best-IsSorted = ground arith

best-reachable :
    (n id : ℕ) (item : NodeItem) → lookup (n, id) two_nodes ≡ some item → lookup n best_one ≢ none
unfolding lookup
best-reachable n id item e f = elim (two_nodes-cases n id item e) [
  | inl (a, b, c) ↦ ground arith
  | inr (a, b, c) ↦ ground arith
]

two_sessions-IsConsistent : IsConsistent all_alive two_sessions
unfolding lookup contains
two_sessions-IsConsistent = record {
  routed = record {
    sorted_nodes = two_nodes-IsSorted;
    sorted_best = best-IsSorted;
    live = two_nodes-IsLive;
    known = best-known;
    reachable = best-reachable;
  };
  indexed = λ id n. ground arith;
}

-- Session 3 announces the node with a longer path.
abbrev farther : NodeInfo
farther = record near { path = hop 1 ∷ hop 1 ∷ hop 1 ∷ [] }

add_node-IsConsistent_example :
    (ib' : InfoBase ℕ) × (updated : Bool) × (add_node all_alive two_sessions 3 farther
      ≡ done (ib', updated))
    × IsConsistent all_alive ib'
add_node-IsConsistent_example =
    add_node-IsConsistent all_alive two_sessions 3 3 farther two_sessions-IsConsistent refl

remove_node-IsConsistent_example :
    (ib' : InfoBase ℕ) × (remove_node all_alive two_sessions 1 7 ≡ done ib')
    × IsConsistent all_alive ib'
    × ((n s : ℕ)
        → lookup (n, s) ib'.nodes ≡ (if 7 == n && 1 == s then none else lookup (n, s) two_nodes))
remove_node-IsConsistent_example =
    remove_node-IsConsistent all_alive two_sessions 1 7 two_sessions-IsConsistent

purge_peer_session_info-IsConsistent_example :
    (ib' : InfoBase ℕ) × (purge_peer_session_info all_alive two_sessions 1 ≡ done ib')
    × IsConsistent all_alive ib'
    × ((n s : ℕ) → lookup (n, s) ib'.nodes ≡ (if 1 == s then none else lookup (n, s) two_nodes))
    × ((n session : ℕ) → lookup n ib'.nodes_best ≡ some session → all_alive session ≢ some 1)
purge_peer_session_info-IsConsistent_example =
    purge_peer_session_info-IsConsistent all_alive two_sessions 1 two_sessions-IsConsistent

two_nodes-agree : EntriesAgree all_alive two_nodes 7 best_one
unfolding sum_srtt sum_srtt_loop
two_nodes-agree a b x y e f = elim (two_nodes-cases 7 a x e) [
  | inl (_, _, x_near) ↦ elim (two_nodes-cases 7 b y f) [
    | inl (_, _, y_near) ↦ rw (x_near, y_near) (inl (omega arith))
    | inr (_, _, y_far) ↦ rw (x_near, y_far) (inl (omega arith))
  ]
  | inr (_, _, x_far) ↦ elim (two_nodes-cases 7 b y f) [
    | inl (_, _, y_near) ↦ rw (x_far, y_near) (inr (omega arith))
    | inr (_, _, y_far) ↦ rw (x_far, y_far) (inl (omega arith))
  ]
]

-- The choice goes from the session with the longer path to the one with the shorter path.
select_best_node-AtLeast_example :
    (best' : Map ℕ ℕ) × (updated : Bool) × (session : ℕ) × (info : NodeInfo) × (select_best_node
        all_alive two_nodes 7 best_one
      ≡ done (best', updated))
    × (lookup 7 best' ≡ some session)
    × Known all_alive two_nodes 7 session info
    × AtLeast info far
unfolding lookup
select_best_node-AtLeast_example =
    select_best_node-AtLeast all_alive two_nodes 7 best_one two_nodes-agree 2 far_item
      two_nodes-IsSorted best-IsSorted two_nodes-IsLive best-known refl
