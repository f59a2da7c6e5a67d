-- ===== src/InfoBase/Nodes/Consistent.antt =====
-- `AddNode`, `RemoveNode` and `PurgePeerSessionInfo` return, and keep the tables of nodes, of best
-- sessions and of the nodes by session together.
use laps.Prelude.{
  ℕ, ◌≡◌, refl, Bool, false, List, [], ◌∷◌, none, some, ◌&&◌, ◌==◌, if◌then◌else◌, arith, inl, inr,
  Bool-cases, Option-cases, ==_iff, is_some,
}
use laps.Prelude.Outcome.{done}
use laps.Prelude.SortedSet
use laps.Prelude.SortedSet.{contains, contains-emplace, contains-erase}
use laps.Prelude.SortedMap.{
  Map, lookup, insert, erase, nat_key, pair_key, lookup-insert, lookup-erase, lookup_of_insert,
}
use laps.Prelude.SortedMap.Order.{insert-IsSorted}
use laps.Messages.NodeInfo.{NodeInfo}
use laps.InfoBase.State.{Sessions, NodeItem, InfoBase}
use laps.InfoBase.Select.Total.{Known, IsLive}
use laps.InfoBase.Nodes.{set_at, add_node, put_back, drop_node_id, remove_node}
use laps.InfoBase.Nodes.Routed.{IsRouted, select-IsRouted, reselect-IsRouted}

pub record IsConsistent {Namespace : Type 0} (lock : Sessions) (ib : InfoBase Namespace)
    : Type 0 where
  pub routed : IsRouted lock ib.nodes ib.nodes_best
  -- A node is in the set of a session exactly when it has an entry by it.
  pub indexed :
      (id n : ℕ)
      → contains n (set_at (lookup id ib.nodes_by_peer_session)) ≡ is_some (lookup (n, id) ib.nodes)

put_back-contains :
    (id s n : ℕ) (ids : List ℕ) (m : Map ℕ (List ℕ))
    → contains n (set_at (lookup s (put_back id ids m)))
      ≡ (if id == s then contains n ids else contains n (set_at (lookup s m)))
unfolding put_back contains
put_back-contains id s n [] m = rw lookup-erase (ground arith)
put_back-contains id s n (x ∷ xs) m = rw lookup-insert (ground arith)

drop_node_id-contains :
    (id node_id s n : ℕ) (m : Map ℕ (List ℕ))
    → contains n (set_at (lookup s (drop_node_id id node_id m)))
      ≡ (if id == s && node_id == n then false else contains n (set_at (lookup s m)))
unfolding drop_node_id
drop_node_id-contains id node_id s n m = elim (Option-cases (lookup id m)) [
  | inl absent ↦ rw (absent, drop_node_id) (ground (arith, absent, no_member))
  | inr (ids, present) ↦
      rw (present, drop_node_id, put_back-contains, contains-erase)
        (ground (arith, present, ==_iff id s))
]
  where
    no_member : contains n [] ≡ false
    no_member = unfold contains in refl

insert-IsLive :
    (lock : Sessions) (nodes : Map (ℕ × ℕ) NodeItem) (node_id id : ℕ) (item : NodeItem)
    → lock item.peer_session ≡ some id
    → IsLive lock nodes
    → IsLive lock (insert (node_id, id) item nodes)
insert-IsLive lock nodes node_id id item l live key other e =
    elim (lookup_of_insert (node_id, id) key item other nodes e) [
      | inl (k, v) ↦ ground (arith)
      | inr (d, f) ↦ live key other f
    ]

insert-Known :
    (lock : Sessions) (nodes : Map (ℕ × ℕ) NodeItem) (node_id id : ℕ) (item : NodeItem) (n s : ℕ)
    (info : NodeInfo)
    → Known lock nodes n s info
    → (info' : NodeInfo) × Known lock (insert (node_id, id) item nodes) n s info'
insert-Known lock nodes node_id id item n s info (i, it, l, e, f) =
    elim (Bool-cases (node_id == n && id == i)) [
      | inl same ↦ (item.node_info, (i, item, l, rw (lookup-insert, same), refl))
      | inr other ↦ (info, (i, it, l, rw (lookup-insert, other) e, f))
    ]

insert-indexed :
    (nodes : Map (ℕ × ℕ) NodeItem) (sets : Map ℕ (List ℕ)) (node_id id : ℕ) (item : NodeItem)
    → ((s n : ℕ) → contains n (set_at (lookup s sets)) ≡ is_some (lookup (n, s) nodes))
    → (s n : ℕ)
    → contains n
        (set_at (lookup s (insert id (SortedSet.emplace node_id (set_at (lookup id sets))) sets)))
      ≡ is_some (lookup (n, s) (insert (node_id, id) item nodes))
insert-indexed nodes sets node_id id item h s n =
    rw (lookup-insert, lookup-insert)
      (ground (arith, contains-emplace node_id n (set_at (lookup id sets)), h s n, h id n))

module _ {Namespace : Type 0} (lock : Sessions) where
  -- For a session that is alive, `AddNode` returns and keeps the tables together.
  pub add_node-IsConsistent :
      (ib : InfoBase Namespace) (peer_session id : ℕ) (node_info : NodeInfo)
      → IsConsistent lock ib
      → lock peer_session ≡ some id
      → (ib' : InfoBase Namespace) × (updated : Bool) × (add_node lock ib peer_session node_info
          ≡ done (ib', updated))
        × IsConsistent lock ib'
  unfolding add_node
  add_node-IsConsistent ib peer_session id node_info c l =
      let item : NodeItem = record { peer_session = peer_session; node_info = node_info } in
      let ids = SortedSet.emplace node_info.id (set_at (lookup id ib.nodes_by_peer_session)) in
      let (best', updated, run, r) =
        select-IsRouted lock
          (record ib {
            nodes = insert (node_info.id, id) item ib.nodes;
            nodes_by_peer_session = insert id ids ib.nodes_by_peer_session;
          })
          node_info.id (insert-IsSorted (node_info.id, id) item ib.nodes c.routed.sorted_nodes)
          c.routed.sorted_best (insert-IsLive lock ib.nodes node_info.id id item l c.routed.live)
          (λ n s e.
            let (info, k) = c.routed.known n s e in
            insert-Known lock ib.nodes node_info.id id item n s info k)
          (λ n i other e d.
            elim (lookup_of_insert (node_info.id, id) (n, i) item other ib.nodes e) [
              | inl (k, v) ↦ absurd (ground arith)
              | inr (_, f) ↦ c.routed.reachable n i other f
            ]) in
      (
        record ib {
          nodes = insert (node_info.id, id) item ib.nodes;
          nodes_best = best';
          nodes_by_peer_session = insert id ids ib.nodes_by_peer_session;
        },
        updated,
        rw (l, run),
        record {
          routed = r;
          indexed = insert-indexed ib.nodes ib.nodes_by_peer_session node_info.id id item c.indexed;
        },
      )

  -- `RemoveNode` returns, keeps the tables together, and takes away the one entry: what is left
  -- for every other node and session is unchanged.
  pub remove_node-IsConsistent :
      (ib : InfoBase Namespace) (id node_id : ℕ)
      → IsConsistent lock ib
      → (ib' : InfoBase Namespace) × (remove_node lock ib id node_id ≡ done ib')
        × IsConsistent lock ib'
        × ((n s : ℕ)
            → lookup (n, s) ib'.nodes
              ≡ (if node_id == n && id == s then none else lookup (n, s) ib.nodes))
  unfolding remove_node
  remove_node-IsConsistent ib id node_id c =
      let sets = drop_node_id id node_id ib.nodes_by_peer_session in
      let (best', run, r) = reselect-IsRouted lock ib sets node_id id c.routed in
      (
        record ib {
          nodes = erase (node_id, id) ib.nodes;
          nodes_best = best';
          nodes_by_peer_session = sets;
        },
        run,
        record {
          routed = r;
          indexed = λ s n. rw (drop_node_id-contains, lookup-erase) (ground (arith, c.indexed s n));
        },
        λ n s. lookup-erase (node_id, id) (n, s) ib.nodes,
      )
