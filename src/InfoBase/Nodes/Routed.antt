-- ===== src/InfoBase/Nodes/Routed.antt =====
-- The table of nodes and the table of best sessions fit together, and stay so.
use laps.Prelude.{
  ℕ, ◌≡◌, ◌≢◌, refl, ◌∙◌, Bool, false, List, [], ◌∷◌, none, some, ◌==◌, arith, inl, inr, All,
  Bool-cases, Option-cases, ==_iff,
}
use laps.Prelude.Outcome.{done}
use laps.Prelude.SortedMap.{
  Map, lookup, erase, nat_key, pair_key, IsSorted, lookup-erase_other, lookup_of_erase,
}
use laps.Prelude.SortedMap.Order.{erase-IsSorted}
use laps.Messages.NodeInfo.{NodeInfo}
use laps.InfoBase.State.{Sessions, NodeItem, InfoBase}
use laps.InfoBase.Select.{Best}
use laps.InfoBase.Select.Total.{
  choose, choose_all, choose_all-cases, choose_all-some, Known, IsLive, BestIsKnown, session_of,
}
use laps.InfoBase.Select.Refine.{select_best_node-Selected}
use laps.InfoBase.Select.Optimal.{node_items_complete}
use laps.InfoBase.Nodes.{select, reselect}

-- Every entry names a live session, every best session has an entry for its node, and every node
-- with an entry has a best session.
pub record IsRouted (lock : Sessions) (nodes : Map (ℕ × ℕ) NodeItem) (best : Map ℕ ℕ) : Type 0 where
  pub sorted_nodes : IsSorted nodes
  pub sorted_best : IsSorted best
  pub live : IsLive lock nodes
  pub known : BestIsKnown lock nodes best
  pub reachable :
      (n id : ℕ) (item : NodeItem) → lookup (n, id) nodes ≡ some item → lookup n best ≢ none

choice_some :
    (items : List NodeItem) (start : Best)
    → (All (λ (item : NodeItem). ⊥) items → ⊥)
    → (choose_all items (start, false)).0 ≢ none
unfolding choose_all choose
choice_some [] none ne e = ne tt
choice_some (item ∷ items) none ne e =
    let (y, f) = choose_all-some items (item.peer_session, item.node_info) in ground (arith, f)
choice_some items (some x) ne e = elim (choose_all-cases items (some x)) [
  | inl f ↦ ground (arith, f)
  | inr (y, f) ↦ ground (arith, f)
]

session_of-some : (best : Best) → best ≢ none → session_of best ≢ none
session_of-some none ne e = ne refl
session_of-some (some (session, info)) ne e = cc

-- A table with one entry less keeps what it has for the others.
pub erase-IsLive :
    (lock : Sessions) (nodes : Map (ℕ × ℕ) NodeItem) (key : ℕ × ℕ)
    → IsLive lock nodes
    → IsLive lock (erase key nodes)
erase-IsLive lock nodes key live k item e = live k item (lookup_of_erase key k item nodes e).1

pub erase-Known :
    (lock : Sessions) (nodes : Map (ℕ × ℕ) NodeItem) (node_id id n session : ℕ) (info : NodeInfo)
    → (node_id == n) ≡ false
    → Known lock nodes n session info
    → Known lock (erase (node_id, id) nodes) n session info
erase-Known lock nodes node_id id n session info other (i, item, l, e, f) =
    (i, item, l, lookup-erase_other (node_id, id) (n, i) nodes (rw other) ∙ e, f)

module _ {Namespace : Type 0} (lock : Sessions) where
  -- `SelectBestNode` where the other nodes with entries have their best sessions.
  pub select-IsRouted :
      (ib : InfoBase Namespace) (node_id : ℕ)
      → IsSorted ib.nodes
      → IsSorted ib.nodes_best
      → IsLive lock ib.nodes
      → BestIsKnown lock ib.nodes ib.nodes_best
      → ((n id : ℕ) (item : NodeItem)
          → lookup (n, id) ib.nodes ≡ some item
          → (node_id == n) ≡ false
          → lookup n ib.nodes_best ≢ none)
      → (best' : Map ℕ ℕ) × (updated : Bool) × (select lock ib node_id
          ≡ done (record ib { nodes_best = best' }, updated))
        × IsRouted lock ib.nodes best'
  unfolding select
  select-IsRouted ib node_id sn sb live known others =
      let (best', updated, run, sel) =
        select_best_node-Selected lock ib.nodes node_id ib.nodes_best sn sb live known in
      (
        best',
        updated,
        rw run,
        record {
          sorted_nodes = sn;
          sorted_best = sel.sorted;
          live = live;
          known = sel.known;
          reachable = λ n id item e. elim (Bool-cases (node_id == n)) [
            | inl same ↦
                rw (sel.sessions n, same)
                  (session_of-some _ (
                    choice_some _ sel.start (λ none_at.
                      node_items_complete lock ib.nodes node_id ib.nodes_best id item (λ _. ⊥) sn
                        (rw (← ((==_iff node_id n).0 same)) at e) none_at)))
            | inr other ↦ rw (sel.sessions n, other) (others n id item e other)
          ];
        },
      )

  -- An entry of a node is taken away, and its best session chosen again if it had one.
  pub reselect-IsRouted :
      (ib : InfoBase Namespace) (sets : Map ℕ (List ℕ)) (node_id id : ℕ)
      → IsRouted lock ib.nodes ib.nodes_best
      → let ib' = record ib {
        nodes = erase (node_id, id) ib.nodes;
        nodes_by_peer_session = sets;
      } in
        (best' : Map ℕ ℕ) × (reselect lock ib' node_id ≡ done (record ib' { nodes_best = best' }))
        × IsRouted lock (erase (node_id, id) ib.nodes) best'
  unfolding reselect
  reselect-IsRouted ib sets node_id id r = elim (Option-cases (lookup node_id ib.nodes_best)) [
    | inl absent ↦ (
      ib.nodes_best,
      rw (absent, reselect),
      record {
        sorted_nodes = erase-IsSorted (node_id, id) ib.nodes r.sorted_nodes;
        sorted_best = r.sorted_best;
        live = erase-IsLive lock ib.nodes (node_id, id) r.live;
        known = λ n s e. elim (Bool-cases (node_id == n)) [
          | inl same ↦ absurd (cc (absent, rw (← ((==_iff node_id n).0 same)) at e))
          | inr other ↦
              let (info, k) = r.known n s e in
              (info, erase-Known lock ib.nodes node_id id n s info other k)
        ];
        reachable = λ n i item e.
            r.reachable n i item (lookup_of_erase (node_id, id) (n, i) item ib.nodes e).1;
      },
    )
    | inr (session, present) ↦
        let (best', updated, run, r') =
          select-IsRouted
            (record ib {
              nodes = erase (node_id, id) ib.nodes;
              nodes_by_peer_session = sets;
              nodes_best = erase node_id ib.nodes_best;
            })
            node_id (erase-IsSorted (node_id, id) ib.nodes r.sorted_nodes)
            (erase-IsSorted node_id ib.nodes_best r.sorted_best)
            (erase-IsLive lock ib.nodes (node_id, id) r.live)
            (λ n s e.
              let (other, e') = lookup_of_erase node_id n s ib.nodes_best e in
              let (info, k) = r.known n s e' in
              (info, erase-Known lock ib.nodes node_id id n s info other k))
            (λ n i item e other.
              rw (lookup-erase_other node_id n ib.nodes_best other)
                (r.reachable n i item (lookup_of_erase (node_id, id) (n, i) item ib.nodes e).1)) in
        (best', rw (present, reselect, run), r')
  ]
