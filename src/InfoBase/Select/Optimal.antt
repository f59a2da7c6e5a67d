-- ===== src/InfoBase/Select/Optimal.antt =====
-- The session that `SelectBestNode` leaves as the best one of a node, against every entry that the
-- table has for the node.
use laps.Prelude.{
  ℕ, ◌≡◌, ◌∙◌, Bool, false, List, [], ◌∷◌, none, some, ◌==◌, arith, inl, inr, ◌⊎◌, subst, All,
  Bool-cases, ==-self,
}
use laps.Prelude.Outcome.{done}
use laps.Prelude.SortedMap.{Map, lookup, lower_bound, nat_key, pair_key, IsSorted, pair_blt}
use laps.Prelude.SortedMap.Order.{
  All-of_lookup, lookup_of_lower_bound, lower_bound-IsSorted, lookup-lower_bound, lower_bound-ge,
  lookup-Above, Above-IsSorted,
}
use laps.Messages.NodeInfo.{NodeInfo}
use laps.InfoBase.State.{Sessions, NodeItem}
use laps.InfoBase.Select.{Best, select_best_node}
use laps.InfoBase.Select.Total.{
  candidates, choose_all, Known, KnownBest, IsLive, BestIsKnown, candidates-Known,
}
use laps.InfoBase.Select.Refine.{node_items, select_best_node-Selected}
use laps.InfoBase.Select.Choice.{
  AtLeast, Agrees, AllAgree, choose_all-AtLeast, choose_all-AtLeast-none,
}

module _ (node_id : ℕ) where
  -- The walk meets every entry of the node, if it begins at the first.
  candidates_complete {ρ} :
      (Q : NodeItem → Type ρ) (m : Map (ℕ × ℕ) NodeItem) (id : ℕ) (item : NodeItem)
      → IsSorted m
      → All (λ e. pair_blt e.0 (node_id, 0) ≡ false) m
      → lookup (node_id, id) m ≡ some item
      → All Q (candidates node_id m)
      → Q item
  unfolding lookup candidates
  candidates_complete Q [] id item s ge e all = absurd (cc)
  candidates_complete Q (((n, i), v) ∷ rest) id item s ge e all = elim (Bool-cases (n == node_id)) [
    | inl same ↦ elim (Bool-cases (i == id)) [
      | inl hit ↦ let f : v ≡ item = cc (rw (same, hit) at e) in subst Q f (rw same at all).0
      | inr miss ↦
          candidates_complete Q rest id item (Above-IsSorted (n, i) rest s) ge.1
            (rw (same, miss) at e) (rw same at all).1
    ]
    | inr other ↦
        absurd (ground (arith, ge.0, lookup-Above (n, i) (node_id, id) item rest s (rw other at e)))
  ]

-- What holds of all that the loop meets holds of every entry that the table has for the node.
pub node_items_complete :
    (lock : Sessions) (nodes : Map (ℕ × ℕ) NodeItem) (node_id : ℕ) (nodes_best : Map ℕ ℕ) (id : ℕ)
    (item : NodeItem) (Q : NodeItem → Type 0)
    → IsSorted nodes
    → lookup (node_id, id) nodes ≡ some item
    → All Q (node_items lock nodes node_id nodes_best)
    → Q item
node_items_complete lock nodes node_id nodes_best id item Q sn e all =
    candidates_complete node_id Q (lower_bound (node_id, 0) nodes) id item
      (lower_bound-IsSorted (node_id, 0) nodes sn)
      (All-of_lookup (λ k v. pair_blt k (node_id, 0) ≡ false) _
        (lower_bound-IsSorted (node_id, 0) nodes sn)
        (λ k v f. lower_bound-ge (node_id, 0) k v nodes sn f))
      (lookup-lower_bound (node_id, 0) (node_id, id) nodes (ground arith) ∙ e) all

module _ (lock : Sessions) (nodes : Map (ℕ × ℕ) NodeItem) (node_id : ℕ) (nodes_best : Map ℕ ℕ) where
  -- Of two entries of the node one has no longer path and no larger sum.
  abbrev pub EntriesAgree : Type 0
  EntriesAgree =
      (a b : ℕ) (x y : NodeItem)
      → lookup (node_id, a) nodes ≡ some x
      → lookup (node_id, b) nodes ≡ some y
      → AtLeast x.node_info y.node_info ⊎ AtLeast y.node_info x.node_info

  module _ (agree : EntriesAgree) where
    Known-agree :
        (s t : ℕ) (i j : NodeInfo)
        → Known lock nodes node_id s i
        → Known lock nodes node_id t j
        → AtLeast i j ⊎ AtLeast j i
    Known-agree s t i j (a, x, la, ea, fa) (b, y, lb, eb, fb) = rw (fa, fb) at (agree a b x y ea eb)

    Agrees-Known :
        (s : ℕ) (i : NodeInfo) (items : List NodeItem)
        → Known lock nodes node_id s i
        → All (λ (item : NodeItem). Known lock nodes node_id item.peer_session item.node_info) items
        → Agrees i items
    Agrees-Known s i [] k all = tt
    Agrees-Known s i (item ∷ items) k all =
        (Known-agree s item.peer_session i item.node_info k all.0, Agrees-Known s i items k all.1)

    AllAgree-Known :
        (items : List NodeItem)
        → All (λ (item : NodeItem). Known lock nodes node_id item.peer_session item.node_info) items
        → AllAgree items
    AllAgree-Known [] all = tt
    AllAgree-Known (item ∷ items) all = (
      Agrees-Known item.peer_session item.node_info items all.0 all.1,
      AllAgree-Known items all.1,
    )

    choice :
        (start : Best) (items : List NodeItem)
        → KnownBest lock nodes node_id start
        → All (λ (item : NodeItem). Known lock nodes node_id item.peer_session item.node_info) items
        → (All (λ (item : NodeItem). ⊥) items → ⊥)
        → (s : ℕ) × (i : NodeInfo) × ((choose_all items (start, false)).0 ≡ some (s, i))
          × All (λ (item : NodeItem). AtLeast i item.node_info) items
    choice none [] k all some_item = absurd (some_item tt)
    choice none (item ∷ items) k all some_item =
        choose_all-AtLeast-none item items false (AllAgree-Known (item ∷ items) all)
    choice (some (session, info)) items k all some_item =
        let (s, i, e, h, hs) =
          choose_all-AtLeast items session info false (Agrees-Known session info items k all)
            (AllAgree-Known items all) in
        (s, i, e, hs)

    -- Where the tables are sorted, every entry is by a live session, every best session is known,
    -- and of any two entries of the node one has no longer path and no larger sum of the round
    -- trip times in its path: `SelectBestNode` returns, and leaves a live session as the best one
    -- of the node, and no entry of the node has a shorter path or a smaller sum than the best
    -- session's.
    pub select_best_node-AtLeast :
        (id : ℕ) (item : NodeItem)
        → IsSorted nodes
        → IsSorted nodes_best
        → IsLive lock nodes
        → BestIsKnown lock nodes nodes_best
        → lookup (node_id, id) nodes ≡ some item
        → (best' : Map ℕ ℕ) × (updated : Bool) × (session : ℕ) × (info : NodeInfo)
          × (select_best_node lock nodes node_id nodes_best ≡ done (best', updated))
          × (lookup node_id best' ≡ some session)
          × Known lock nodes node_id session info
          × AtLeast info item.node_info
    select_best_node-AtLeast id item sn sb live known e =
        let (best', updated, run, sel) =
          select_best_node-Selected lock nodes node_id nodes_best sn sb live known in
        let (s, i, f, hs) =
          choice sel.start (node_items lock nodes node_id nodes_best) sel.start_known items_known
            (λ none_at. complete (λ _. ⊥) none_at) in
        (
          best',
          updated,
          s,
          i,
          run,
          rw (sel.sessions node_id, ==-self, f),
          rw f at sel.choice_known,
          complete (λ item. AtLeast i item.node_info) hs,
        )
      where
        entries : All (λ e. lookup e.0 nodes ≡ some e.1) (lower_bound (node_id, 0) nodes)
        entries =
            All-of_lookup (λ k v. lookup k nodes ≡ some v) _
              (lower_bound-IsSorted (node_id, 0) nodes sn)
              (λ k v e. lookup_of_lower_bound (node_id, 0) k v nodes sn e)

        items_known :
            All
              (λ (item : NodeItem). Known lock nodes node_id item.peer_session item.node_info)
              (node_items lock nodes node_id nodes_best)
        items_known =
            candidates-Known lock nodes node_id (lower_bound (node_id, 0) nodes) live entries

        complete :
            (Q : NodeItem → Type 0) → All Q (node_items lock nodes node_id nodes_best) → Q item
        complete Q all = node_items_complete lock nodes node_id nodes_best id item Q sn e all
