-- ===== src/InfoBase/Select/Refine.antt =====
-- `SelectBestNode` as one choice among the entries of the node.
use laps.Prelude.{
  ℕ, ◌≡◌, refl, sym, ◌∙◌, Bool, true, false, List, none, some, ◌==◌, if◌then◌else◌, inl, inr, All,
  Bool-cases, Option-cases, ==_iff,
}
use laps.Prelude.Outcome.{done}
use laps.Prelude.SortedMap.{
  Map, lookup, insert, lower_bound, nat_key, pair_key, IsSorted, lookup-insert,
}
use laps.Prelude.SortedMap.Order.{
  All-of_lookup, lookup_of_lower_bound, lower_bound-IsSorted, insert-IsSorted,
}
use laps.Messages.NodeInfo.{NodeInfo}
use laps.InfoBase.State.{Sessions, NodeItem}
use laps.InfoBase.Select.{Best, select_loop, current_best, dump, store_best, select_best_node}
use laps.InfoBase.Select.Total.{
  candidates, choose_all, Known, IsLive, KnownBest, BestIsKnown, node_info_via-Known,
  select_loop-choose, candidates-Known, choose_all-Known, dump-done, session_of, choose_all-cases,
}

module _ (lock : Sessions) (nodes : Map (ℕ × ℕ) NodeItem) (node_id : ℕ) (nodes_best : Map ℕ ℕ) where
  abbrev pub node_items : List NodeItem
  node_items = candidates node_id (lower_bound (node_id, 0) nodes)

  -- What `SelectBestNode` leaves: the choice among the entries of the node, from the session that
  -- was the best one, is the best session of the node, and no other node's changes. The result
  -- tells whether the choice was replaced on the way.
  pub record Selected (best' : Map ℕ ℕ) (updated : Bool) : Type 0 where
    pub start : Best
    pub is_start : session_of start ≡ lookup node_id nodes_best
    pub updated_eq : (choose_all node_items (start, false)).1 ≡ updated
    pub sessions :
        (n : ℕ)
        → lookup n best' ≡ (
            if node_id == n
            then session_of (choose_all node_items (start, false)).0
            else lookup n nodes_best)
    pub start_known : KnownBest lock nodes node_id start
    pub choice_known : KnownBest lock nodes node_id (choose_all node_items (start, false)).0
    pub known : BestIsKnown lock nodes best'
    pub sorted : IsSorted best'

  current_best-start :
      BestIsKnown lock nodes nodes_best
      → (start : Best) × (current_best lock nodes node_id nodes_best ≡ done start)
        × (session_of start ≡ lookup node_id nodes_best)
        × KnownBest lock nodes node_id start
  unfolding current_best
  current_best-start known = elim (Option-cases (lookup node_id nodes_best)) [
    | inl e ↦ (none, rw (e, current_best), sym e, tt)
    | inr (session, e) ↦
        let (info, k) = known node_id session e in
        (
          some (session, info),
          rw (e, current_best, node_info_via-Known lock nodes node_id session info k),
          sym e,
          k,
        )
  ]

  insert-Known :
      (session : ℕ) (info : NodeInfo)
      → BestIsKnown lock nodes nodes_best
      → Known lock nodes node_id session info
      → BestIsKnown lock nodes (insert node_id session nodes_best)
  insert-Known session info known k n s e = elim (Bool-cases (node_id == n)) [
    | inl same ↦
        let f : s ≡ session = cc (rw (lookup-insert, same) at e) in
        let g : n ≡ node_id = sym ((==_iff node_id n).0 same) in rw (f, g) (info, k)
    | inr other ↦ known n s (rw (lookup-insert, other) at e)
  ]

  store_unchanged :
      (best : Best)
      → store_best lock nodes node_id nodes_best (best, false) ≡ done (nodes_best, false)
  unfolding store_best
  store_unchanged none = refl
  store_unchanged (some x) = refl

  store_changed :
      (session : ℕ) (info : NodeInfo)
      → dump lock nodes (insert node_id session nodes_best) ≡ done tt
      → store_best lock nodes node_id nodes_best (some (session, info), true)
        ≡ done (insert node_id session nodes_best, true)
  unfolding store_best
  store_changed session info e = rw e

  select_best_node-store :
      (start : Best) (result : Best × Bool)
      → current_best lock nodes node_id nodes_best ≡ done start
      → select_loop lock nodes node_id (lower_bound (node_id, 0) nodes) start false ≡ done result
      → select_best_node lock nodes node_id nodes_best
        ≡ store_best lock nodes node_id nodes_best result
  unfolding select_best_node
  select_best_node-store start result e f = rw (e, f)

  start_at :
      (start : Best)
      → session_of start ≡ lookup node_id nodes_best
      → (n : ℕ)
      → lookup n nodes_best ≡ (if node_id == n then session_of start else lookup n nodes_best)
  start_at start es n = elim (Bool-cases (node_id == n)) [
    | inl same ↦ rw same (rw ((==_iff node_id n).0 same) at (sym es))
    | inr other ↦ rw other
  ]

  -- With its preconditions, `SelectBestNode` returns.
  pub select_best_node-Selected :
      IsSorted nodes
      → IsSorted nodes_best
      → IsLive lock nodes
      → BestIsKnown lock nodes nodes_best
      → (best' : Map ℕ ℕ) × (updated : Bool) × (select_best_node lock nodes node_id nodes_best
          ≡ done (best', updated))
        × Selected best' updated
  select_best_node-Selected sn sb live known =
      let (start, ec, es, ks) = current_best-start known in
      let run = select_best_node-store start _ ec (
        select_loop-choose lock nodes node_id (lower_bound (node_id, 0) nodes) start false live
          entries) in
      elim (choose_all-cases node_items start) [
        | inl e ↦ (
          nodes_best,
          false,
          run ∙ rw e (store_unchanged start),
          record {
            start = start;
            is_start = es;
            updated_eq = rw e;
            sessions = λ n. rw e (start_at start es n);
            start_known = ks;
            choice_known = rw e ks;
            known = known;
            sorted = sb;
          },
        )
        | inr ((session, info), e) ↦
            let k : Known lock nodes node_id session info = rw e at (
              choose_all-Known lock nodes node_id node_items (start, false)
                (candidates-Known lock nodes node_id _ live entries) ks) in
            let known' = insert-Known session info known k in
            (
              insert node_id session nodes_best,
              true,
              run
                  ∙ rw e (
                      store_changed session info (
                        dump-done lock nodes node_id _ (
                          All-of_lookup (λ n s. (i : NodeInfo) × Known lock nodes n s i) _
                            (insert-IsSorted node_id session nodes_best sb) known'))),
              record {
                start = start;
                is_start = es;
                updated_eq = rw e;
                sessions = λ n. rw (e, lookup-insert);
                start_known = ks;
                choice_known = rw e k;
                known = known';
                sorted = insert-IsSorted node_id session nodes_best sb;
              },
            )
      ]
    where
      entries : All (λ e. lookup e.0 nodes ≡ some e.1) (lower_bound (node_id, 0) nodes)
      entries =
          All-of_lookup (λ k v. lookup k nodes ≡ some v) _
            (lower_bound-IsSorted (node_id, 0) nodes sn)
            (λ k v e. lookup_of_lower_bound (node_id, 0) k v nodes sn e)
