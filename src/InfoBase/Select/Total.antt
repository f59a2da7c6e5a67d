-- ===== src/InfoBase/Select/Total.antt =====
-- `SelectBestNode` without its failures: where every session that the tables name is alive and has
-- the entry that it is looked up by, no pointer is null and no key is missing, and the loop is the
-- choice below.
use laps.Prelude.{
  ℕ, ◌≡◌, refl, ap, Bool, true, false, List, [], ◌∷◌, Option, none, some, ◌==◌, if◌then◌else◌,
  arith, inl, inr, ◌⊎◌, All, Bool-cases, ==_iff,
}
use laps.Prelude.Outcome.{done, ◌>>=◌}
use laps.Prelude.SortedMap.{Map, lookup, nat_key, pair_key}
use laps.Messages.NodeInfo.{NodeInfo}
use laps.InfoBase.State.{Sessions, NodeItem}
use laps.InfoBase.Select.{
  is_better, Best, node_info_via, take_item, select_round, select_loop, dump,
}

-- The entries of one node from the head of the walk on.
unfoldable pub candidates : ℕ → Map (ℕ × ℕ) NodeItem → List NodeItem
candidates node_id [] = []
candidates node_id ((key, item) ∷ rest) =
    if key.0 == node_id then item ∷ candidates node_id rest else []

unfoldable pub choose : NodeItem → Best × Bool → Best × Bool
choose item (none, is_updated) = (some (item.peer_session, item.node_info), true)
choose item (some (session, info), is_updated) =
    if is_better info item.node_info
    then (some (item.peer_session, item.node_info), true)
    else (some (session, info), is_updated)

unfoldable pub choose_all : List NodeItem → Best × Bool → Best × Bool
choose_all [] b = b
choose_all (item ∷ items) b = choose_all items (choose item b)

module _ (lock : Sessions) (nodes : Map (ℕ × ℕ) NodeItem) where
  -- A session that is alive and has an entry for the node.
  abbrev pub Known : ℕ → ℕ → NodeInfo → Type 0
  Known node_id session info =
      (id : ℕ) × (item : NodeItem) × (lock session ≡ some id)
      × (lookup (node_id, id) nodes ≡ some item)
      × (item.node_info ≡ info)

  -- The session of an entry is alive, and has the id that the entry stands under.
  abbrev pub IsLive : Type 0
  IsLive =
      (key : ℕ × ℕ) (item : NodeItem)
      → lookup key nodes ≡ some item
      → lock item.peer_session ≡ some key.1

  abbrev pub KnownBest : ℕ → Best → Type 0
  KnownBest node_id none = Unit {0}
  KnownBest node_id (some (session, info)) = Known node_id session info

  -- Every best session is known.
  abbrev pub BestIsKnown : Map ℕ ℕ → Type 0
  BestIsKnown nodes_best =
      (node_id session : ℕ)
      → lookup node_id nodes_best ≡ some session
      → (info : NodeInfo) × Known node_id session info

  pub node_info_via-Known :
      (node_id session : ℕ) (info : NodeInfo)
      → Known node_id session info
      → node_info_via lock nodes node_id session ≡ done info
  unfolding node_info_via
  node_info_via-Known node_id session info (id, item, e, f, g) = rw (e, f) (ap done g)

  module _ (node_id : ℕ) where
    take_item-known :
        (id : ℕ) (item : NodeItem)
        → lock item.peer_session ≡ some id
        → lookup (node_id, id) nodes ≡ some item
        → take_item lock nodes node_id item ≡ done (some (item.peer_session, item.node_info), true)
    unfolding take_item
    take_item-known id item e f =
        rw (node_info_via-Known node_id item.peer_session item.node_info (id, item, e, f, refl))

    select_round-choose :
        (id : ℕ) (item : NodeItem) (best : Best) (is_updated : Bool)
        → lock item.peer_session ≡ some id
        → lookup (node_id, id) nodes ≡ some item
        → select_round lock nodes node_id item best is_updated
          ≡ done (choose item (best, is_updated))
    unfolding select_round choose
    select_round-choose id item none is_updated e f = take_item-known id item e f
    select_round-choose id item (some (session, info)) is_updated e f =
        ground (arith, take_item-known id item e f)

    pub select_loop-choose :
        (m : Map (ℕ × ℕ) NodeItem) (best : Best) (is_updated : Bool)
        → IsLive
        → All (λ e. lookup e.0 nodes ≡ some e.1) m
        → select_loop lock nodes node_id m best is_updated
          ≡ done (choose_all (candidates node_id m) (best, is_updated))
    unfolding select_loop candidates choose_all
    select_loop-choose [] best is_updated live all = refl
    select_loop-choose (((n, id), item) ∷ rest) best is_updated live all =
        elim (Bool-cases (n == node_id)) [
          | inl same ↦
              let here : lookup (node_id, id) nodes ≡ some item =
                rw (← ((==_iff n node_id).0 same)) all.0 in
              rw
                (
                  same,
                  select_round-choose id item best is_updated (live (node_id, id) item here) here,
                  ◌>>=◌,
                )
                (select_loop-choose rest (choose item (best, is_updated)).0
                  (choose item (best, is_updated)).1 live all.1)
          | inr other ↦ rw other
        ]

    pub candidates-Known :
        (m : Map (ℕ × ℕ) NodeItem)
        → IsLive
        → All (λ e. lookup e.0 nodes ≡ some e.1) m
        → All
            (λ (item : NodeItem). Known node_id item.peer_session item.node_info)
            (candidates node_id m)
    unfolding candidates
    candidates-Known [] live all = tt
    candidates-Known (((n, id), item) ∷ rest) live all = elim (Bool-cases (n == node_id)) [
      | inl same ↦
          let here : lookup (node_id, id) nodes ≡ some item =
            rw (← ((==_iff n node_id).0 same)) all.0 in
          rw same
            ((id, item, live (node_id, id) item here, here, refl), candidates-Known rest live all.1)
      | inr other ↦ rw other tt
    ]

    choose-Known :
        (item : NodeItem) (b : Best × Bool)
        → Known node_id item.peer_session item.node_info
        → KnownBest node_id b.0
        → KnownBest node_id (choose item b).0
    unfolding choose
    choose-Known item (none, u) k kb = k
    choose-Known item (some (session, info), u) k kb =
        elim (Bool-cases (is_better info item.node_info)) [
          | inl better ↦ rw better k
          | inr worse ↦ rw worse kb
        ]

    pub choose_all-Known :
        (items : List NodeItem) (b : Best × Bool)
        → All (λ (item : NodeItem). Known node_id item.peer_session item.node_info) items
        → KnownBest node_id b.0
        → KnownBest node_id (choose_all items b).0
    unfolding choose_all
    choose_all-Known [] b all kb = kb
    choose_all-Known (item ∷ items) b all kb =
        choose_all-Known items (choose item b) all.1 (choose-Known item b all.0 kb)

    pub dump-done :
        (m : Map ℕ ℕ)
        → All (λ e. (info : NodeInfo) × Known e.0 e.1 info) m
        → dump lock nodes m ≡ done tt
    unfolding dump
    dump-done [] all = refl
    dump-done ((n, session) ∷ m) (k, all) =
        rw (node_info_via-Known n session k.0 k.1) (dump-done m all)

abbrev pub session_of : Best → Option ℕ
session_of none = none
session_of (some (session, info)) = some session

choose-some :
    (item : NodeItem) (x : ℕ × NodeInfo)
    → (y : ℕ × NodeInfo) × (choose item (some x, true) ≡ (some y, true))
unfolding choose
choose-some item (session, info) = elim (Bool-cases (is_better info item.node_info)) [
  | inl better ↦ ((item.peer_session, item.node_info), rw better)
  | inr worse ↦ ((session, info), rw worse)
]

pub choose_all-some :
    (items : List NodeItem) (x : ℕ × NodeInfo)
    → (y : ℕ × NodeInfo) × (choose_all items (some x, true) ≡ (some y, true))
unfolding choose_all
choose_all-some [] x = (x, refl)
choose_all-some (item ∷ items) x =
    let (y, e) = choose-some item x in let (z, f) = choose_all-some items y in (z, rw e f)

choose-cases :
    (item : NodeItem) (best : Best)
    → (choose item (best, false) ≡ (best, false))
      ⊎ ((y : ℕ × NodeInfo) × (choose item (best, false) ≡ (some y, true)))
unfolding choose
choose-cases item none = inr ((item.peer_session, item.node_info), refl)
choose-cases item (some (session, info)) = elim (Bool-cases (is_better info item.node_info)) [
  | inl better ↦ inr ((item.peer_session, item.node_info), rw better)
  | inr worse ↦ inl (rw worse)
]

-- Either nothing changes, or the result says so.
pub choose_all-cases :
    (items : List NodeItem) (best : Best)
    → (choose_all items (best, false) ≡ (best, false))
      ⊎ ((y : ℕ × NodeInfo) × (choose_all items (best, false) ≡ (some y, true)))
unfolding choose_all
choose_all-cases [] best = inl refl
choose_all-cases (item ∷ items) best = elim (choose-cases item best) [
  | inl e ↦ rw e (choose_all-cases items best)
  | inr (y, e) ↦ inr (rw e (choose_all-some items y))
]
