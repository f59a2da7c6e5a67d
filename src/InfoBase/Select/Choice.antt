-- ===== src/InfoBase/Select/Choice.antt =====
-- What the choice among the entries of a node is worth.
use laps.Prelude.{
  ℕ, ◌≡◌, ◌≤◌, refl, ap, ◌∙◌, Bool, true, false, List, [], ◌∷◌, length, none, some, arith, inl, inr,
  ◌⊎◌, All, Bool-cases,
}
use laps.Messages.NodeInfo.{NodeInfo, sum_srtt}
use laps.InfoBase.State.{NodeItem}
use laps.InfoBase.Select.{is_better}
use laps.InfoBase.Select.Total.{choose, choose_all}

-- No longer and no slower.
pub record AtLeast (a b : NodeInfo) : Type 0 where
  pub hops : length a.path ≤ length b.path
  pub srtt : sum_srtt a ≤ sum_srtt b

-- The two measures agree on all entries: one of two is no longer and no slower than the other.
abbrev pub Agrees : NodeInfo → List NodeItem → Type 0
Agrees a items =
    All (λ (item : NodeItem). AtLeast a item.node_info ⊎ AtLeast item.node_info a) items

abbrev pub AllAgree : List NodeItem → Type 0
AllAgree [] = Unit {0}
AllAgree (item ∷ items) = Agrees item.node_info items × AllAgree items

AtLeast-trans : {a b c : NodeInfo} → AtLeast a b → AtLeast b c → AtLeast a c
AtLeast-trans p q = omega arith

AtLeast-refl : (a : NodeInfo) → AtLeast a a
AtLeast-refl a = omega arith

-- Where two infos agree, the test of the loop keeps one that is at least as good as both.
kept_first : (a b : NodeInfo) → (AtLeast a b ⊎ AtLeast b a) → is_better a b ≡ false → AtLeast a b
unfolding is_better
kept_first a b h e = ground arith

kept_second : (a b : NodeInfo) → (AtLeast a b ⊎ AtLeast b a) → is_better a b ≡ true → AtLeast b a
unfolding is_better
kept_second a b h e = ground arith

choose-better :
    (item : NodeItem) (session : ℕ) (info : NodeInfo) (updated : Bool)
    → is_better info item.node_info ≡ true
    → choose item (some (session, info), updated) ≡ (some (item.peer_session, item.node_info), true)
unfolding choose
choose-better item session info updated e = rw e

choose-worse :
    (item : NodeItem) (session : ℕ) (info : NodeInfo) (updated : Bool)
    → is_better info item.node_info ≡ false
    → choose item (some (session, info), updated) ≡ (some (session, info), updated)
unfolding choose
choose-worse item session info updated e = rw e

pub choose_all-AtLeast :
    (items : List NodeItem) (session : ℕ) (info : NodeInfo) (updated : Bool)
    → Agrees info items
    → AllAgree items
    → (s : ℕ) × (i : NodeInfo) × ((choose_all items (some (session, info), updated)).0
        ≡ some (s, i))
      × AtLeast i info
      × All (λ (item : NodeItem). AtLeast i item.node_info) items
unfolding choose_all choose
choose_all-AtLeast [] session info updated ag all = (session, info, refl, AtLeast-refl info, tt)
choose_all-AtLeast (item ∷ items) session info updated ag all =
    elim (Bool-cases (is_better info item.node_info)) [
      | inl better ↦
          let (s, i, e, h, hs) =
            choose_all-AtLeast items item.peer_session item.node_info true all.0 all.1 in
          let k = kept_second info item.node_info ag.0 better in
          (
            s,
            i,
            ap (λ b. (choose_all items b).0) (choose-better item session info updated better) ∙ e,
            AtLeast-trans h k,
            (h, hs),
          )
      | inr worse ↦
          let (s, i, e, h, hs) = choose_all-AtLeast items session info updated ag.1 all.1 in
          let k = kept_first info item.node_info ag.0 worse in
          (
            s,
            i,
            ap (λ b. (choose_all items b).0) (choose-worse item session info updated worse) ∙ e,
            h,
            (AtLeast-trans h k, hs),
          )
    ]

-- From no session at all: the choice among agreeing entries, of which there is one.
pub choose_all-AtLeast-none :
    (item : NodeItem) (items : List NodeItem) (updated : Bool)
    → AllAgree (item ∷ items)
    → (s : ℕ) × (i : NodeInfo) × ((choose_all (item ∷ items) (none, updated)).0 ≡ some (s, i))
      × All (λ (other : NodeItem). AtLeast i other.node_info) (item ∷ items)
unfolding choose_all choose
choose_all-AtLeast-none item items updated all =
    let (s, i, e, h, hs) =
      choose_all-AtLeast items item.peer_session item.node_info true all.0 all.1 in
    (s, i, e, (h, hs))
