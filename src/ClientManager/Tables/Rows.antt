-- ===== src/ClientManager/Tables/Rows.antt =====
-- The rows of a track in a table, which the walks of src/client_manager.cc take from `lower_bound`
-- on.
use laps.Prelude.{
  ℕ, ◌≡◌, refl, ◌∙◌, Bool, true, false, ◌||◌, List, [], ◌∷◌, none, if◌then◌else◌, Bool-cases,
  Option-cases, inl, inr, All, ◌==◌, ltb, arith,
}
use laps.Prelude.SortedMap.{
  Key, ◌==◌ as ◌is◌, ◌<?◌, Map, lookup, erase, lower_bound, Above, IsSorted, nat_key, lookup-erase,
}
use laps.Prelude.SortedMap.Order.{
  lookup-Above, Above-IsSorted, lower_bound-IsSorted, lookup-lower_bound, lower_bound-ge,
  All-of_lookup,
}
use laps.Prelude.SortedMap.Pairs.{lex_key, lex_blt, or_true}
use laps.ClientManager.{erase_all, rows_until, rows_of}

abbrev pub is_among : {K : Type 0} ⦃key : Key K⦄ → K → List K → Bool
is_among at [] = false
is_among at (k ∷ ks) = (k is at) || is_among at ks

module _ {A : Type 0} where
  pub rows_until-All :
      (P : (ℕ × ℕ) × A → Type 0) (alias : ℕ) (m : Map (ℕ × ℕ) A)
      → All P m
      → All P (rows_until alias m)
  unfolding rows_until
  rows_until-All P alias [] ps = tt
  rows_until-All P alias ((key, a) ∷ m) ps = elim (Bool-cases (key.0 == alias)) [
    | inl same ↦ rw same (ps.0, rows_until-All P alias m ps.1)
    | inr other ↦ rw other tt
  ]

  lower_bound-All :
      (P : (ℕ × ℕ) × A → Type 0) (at : ℕ × ℕ) (m : Map (ℕ × ℕ) A)
      → All P m
      → All P (lower_bound at m)
  unfolding lower_bound
  lower_bound-All P at [] ps = tt
  lower_bound-All P at ((j, a) ∷ m) ps = elim (Bool-cases (j <? at)) [
    | inl lt ↦ rw lt (lower_bound-All P at m ps.1)
    | inr ge ↦ rw ge ps
  ]

  pub rows_of-All :
      (P : (ℕ × ℕ) × A → Type 0) (alias : ℕ) (m : Map (ℕ × ℕ) A) → All P m → All P (rows_of alias m)
  rows_of-All P alias m ps =
      rows_until-All P alias (lower_bound (alias, 0) m) (lower_bound-All P (alias, 0) m ps)

  -- Nothing of a track is found behind a row of a later track.
  lookup_behind :
      (alias conn : ℕ) (j : ℕ × ℕ) (m : Map (ℕ × ℕ) A)
      → Above j m
      → ltb alias j.0 ≡ true
      → lookup (alias, conn) m ≡ none
  lookup_behind alias conn j m up later = elim (Option-cases (lookup (alias, conn) m)) [
    | inl missing ↦ missing
    | inr (a, found) ↦ absurd (not_both (lookup-Above j (alias, conn) a m up found))
  ]
    where
      not_both : lex_blt j (alias, conn) ≡ true → ⊥
      not_both lt = ground (arith, lt, later)

  rows_until-Above :
      (k : ℕ × ℕ) (alias : ℕ) (m : Map (ℕ × ℕ) A) → Above k m → Above k (rows_until alias m)
  unfolding rows_until
  rows_until-Above k alias [] up = tt
  rows_until-Above k alias ((j, a) ∷ m) up = elim (Bool-cases (j.0 == alias)) [
    | inl same ↦ rw same (up.0, rows_until-Above j alias m up.1)
    | inr other ↦ rw other tt
  ]

  pub rows_until-IsSorted :
      (alias : ℕ) (m : Map (ℕ × ℕ) A) → IsSorted m → IsSorted (rows_until alias m)
  unfolding rows_until
  rows_until-IsSorted alias [] s = tt
  rows_until-IsSorted alias ((j, a) ∷ m) s = elim (Bool-cases (j.0 == alias)) [
    | inl same ↦ rw same (rows_until-Above j alias m s)
    | inr other ↦ rw other tt
  ]

  -- In a table in order, from the track's first possible row on, the rows are those of the track.
  lookup-rows_until :
      (alias asked conn : ℕ) (m : Map (ℕ × ℕ) A)
      → IsSorted m
      → All (λ row. ltb row.0.0 alias ≡ false) m
      → lookup (asked, conn) (rows_until alias m)
        ≡ (if asked == alias then lookup (asked, conn) m else none)
  unfolding rows_until lookup
  lookup-rows_until alias asked conn [] s ge = ground arith
  lookup-rows_until alias asked conn ((j, a) ∷ m) s ge =
      let rest = lookup-rows_until alias asked conn m (Above-IsSorted j m s) ge.1 in
      elim (Bool-cases (j.0 == alias)) [
        | inl same ↦ elim (Bool-cases (asked == alias)) [
          | inl asks ↦ rw (same, asks, rw asks at rest) refl
          | inr not_asks ↦
              let differs : (j is (asked, conn)) ≡ false = ground (arith, same, not_asks) in
              rw (same, not_asks, differs, rw not_asks at rest) refl
        ]
        | inr other ↦ elim (Bool-cases (asked == alias)) [
          | inl asks ↦
              let differs : (j is (asked, conn)) ≡ false = ground (arith, other, asks) in
              let later : ltb asked j.0 ≡ true = ground (arith, other, asks, ge.0) in
              rw (other, asks, differs, lookup_behind asked conn j m s later) refl
          | inr not_asks ↦ rw (other, not_asks) refl
        ]
      ]

  lower_bound-ge_alias :
      (alias : ℕ) (m : Map (ℕ × ℕ) A)
      → IsSorted m
      → All (λ row. ltb row.0.0 alias ≡ false) (lower_bound (alias, 0) m)
  lower_bound-ge_alias alias m s =
      let at : ℕ × ℕ = (alias, 0) in
      All-of_lookup (λ k v. ltb k.0 alias ≡ false) (lower_bound at m) (lower_bound-IsSorted at m s)
        (λ k v found. not_below k (lower_bound-ge at k v m s found))
    where
      not_below : (k : ℕ × ℕ) → lex_blt k (alias, 0) ≡ false → ltb k.0 alias ≡ false
      not_below k h = ground (arith, h)

  -- The rows of a track are those that are found under it.
  pub lookup-rows_of :
      (alias asked conn : ℕ) (m : Map (ℕ × ℕ) A)
      → IsSorted m
      → lookup (asked, conn) (rows_of alias m)
        ≡ (if asked == alias then lookup (asked, conn) m else none)
  lookup-rows_of alias asked conn m s =
      lookup-rows_until alias asked conn (lower_bound (alias, 0) m)
        (lower_bound-IsSorted (alias, 0) m s) (lower_bound-ge_alias alias m s)
      ∙ from_there
    where
      from_there :
          (if asked == alias then lookup (asked, conn) (lower_bound (alias, 0) m) else none)
          ≡ (if asked == alias then lookup (asked, conn) m else none)
      from_there = elim (Bool-cases (asked == alias)) [
        | inl asks ↦
            let reached : lex_blt (asked, conn) (alias, 0) ≡ false = ground (arith, asks) in
            rw (asks, lookup-lower_bound (alias, 0) (asked, conn) m reached) refl
        | inr not_asks ↦ rw not_asks refl
      ]

  pub rows_of-IsSorted : (alias : ℕ) (m : Map (ℕ × ℕ) A) → IsSorted m → IsSorted (rows_of alias m)
  rows_of-IsSorted alias m s =
      rows_until-IsSorted alias (lower_bound (alias, 0) m) (lower_bound-IsSorted (alias, 0) m s)

module _ {K A : Type 0} ⦃key : Key K⦄ where
  pub lookup-erase_all :
      (at : K) (ks : List K) (m : Map K A)
      → lookup at (erase_all ks m) ≡ (if is_among at ks then none else lookup at m)
  unfolding erase_all
  lookup-erase_all at [] m = refl
  lookup-erase_all at (k ∷ ks) m = elim (Bool-cases (is_among at ks)) [
    | inl later ↦ rw (lookup-erase_all at ks (erase k m), later, or_true (k is at)) refl
    | inr not_later ↦ elim (Bool-cases (k is at)) [
      | inl this ↦ rw (lookup-erase_all at ks (erase k m), not_later, lookup-erase, this) refl
      | inr not_this ↦
          rw (lookup-erase_all at ks (erase k m), not_later, lookup-erase, not_this) refl
    ]
  ]
