-- ===== src/Prelude/SortedMap/Pairs.antt =====
-- `std::pair` as a key: compared by its first part, and by its second where these are equal.
use mathlib.Core.Path.{◌≡◌, refl}
use mathlib.Core.Logic.{◌↔◌, ◌⊎◌, inl, inr}
use mathlib.Core.Bool.{Bool, true, false, ◌&&◌, ◌||◌}
use native.Mathlib.Omega.{arith}
use laps.Prelude.Tests.{Bool-cases}
use laps.Prelude.SortedMap.{Key, ◌==◌, ◌<?◌}

pub or_true : (b : Bool) → (b || true) ≡ true
or_true true = refl
or_true false = refl

and_false : (b : Bool) → (b && false) ≡ false
and_false true = refl
and_false false = refl

or_cases :
    {A : Type 0} ⦃ka : Key A⦄ (a c : A) (r : Bool)
    → ((a <? c) || ((a == c) && r)) ≡ true
    → ((a <? c) ≡ true) ⊎ (((a == c) ≡ true) × (r ≡ true))
or_cases a c r p = ground arith

module _ {A B : Type 0} ⦃ka : Key A⦄ ⦃kb : Key B⦄ where
  abbrev pub lex_beq : A × B → A × B → Bool
  lex_beq (a, b) (c, d) = (a == c) && (b == d)

  abbrev pub lex_blt : A × B → A × B → Bool
  lex_blt (a, b) (c, d) = (a <? c) || ((a == c) && (b <? d))

  pub lex_beq_iff : (x y : A × B) → (lex_beq x y ≡ true) ↔ (x ≡ y)
  lex_beq_iff (a, b) (c, d) = ground (arith, ka.beq_iff a c, kb.beq_iff b d)

  pub lex_trans : (x y z : A × B) → lex_blt x y ≡ true → lex_blt y z ≡ true → lex_blt x z ≡ true
  lex_trans (a, b) (c, d) (e, f) p q = elim (or_cases a c (b <? d) p) [
    | inl lt ↦ elim (or_cases c e (d <? f) q) [
      | inl lt' ↦ rw (ka.blt_trans a c e lt lt') refl
      | inr (same, _) ↦ let e' = (ka.beq_iff c e).0 same in rw (← e', lt) refl
    ]
    | inr (same, lt) ↦ elim (or_cases c e (d <? f) q) [
      | inl lt' ↦ let e' = (ka.beq_iff a c).0 same in rw (e', lt') refl
      | inr (same', lt') ↦
          let e' = (ka.beq_iff a c).0 same in
          rw (e', same', kb.blt_trans b d f lt lt') (or_true (c <? e))
    ]
  ]

  pub lex_irrefl : (x : A × B) → lex_blt x x ≡ false
  lex_irrefl (a, b) = rw (ka.blt_irrefl a, kb.blt_irrefl b) (and_false (a == a))

  pub lex_total : (x y : A × B) → lex_beq x y ≡ false → lex_blt x y ≡ false → lex_blt y x ≡ true
  lex_total (a, b) (c, d) n p = elim (Bool-cases (a == c)) [
    | inl same ↦ let e = (ka.beq_iff a c).0 same in second e same
    | inr other ↦ elim (Bool-cases (a <? c)) [
      | inl lt ↦ absurd (cc (rw lt at p))
      | inr ge ↦ rw (ka.blt_total a c other ge) refl
    ]
  ]
    where
      second : a ≡ c → (a == c) ≡ true → lex_blt (c, d) (a, b) ≡ true
      second e same = ground (arith, n, p, ka.beq_iff a c, ka.beq_iff c a, kb.blt_total b d)

  instance abbrev pub lex_key : Key (A × B)
  lex_key = record {
    beq = lex_beq;
    blt = lex_blt;
    beq_iff = lex_beq_iff;
    blt_trans = lex_trans;
    blt_irrefl = lex_irrefl;
    blt_total = lex_total;
  }
