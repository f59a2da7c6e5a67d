-- ===== src/Prelude/SortedMap.antt =====
-- `std::map`: pairs of a key and a value, in ascending order of the keys.
use Prim.Native.Nat.{ℕ, ◌<◌, ◌≤◌}
use mathlib.Core.Path.{◌≡◌, refl, ap, ◌∙◌, sym}
use mathlib.Core.Logic.{◌↔◌, ◌⊎◌, inl, inr}
use mathlib.Core.Bool.{Bool, true, false, ◌&&◌, ◌||◌}
use mathlib.Core.Option.{Option, none, some}
use mathlib.Core.List.{List, [], ◌∷◌}
use native.Mathlib.Omega.{arith}
use laps.Prelude.Tests.{ltb, ◌==◌ as nat_beq, if◌then◌else◌, ==_iff, Bool-cases}
pub mod Order
pub mod Pairs

-- A type of keys: its equality, and the order in which a map is walked.
pub record Key {ℓ} (K : Type ℓ) : Type ℓ where
  pub beq : K → K → Bool
  pub blt : K → K → Bool
  pub beq_iff : (a b : K) → (beq a b ≡ true) ↔ (a ≡ b)
  pub blt_trans : (a b c : K) → blt a b ≡ true → blt b c ≡ true → blt a c ≡ true
  pub blt_irrefl : (a : K) → blt a a ≡ false
  pub blt_total : (a b : K) → beq a b ≡ false → blt a b ≡ false → blt b a ≡ true

infix 50 ◌==◌
abbrev pub ◌==◌ {ℓ} : {K : Type ℓ} ⦃k : Key K⦄ → K → K → Bool
◌==◌ ⦃k⦄ = k.beq

infix 50 ◌<?◌
abbrev pub ◌<?◌ {ℓ} : {K : Type ℓ} ⦃k : Key K⦄ → K → K → Bool
◌<?◌ ⦃k⦄ = k.blt

pub nat_trans : (low mid high : ℕ) → ltb low mid ≡ true → ltb mid high ≡ true → ltb low high ≡ true
nat_trans low mid high p q = ground arith

pub nat_irrefl : (a : ℕ) → ltb a a ≡ false
nat_irrefl a = ground arith

pub nat_total : (a b : ℕ) → nat_beq a b ≡ false → ltb a b ≡ false → ltb b a ≡ true
nat_total a b p q = ground arith

instance abbrev pub nat_key : Key ℕ
nat_key = record {
  beq = nat_beq;
  blt = ltb;
  beq_iff = ==_iff;
  blt_trans = nat_trans;
  blt_irrefl = nat_irrefl;
  blt_total = nat_total;
}

-- `std::pair` is compared by its first part, and by its second where these are equal.
abbrev pub pair_beq : ℕ × ℕ → ℕ × ℕ → Bool
pair_beq a b = nat_beq a.0 b.0 && nat_beq a.1 b.1

abbrev pub pair_blt : ℕ × ℕ → ℕ × ℕ → Bool
pair_blt a b = ltb a.0 b.0 || (nat_beq a.0 b.0 && ltb a.1 b.1)

pub pair_beq_iff : (a b : ℕ × ℕ) → (pair_beq a b ≡ true) ↔ (a ≡ b)
pair_beq_iff a b = ground arith

pub pair_trans : (a b c : ℕ × ℕ) → pair_blt a b ≡ true → pair_blt b c ≡ true → pair_blt a c ≡ true
pair_trans a b c p q = ground arith

pub pair_irrefl : (a : ℕ × ℕ) → pair_blt a a ≡ false
pair_irrefl a = ground arith

pub pair_total : (a b : ℕ × ℕ) → pair_beq a b ≡ false → pair_blt a b ≡ false → pair_blt b a ≡ true
pair_total a b p q = ground arith

instance abbrev pub pair_key : Key (ℕ × ℕ)
pair_key = record {
  beq = pair_beq;
  blt = pair_blt;
  beq_iff = pair_beq_iff;
  blt_trans = pair_trans;
  blt_irrefl = pair_irrefl;
  blt_total = pair_total;
}

abbrev pub Map {ℓ κ} : Type ℓ → Type κ → Type (ℓ ⊔ κ)
Map K V = List (K × V)

module _ {ℓ κ} {K : Type ℓ} {V : Type κ} ⦃key : Key K⦄ where
  unfoldable pub lookup : K → Map K V → Option V
  lookup k [] = none
  lookup k ((j, v) ∷ m) = if j == k then some v else lookup k m

  -- `m[k] = v`.
  unfoldable pub insert : K → V → Map K V → Map K V
  insert k v [] = (k, v) ∷ []
  insert k v ((j, w) ∷ m) =
      if j == k then (k, v) ∷ m else if k <? j then (k, v) ∷ (j, w) ∷ m else (j, w) ∷ insert k v m

  -- `m.erase(k)`.
  unfoldable pub erase : K → Map K V → Map K V
  erase k [] = []
  erase k ((j, w) ∷ m) = if j == k then erase k m else (j, w) ∷ erase k m

  -- From the first key that is not below `k`.
  unfoldable pub lower_bound : K → Map K V → Map K V
  lower_bound k [] = []
  lower_bound k ((j, w) ∷ m) = if j <? k then lower_bound k m else (j, w) ∷ m

  -- After `m[at] = new`, every other key keeps what it had.
  pub lookup-insert :
      (at asked : K) (new : V) (m : Map K V)
      → lookup asked (insert at new m) ≡ (if at == asked then some new else lookup asked m)
  unfolding insert lookup
  lookup-insert at asked new [] = refl
  lookup-insert at asked new ((i, old) ∷ m) =
      let rest = lookup-insert at asked new m in
      ground (arith, rest, key.beq_iff i asked, key.beq_iff i at, key.beq_iff at asked)

  pub lookup-erase :
      (k j : K) (m : Map K V) → lookup j (erase k m) ≡ (if k == j then none else lookup j m)
  unfolding lookup erase
  lookup-erase k j [] = ground arith
  lookup-erase k j ((i, w) ∷ m) =
      ground (arith, key.beq_iff k j, key.beq_iff i k, key.beq_iff i j, lookup-erase k j m)

  pub lookup-erase_other :
      (k j : K) (m : Map K V) → (k == j) ≡ false → lookup j (erase k m) ≡ lookup j m
  lookup-erase_other k j m e = rw (lookup-erase, e)

  pub lookup-erase_self : (k : K) (m : Map K V) → lookup k (erase k m) ≡ none
  lookup-erase_self k m = rw (lookup-erase, (key.beq_iff k k).1 refl)

  pub lookup_of_erase :
      (k j : K) (v : V) (m : Map K V)
      → lookup j (erase k m) ≡ some v
      → ((k == j) ≡ false) × (lookup j m ≡ some v)
  lookup_of_erase k j v m e = elim (Bool-cases (k == j)) [
    | inl same ↦ absurd (cc (rw (lookup-erase, same) at e))
    | inr other ↦ (other, rw (lookup-erase, other) at e)
  ]

  pub lookup_of_insert :
      (k j : K) (v w : V) (m : Map K V)
      → lookup j (insert k v m) ≡ some w
      → ((k ≡ j) × (v ≡ w)) ⊎ (((k == j) ≡ false) × (lookup j m ≡ some w))
  lookup_of_insert k j v w m e = elim (Bool-cases (k == j)) [
    | inl same ↦ inl ((key.beq_iff k j).0 same, cc (rw (lookup-insert, same) at e))
    | inr other ↦ inr (other, rw (lookup-insert, other) at e)
  ]

  -- Every key of the map is above `k`, and each above the one before it.
  abbrev pub Above : K → Map K V → Type 0
  Above k [] = Unit {0}
  Above k ((j, w) ∷ m) = (k <? j ≡ true) × Above j m

  abbrev pub IsSorted : Map K V → Type 0
  IsSorted [] = Unit {0}
  IsSorted ((j, w) ∷ m) = Above j m
