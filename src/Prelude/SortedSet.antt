-- ===== src/Prelude/SortedSet.antt =====
-- `std::set` of numbers: its elements in ascending order.
use Prim.Native.Nat.{ℕ, ◌<◌}
use mathlib.Core.Path.{◌≡◌, refl}
use mathlib.Core.Bool.{Bool, true, false, ◌||◌}
use mathlib.Core.List.{List, [], ◌∷◌}
use native.Mathlib.Omega.{arith}
use laps.Prelude.Tests.{ltb, ◌==◌, if◌then◌else◌}

unfoldable pub contains : ℕ → List ℕ → Bool
contains a [] = false
contains a (x ∷ xs) = x == a || contains a xs

abbrev pub is_empty : List ℕ → Bool
is_empty [] = true
is_empty (x ∷ xs) = false

-- `emplace`: nothing changes where the element is there.
unfoldable pub emplace : ℕ → List ℕ → List ℕ
emplace a [] = a ∷ []
emplace a (x ∷ xs) = if x == a then x ∷ xs else if ltb a x then a ∷ x ∷ xs else x ∷ emplace a xs

-- `erase(key)`: every element equal to the key.
unfoldable pub erase : ℕ → List ℕ → List ℕ
erase a [] = []
erase a (x ∷ xs) = if x == a then erase a xs else x ∷ erase a xs

-- Strictly ascending, with all elements above a bound.
abbrev pub Above : ℕ → List ℕ → Type 0
Above n [] = Unit {0}
Above n (x ∷ xs) = (n < x) × Above x xs

abbrev pub IsSortedSet : List ℕ → Type 0
IsSortedSet [] = Unit {0}
IsSortedSet (x ∷ xs) = Above x xs

pub contains-emplace :
    (a b : ℕ) (xs : List ℕ) → contains b (emplace a xs) ≡ (a == b || contains b xs)
unfolding contains emplace
contains-emplace a b [] = refl
contains-emplace a b (x ∷ xs) = ground (arith, contains-emplace a b xs)

pub contains-erase :
    (a b : ℕ) (xs : List ℕ) → contains b (erase a xs) ≡ (if a == b then false else contains b xs)
unfolding contains erase
contains-erase a b [] = ground arith
contains-erase a b (x ∷ xs) = ground (arith, contains-erase a b xs)
