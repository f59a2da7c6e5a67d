-- ===== src/Prelude/SortedMap/Order.antt =====
-- Maps stay in order, and what a walk over a part of one meets.
use mathlib.Core.Path.{◌≡◌, refl, sym}
use mathlib.Core.Logic.{inl, inr}
use mathlib.Core.Bool.{true, false}
use mathlib.Core.Option.{some}
use mathlib.Core.List.{[], ◌∷◌}
use laps.Prelude.Tests.{Bool-cases}
use laps.Prelude.Lists.{All}
use laps.Prelude.SortedMap.{
  Key, ◌==◌, ◌<?◌, Map, lookup, insert, erase, lower_bound, Above, IsSorted,
}

module _ {ℓ} {K : Type ℓ} ⦃key : Key K⦄ where
  pub ne_of_lt : (a b : K) → (a <? b) ≡ true → (a == b) ≡ false
  ne_of_lt a b h = elim (Bool-cases (a == b)) [
    | inl e ↦ absurd (cc ((key.beq_iff a b).0 e, key.blt_irrefl a))
    | inr n ↦ n
  ]

  pub beq_comm : (a b : K) → (a == b) ≡ false → (b == a) ≡ false
  beq_comm a b n = elim (Bool-cases (b == a)) [
    | inl e ↦ absurd (cc (n, (key.beq_iff a b).1 (sym ((key.beq_iff b a).0 e))))
    | inr d ↦ d
  ]

module _ {ℓ κ} {K : Type ℓ} {V : Type κ} ⦃key : Key K⦄ where
  pub Above-trans : (a b : K) (m : Map K V) → (a <? b) ≡ true → Above b m → Above a m
  Above-trans a b [] h up = tt
  Above-trans a b ((j, w) ∷ m) h up = (key.blt_trans a b j h up.0, up.1)

  pub Above-IsSorted : (a : K) (m : Map K V) → Above a m → IsSorted m
  Above-IsSorted a [] up = tt
  Above-IsSorted a ((j, w) ∷ m) up = up.1

  insert-Above :
      (a k : K) (v : V) (m : Map K V) → (a <? k) ≡ true → Above a m → Above a (insert k v m)
  unfolding insert
  insert-Above a k v [] h up = (h, tt)
  insert-Above a k v ((j, w) ∷ m) h up = elim (Bool-cases (j == k)) [
    | inl e ↦ rw e (h, subst_key j k m ((key.beq_iff j k).0 e) up.1)
    | inr n ↦ elim (Bool-cases (k <? j)) [
      | inl lt ↦ rw (n, lt) (h, (lt, up.1))
      | inr ge ↦
          rw (n, ge) (up.0, insert-Above j k v m (key.blt_total k j (beq_comm j k n) ge) up.1)
    ]
  ]
    where
      subst_key : (j k : K) (m : Map K V) → j ≡ k → Above j m → Above k m
      subst_key j k m e up = rw e at up

  pub insert-IsSorted : (k : K) (v : V) (m : Map K V) → IsSorted m → IsSorted (insert k v m)
  unfolding insert
  insert-IsSorted k v [] s = tt
  insert-IsSorted k v ((j, w) ∷ m) s = elim (Bool-cases (j == k)) [
    | inl e ↦ rw e (rw ((key.beq_iff j k).0 e) at s)
    | inr n ↦ elim (Bool-cases (k <? j)) [
      | inl lt ↦ rw (n, lt) (lt, s)
      | inr ge ↦ rw (n, ge) (insert-Above j k v m (key.blt_total k j (beq_comm j k n) ge) s)
    ]
  ]

  erase-Above : (a k : K) (m : Map K V) → Above a m → Above a (erase k m)
  unfolding erase
  erase-Above a k [] up = tt
  erase-Above a k ((j, w) ∷ m) up = elim (Bool-cases (j == k)) [
    | inl e ↦ rw e (erase-Above a k m (Above-trans a j m up.0 up.1))
    | inr n ↦ rw n (up.0, erase-Above j k m up.1)
  ]

  pub erase-IsSorted : (k : K) (m : Map K V) → IsSorted m → IsSorted (erase k m)
  unfolding erase
  erase-IsSorted k [] s = tt
  erase-IsSorted k ((j, w) ∷ m) s = elim (Bool-cases (j == k)) [
    | inl e ↦ rw e (Above-IsSorted j (erase k m) (erase-Above j k m s))
    | inr n ↦ rw n (erase-Above j k m s)
  ]

  pub lower_bound-IsSorted : (k : K) (m : Map K V) → IsSorted m → IsSorted (lower_bound k m)
  unfolding lower_bound
  lower_bound-IsSorted k [] s = tt
  lower_bound-IsSorted k ((j, w) ∷ m) s = elim (Bool-cases (j <? k)) [
    | inl lt ↦ rw lt (lower_bound-IsSorted k m (Above-IsSorted j m s))
    | inr ge ↦ rw ge s
  ]

  pub lookup-Above :
      (a k : K) (v : V) (m : Map K V) → Above a m → lookup k m ≡ some v → (a <? k) ≡ true
  unfolding lookup
  lookup-Above a k v [] up e = cc
  lookup-Above a k v ((j, w) ∷ m) up e = elim (Bool-cases (j == k)) [
    | inl same ↦ rw (← ((key.beq_iff j k).0 same)) up.0
    | inr other ↦ key.blt_trans a j k up.0 (lookup-Above j k v m up.1 (rw other at e))
  ]

  -- A key found in the rest of a map in order is found in the whole.
  lookup_tail :
      (j k : K) (w v : V) (m : Map K V)
      → Above j m
      → lookup k m ≡ some v
      → lookup k ((j, w) ∷ m) ≡ some v
  unfolding lookup
  lookup_tail j k w v m up e = rw (ne_of_lt j k (lookup-Above j k v m up e)) e

  -- What is found from a bound on is found in the map.
  pub lookup_of_lower_bound :
      (b k : K) (v : V) (m : Map K V)
      → IsSorted m
      → lookup k (lower_bound b m) ≡ some v
      → lookup k m ≡ some v
  unfolding lower_bound
  lookup_of_lower_bound b k v [] s e = e
  lookup_of_lower_bound b k v ((j, w) ∷ m) s e = elim (Bool-cases (j <? b)) [
    | inl lt ↦
        lookup_tail j k w v m s (lookup_of_lower_bound b k v m (Above-IsSorted j m s) (rw lt at e))
    | inr ge ↦ rw ge at e
  ]

  -- And a key that is not below the bound is found from there on.
  pub lookup-lower_bound :
      (b k : K) (m : Map K V) → (k <? b) ≡ false → lookup k (lower_bound b m) ≡ lookup k m
  unfolding lower_bound lookup
  lookup-lower_bound b k [] h = refl
  lookup-lower_bound b k ((j, w) ∷ m) h = elim (Bool-cases (j <? b)) [
    | inl lt ↦ rw (lt, differs lt) (lookup-lower_bound b k m h)
    | inr ge ↦ rw ge
  ]
    where
      differs : (j <? b) ≡ true → (j == k) ≡ false
      differs lt = elim (Bool-cases (j == k)) [
        | inl e ↦ absurd (cc (h, rw ((key.beq_iff j k).0 e) at lt))
        | inr n ↦ n
      ]

  -- No key from a bound on is below it.
  pub lower_bound-ge :
      (b k : K) (v : V) (m : Map K V)
      → IsSorted m
      → lookup k (lower_bound b m) ≡ some v
      → (k <? b) ≡ false
  unfolding lower_bound
  lower_bound-ge b k v [] s e = absurd (unfold lookup in cc)
  lower_bound-ge b k v ((j, w) ∷ m) s e = elim (Bool-cases (j <? b)) [
    | inl lt ↦ lower_bound-ge b k v m (Above-IsSorted j m s) (rw lt at e)
    | inr ge ↦ elim (Bool-cases (k <? b)) [
      | inr done ↦ done
      | inl lt ↦ absurd (below ge lt (rw ge at e))
    ]
  ]
    where
      below : (j <? b) ≡ false → (k <? b) ≡ true → lookup k ((j, w) ∷ m) ≡ some v → ⊥
      below ge lt f = elim (Bool-cases (j == k)) [
        | inl same ↦ cc (ge, lt, (key.beq_iff j k).0 same)
        | inr other ↦
            cc (
              ge,
              key.blt_trans j k b (lookup-Above j k v m s (unfold lookup in (rw other at f))) lt,
            )
      ]

  -- A walk over a map in order meets the entries that are found in it.
  pub All-of_lookup {ρ} :
      (Q : K → V → Type ρ) (m : Map K V)
      → IsSorted m
      → ((k : K) (v : V) → lookup k m ≡ some v → Q k v)
      → All (λ e. Q e.0 e.1) m
  All-of_lookup Q [] s h = tt
  All-of_lookup Q ((j, w) ∷ m) s h = (
    h j w (unfold lookup in (rw ((key.beq_iff j j).1 refl))),
    All-of_lookup Q m (Above-IsSorted j m s) (λ k v e. h k v (lookup_tail j k w v m s e)),
  )

  -- To write what is there changes nothing.
  pub insert-same :
      (k : K) (v : V) (m : Map K V) → IsSorted m → lookup k m ≡ some v → insert k v m ≡ m
  unfolding insert lookup
  insert-same k v [] s e = absurd (cc e)
  insert-same k v ((j, w) ∷ m) s e = elim (Bool-cases (j == k)) [
    | inl same ↦
        let at = (key.beq_iff j k).0 same in let here : some w ≡ some v = rw same at e in rw same cc
    | inr other ↦
        let e' : lookup k m ≡ some v = rw other at e in
        let up = lookup-Above j k v m s e' in
        let rest = insert-same k v m (Above-IsSorted j m s) e' in
        elim (Bool-cases (k <? j)) [
          | inl down ↦ absurd (cc (key.blt_trans k j k down up, key.blt_irrefl k))
          | inr not_down ↦ rw (other, not_down, rest) refl
        ]
  ]
