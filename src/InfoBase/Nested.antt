-- ===== src/InfoBase/Nested.antt =====
-- The tables of src/peering/info_base.cc that hold a map under each key, `subscribes_` and
-- `announces_`, as partial maps of both keys.
use laps.Prelude.{
  ℕ, ◌≡◌, refl, sym, ap, ◌∙◌, true, [], ◌∷◌, Option, none, some, ◌&&◌, ◌==◌, if◌then◌else◌, inl,
  inr, Bool-cases, ==_iff,
}
use laps.Prelude.SortedMap.{Map, lookup, insert, erase, nat_key, lookup-insert, lookup-erase}

-- The map under a key, and the empty one that `operator[]` makes for a missing key.
abbrev pub map_at {ℓ} : {A : Type ℓ} → Option (Map ℕ A) → Map ℕ A
map_at none = []
map_at (some m) = m

-- `if (it->second.empty()) erase(it)`: a map that became empty is erased.
unfoldable pub put_or_erase {ℓ} : {A : Type ℓ} → ℕ → Map ℕ A → Map ℕ (Map ℕ A) → Map ℕ (Map ℕ A)
put_or_erase hash [] t = erase hash t
put_or_erase hash (x ∷ m) t = insert hash (x ∷ m) t

module _ {ℓ} {A : Type ℓ} (t : Map ℕ (Map ℕ A)) where
  abbrev pub entry_at : ℕ → ℕ → Option A
  entry_at hash node_id = lookup node_id (map_at (lookup hash t))

  same_row : (hash h n : ℕ) → (hash == h) ≡ true → entry_at hash n ≡ entry_at h n
  same_row hash h n same = ap (λ x. entry_at x n) ((==_iff hash h).0 same)

  pub entry_at-insert :
      (hash node_id h n : ℕ) (a : A)
      → lookup n (map_at (lookup h (insert hash (insert node_id a (map_at (lookup hash t))) t)))
        ≡ (if hash == h && node_id == n then some a else entry_at h n)
  entry_at-insert hash node_id h n a = elim (Bool-cases (hash == h)) [
    | inl same ↦ rw (lookup-insert, same, lookup-insert, same_row hash h n same) refl
    | inr other ↦ rw (lookup-insert, other) refl
  ]

  -- The empty map that `operator[]` makes changes no entry.
  pub entry_at-touch :
      (hash h n : ℕ)
      → lookup n (map_at (lookup h (insert hash (map_at (lookup hash t)) t))) ≡ entry_at h n
  entry_at-touch hash h n = elim (Bool-cases (hash == h)) [
    | inl same ↦ rw (lookup-insert, same) (same_row hash h n same)
    | inr other ↦ rw (lookup-insert, other) refl
  ]

  put_or_erase-row :
      (hash h n : ℕ) (m : Map ℕ A)
      → lookup n (map_at (lookup h (put_or_erase hash m t)))
        ≡ (if hash == h then lookup n m else entry_at h n)
  unfolding put_or_erase lookup
  put_or_erase-row hash h n [] = elim (Bool-cases (hash == h)) [
    | inl same ↦ rw (lookup-erase, same) refl
    | inr other ↦ rw (lookup-erase, other) refl
  ]
  put_or_erase-row hash h n (x ∷ m) = elim (Bool-cases (hash == h)) [
    | inl same ↦ rw (lookup-insert, same) refl
    | inr other ↦ rw (lookup-insert, other) refl
  ]

  pub entry_at-erase :
      (hash node_id h n : ℕ) (m : Map ℕ A)
      → lookup hash t ≡ some m
      → lookup n (map_at (lookup h (put_or_erase hash (erase node_id m) t)))
        ≡ (if hash == h && node_id == n then none else entry_at h n)
  entry_at-erase hash node_id h n m present = elim (Bool-cases (hash == h)) [
    | inr other ↦ rw (put_or_erase-row, other) refl
    | inl same ↦
        let row : entry_at h n ≡ lookup n m =
          sym (same_row hash h n same) ∙ ap (λ x. lookup n (map_at x)) present in
        rw (put_or_erase-row, same, lookup-erase, row) refl
  ]

  -- To take out what is not there changes nothing.
  pub entry_at-absent :
      (hash node_id h n : ℕ)
      → entry_at hash node_id ≡ none
      → entry_at h n ≡ (if hash == h && node_id == n then none else entry_at h n)
  entry_at-absent hash node_id h n absent = elim (Bool-cases (hash == h)) [
    | inr other ↦ rw other refl
    | inl same ↦ elim (Bool-cases (node_id == n)) [
      | inr other ↦ rw (same, other) refl
      | inl also ↦
          let here = (==_iff hash h).0 same in
          let there = (==_iff node_id n).0 also in rw (same, also) cc
    ]
  ]
