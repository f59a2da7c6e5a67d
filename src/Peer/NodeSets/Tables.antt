-- ===== src/Peer/NodeSets/Tables.antt =====
-- A node set put back in its table with a node more or less.
use laps.Prelude.{
  ℕ, ◌≡◌, refl, sym, ap, ◌∙◌, Bool, true, false, List, [], ◌∷◌, none, some, ◌&&◌, ◌||◌, ◌==◌,
  if◌then◌else◌, arith, inl, inr, Bool-cases, ==_iff,
}
use laps.Prelude.SortedSet
use laps.Prelude.SortedSet.{contains, is_empty, emplace, contains-emplace, contains-erase}
use laps.Prelude.SortedMap.{
  Map, Key, lookup, insert, erase, lookup-insert, lookup-erase, lookup_of_insert, lookup_of_erase,
}
use laps.Messages.SubscribeNodeSet.{SubscribeNodeSet}
use laps.Peer.NodeSets.{sns_at}

pub emplace-is_empty : (a : ℕ) (xs : List ℕ) → is_empty (emplace a xs) ≡ false
unfolding emplace
emplace-is_empty a [] = refl
emplace-is_empty a (x ∷ xs) = ground arith

empty-contains : (n : ℕ) (xs : List ℕ) → is_empty xs ≡ true → contains n xs ≡ false
unfolding contains
empty-contains n [] e = refl
empty-contains n (x ∷ xs) e = absurd (cc)

module _ {K : Type 0} ⦃k : Key K⦄ where
  -- A node in the set under a key.
  abbrev pub is_member : K → ℕ → Map K SubscribeNodeSet → Bool
  is_member key n m = contains n (sns_at (lookup key m)).nodes

  -- No node set is empty.
  abbrev pub AllFull : Map K SubscribeNodeSet → Type 0
  AllFull m =
      (key : K) (sns : SubscribeNodeSet) → lookup key m ≡ some sns → is_empty sns.nodes ≡ false

  -- The table after a set is put under a key.
  put-is_member :
      (key j : K) (n : ℕ) (sns : SubscribeNodeSet) (m : Map K SubscribeNodeSet)
      → is_member j n (insert key sns m)
        ≡ (if k.beq key j then contains n sns.nodes else is_member j n m)
  put-is_member key j n sns m = elim (Bool-cases (k.beq key j)) [
    | inl same ↦ rw (lookup-insert, same) refl
    | inr other ↦ rw (lookup-insert, other) refl
  ]

  same_row :
      (key j : K) (n : ℕ) (m : Map K SubscribeNodeSet)
      → k.beq key j ≡ true
      → is_member key n m ≡ is_member j n m
  same_row key j n m same = ap (λ x. is_member x n m) ((k.beq_iff key j).0 same)

  pub added-is_member :
      (key j : K) (node n : ℕ) (sns : SubscribeNodeSet) (m : Map K SubscribeNodeSet)
      → sns.nodes ≡ emplace node (sns_at (lookup key m)).nodes
      → is_member j n (insert key sns m) ≡ ((k.beq key j && node == n) || is_member j n m)
  added-is_member key j node n sns m e = elim (Bool-cases (k.beq key j)) [
    | inl same ↦ rw (put-is_member, same, e, contains-emplace, same_row key j n m same) refl
    | inr other ↦ rw (put-is_member, other) refl
  ]

  pub insert-AllFull :
      (key : K) (sns : SubscribeNodeSet) (m : Map K SubscribeNodeSet)
      → is_empty sns.nodes ≡ false
      → AllFull m
      → AllFull (insert key sns m)
  insert-AllFull key sns m full all j other e = elim (lookup_of_insert key j sns other m e) [
    | inl (_, same) ↦ rw same at full
    | inr (_, there) ↦ all j other there
  ]

  pub erase-AllFull : (key : K) (m : Map K SubscribeNodeSet) → AllFull m → AllFull (erase key m)
  erase-AllFull key m all j sns e = all j sns (lookup_of_erase key j sns m e).1

  pub kept-is_member :
      (key j : K) (node n : ℕ) (old : SubscribeNodeSet) (m : Map K SubscribeNodeSet)
      → lookup key m ≡ some old
      → is_member j n (insert key (record old { nodes = SortedSet.erase node old.nodes }) m)
        ≡ (if k.beq key j && node == n then false else is_member j n m)
  kept-is_member key j node n old m there = elim (Bool-cases (k.beq key j)) [
    | inl same ↦
        let row = sym (same_row key j n m same) ∙ ap (λ x. contains n (sns_at x).nodes) there in
        rw (put-is_member, same, contains-erase, row) refl
    | inr other ↦ rw (put-is_member, other) refl
  ]

  -- A set that only the node is in goes with the node.
  pub erased-is_member :
      (key j : K) (node n : ℕ) (old : SubscribeNodeSet) (m : Map K SubscribeNodeSet)
      → lookup key m ≡ some old
      → is_empty (SortedSet.erase node old.nodes) ≡ true
      → is_member j n (erase key m) ≡ (if k.beq key j && node == n then false else is_member j n m)
  unfolding contains
  erased-is_member key j node n old m there none_left = elim (Bool-cases (k.beq key j)) [
    | inl same ↦
        let row = sym (same_row key j n m same) ∙ ap (λ x. contains n (sns_at x).nodes) there in
        rw (lookup-erase, same, row)
          (sym (empty-contains n (SortedSet.erase node old.nodes) none_left)
            ∙ contains-erase node n old.nodes)
    | inr other ↦ rw (lookup-erase, other) refl
  ]

  pub absent-is_member :
      (key j : K) (node n : ℕ) (m : Map K SubscribeNodeSet)
      → is_member key node m ≡ false
      → is_member j n m ≡ (if k.beq key j && node == n then false else is_member j n m)
  absent-is_member key j node n m absent = elim (Bool-cases (k.beq key j)) [
    | inr other ↦ rw other refl
    | inl same ↦ elim (Bool-cases (node == n)) [
      | inr other ↦ rw (same, other) refl
      | inl also ↦
          rw (same, also)
            (sym (same_row key j n m same)
              ∙ (ap (λ x. is_member key x m) (sym ((==_iff node n).0 also)) ∙ absent))
    ]
  ]

  -- With no set under a key, nothing is to be taken out.
  pub no_set :
      (key j : K) (node n : ℕ) (m : Map K SubscribeNodeSet)
      → lookup key m ≡ none
      → is_member j n m
        ≡ (if k.beq key j && (node == 0 || node == n) then false else is_member j n m)
  unfolding contains
  no_set key j node n m absent = elim (Bool-cases (k.beq key j)) [
    | inr other ↦ rw other refl
    | inl same ↦
        let nothing =
          sym (same_row key j n m same) ∙ ap (λ x. contains n (sns_at x).nodes) absent in
        rw (same, nothing) (ground arith)
  ]

  pub dropped-is_member :
      (key j : K) (n : ℕ) (m : Map K SubscribeNodeSet)
      → is_member j n (erase key m) ≡ (if k.beq key j && true then false else is_member j n m)
  unfolding contains
  dropped-is_member key j n m = elim (Bool-cases (k.beq key j)) [
    | inl same ↦ rw (lookup-erase, same) refl
    | inr other ↦ rw (lookup-erase, other) refl
  ]
