-- ===== src/PublishNamespace/Choice.antt =====
-- Which tracks `UpdateTrackRanking` of src/publish_namespace_handler.cc is to select.
use laps.Prelude.{
  ℕ, ◌≡◌, ◌≤◌, ◌⊎◌, refl, ap, ◌∙◌, Bool, true, false, not, ◌&&◌, ◌||◌, List, [], ◌∷◌, ◌++◌, is_some,
  ◌==◌, length, inl, inr, Bool-cases, Option-cases, ==_iff, arith,
}
use laps.Prelude.SortedMap.{Map, lookup, insert, nat_key, lookup-insert}
use laps.Ranking.{FlatTrack}
use laps.PublishNamespace.{PublishNamespaceHandler, emplace}

-- A track of another connection that is published to this one.
abbrev pub is_eligible : PublishNamespaceHandler → FlatTrack → Bool
is_eligible n row =
    not (row.connection_id == n.connection_id)
    && is_some (lookup row.track_alias n.published_tracks)

-- Every eligible row is selected.
abbrev pub takes_all : PublishNamespaceHandler → Map ℕ ℕ → List FlatTrack → Bool
takes_all n active [] = true
takes_all n active (row ∷ rows) =
    (not (is_eligible n row) || is_some (lookup row.track_alias active)) && takes_all n active rows

-- The row is one of the track, by another connection.
abbrev pub is_foreign : ℕ → ℕ → FlatTrack → Bool
is_foreign connection_id ta row = row.track_alias == ta && not (row.connection_id == connection_id)

abbrev pub is_foreign_in : ℕ → ℕ → List FlatTrack → Bool
is_foreign_in connection_id ta [] = false
is_foreign_in connection_id ta (row ∷ rows) =
    is_foreign connection_id ta row || is_foreign_in connection_id ta rows

-- The connection stays, and what was published is.
pub record Stays (n n' : PublishNamespaceHandler) : Type 0 where
  pub connection : n'.connection_id ≡ n.connection_id
  pub published :
      (ta : ℕ)
      → is_some (lookup ta n.published_tracks) ≡ true
      → is_some (lookup ta n'.published_tracks) ≡ true

pub Stays-refl : (n : PublishNamespaceHandler) → Stays n n
Stays-refl n = record { connection = refl; published = λ ta e. e }

pub Stays-trans : {a b c : PublishNamespaceHandler} → Stays a b → Stays b c → Stays a c
Stays-trans p q = record {
  connection = q.connection ∙ p.connection;
  published = λ ta e. q.published ta (p.published ta e);
}

pub insert-is_some :
    {A : Type 0} (key ta : ℕ) (a : A) (m : Map ℕ A)
    → is_some (lookup ta m) ≡ true
    → is_some (lookup ta (insert key a m)) ≡ true
insert-is_some key ta a m e = elim (Bool-cases (key == ta)) [
  | inl same ↦ rw (lookup-insert, same) refl
  | inr other ↦ rw (lookup-insert, other) e
]

pub emplace_grows :
    (key ta a : ℕ) (m : Map ℕ ℕ)
    → is_some (lookup ta m) ≡ true
    → is_some (lookup ta (emplace key a m)) ≡ true
unfolding emplace
emplace_grows key ta a m e = elim (Option-cases (lookup key m)) [
  | inl absent ↦ rw (emplace, absent) (insert-is_some key ta a m e)
  | inr (_, there) ↦ rw (emplace, there) e
]

pub emplace-is_some : (key a : ℕ) (m : Map ℕ ℕ) → is_some (lookup key (emplace key a m)) ≡ true
unfolding emplace
emplace-is_some key a m = elim (Option-cases (lookup key m)) [
  | inl absent ↦ rw (emplace, absent, lookup-insert, (==_iff key key).1 refl) refl
  | inr (_, there) ↦ rw (emplace, there, there) refl
]

pub emplace_only :
    (key ta a : ℕ) (m : Map ℕ ℕ)
    → (key == ta) ≡ false
    → is_some (lookup ta (emplace key a m)) ≡ is_some (lookup ta m)
unfolding emplace
emplace_only key ta a m other = elim (Option-cases (lookup key m)) [
  | inl absent ↦ rw (emplace, absent, lookup-insert, other) refl
  | inr (_, there) ↦ rw (emplace, there) refl
]

eligible-Stays :
    (n n' : PublishNamespaceHandler) (row : FlatTrack)
    → Stays n n'
    → is_eligible n' row ≡ false
    → is_eligible n row ≡ false
eligible-Stays n n' row stays e =
    elim (Bool-cases (is_some (lookup row.track_alias n.published_tracks))) [
      | inl there ↦
          let there' = stays.published row.track_alias there in
          rw (← stays.connection) (ground (arith, there'))
      | inr absent ↦ ground arith
    ]

pub takes_all-Stays :
    (n n' : PublishNamespaceHandler) (active : Map ℕ ℕ) (rows : List FlatTrack)
    → Stays n n'
    → takes_all n' active rows ≡ true
    → takes_all n active rows ≡ true
takes_all-Stays n n' active [] stays e = refl
takes_all-Stays n n' active (row ∷ rows) stays e =
    let rest : takes_all n' active rows ≡ true = ground arith in
    let more = takes_all-Stays n n' active rows stays rest in
    elim (Bool-cases (is_eligible n' row)) [
      | inl eligible ↦
          let selected : is_some (lookup row.track_alias active) ≡ true = ground arith in
          rw (selected, more) (ground arith)
      | inr out ↦ let out' = eligible-Stays n n' row stays out in rw (out', more) refl
    ]

-- From a selection on: the rows up to the first that is too many are gone through, each of these
-- that is eligible is selected, and nothing else is.
pub record Chosen (n : PublishNamespaceHandler) (rows : List FlatTrack) (active active' : Map ℕ ℕ)
    (limit : ℕ) : Type 0 where
  pub taken : List FlatTrack
  pub left : List FlatTrack
  pub split : rows ≡ taken ++ left
  pub every : takes_all n active' taken ≡ true
  pub kept : (ta : ℕ) → is_some (lookup ta active) ≡ true → is_some (lookup ta active') ≡ true
  pub only :
      (ta : ℕ)
      → (not (is_some (lookup ta active'))
          || (is_some (lookup ta active) || is_foreign_in n.connection_id ta taken))
        ≡ true
  pub full : (left ≡ []) ⊎ (limit ≤ length active')

-- A row that is gone through before others.
pub step-Chosen :
    (row : FlatTrack) (rows : List FlatTrack) (n n1 : PublishNamespaceHandler)
    (active active1 active' : Map ℕ ℕ) (limit : ℕ)
    → Stays n n1
    → ((ta : ℕ) → is_some (lookup ta active) ≡ true → is_some (lookup ta active1) ≡ true)
    → ((ta : ℕ)
        → (not (is_some (lookup ta active1))
            || (is_some (lookup ta active) || is_foreign n.connection_id ta row))
          ≡ true)
    → (not (is_eligible n row) || is_some (lookup row.track_alias active1)) ≡ true
    → Chosen n1 rows active1 active' limit
    → Chosen n (row ∷ rows) active active' limit
step-Chosen row rows n n1 active active1 active' limit stays grows new this c = record {
  taken = row ∷ c.taken;
  left = c.left;
  split = ap (λ rest. row ∷ rest) c.split;
  every =
      let rest = takes_all-Stays n n1 active' c.taken stays c.every in
      elim (Bool-cases (is_some (lookup row.track_alias active1))) [
        | inl selected ↦ rw (c.kept row.track_alias selected, rest) (ground arith)
        | inr out ↦
            let not_eligible : is_eligible n row ≡ false = ground arith in
            rw (not_eligible, rest) refl
      ];
  kept = λ ta e. c.kept ta (grows ta e);
  only = λ ta.
      let later = rw stays.connection at c.only ta in
      let now = new ta in ground (arith, later, now);
  full = c.full;
}
