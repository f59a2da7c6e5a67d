-- ===== src/InfoBase/Announces/Ids.antt =====
-- What `GetAnnounceIds` finds.
use laps.Prelude.{
  ℕ, ◌≡◌, refl, ◌∙◌, Bool, true, false, not, List, [], ◌∷◌, ◌||◌, ◌==◌, inl, inr, Bool-cases,
  is_some, arith,
}
use laps.Prelude.Outcome.{done}
use laps.Prelude.SortedSet.{is_empty, contains, emplace, contains-emplace}
use laps.Prelude.SortedMap.{Map, lookup, nat_key}
use laps.InfoBase.State.{InfoBase}
use laps.InfoBase.Nested.{map_at}
use laps.InfoBase.Announces.{Hashes, add_ids, get_announce_ids}
use laps.InfoBase.Announces.Table.{announced}

add_ids-contains :
    {A : Type 0} (n : ℕ) (m : Map ℕ A) (ids : List ℕ)
    → contains n (add_ids m ids) ≡ (is_some (lookup n m) || contains n ids)
unfolding add_ids lookup
add_ids-contains n [] ids = refl
add_ids-contains n ((k, v) ∷ m) ids =
    add_ids-contains n m (emplace k ids) ∙ elim (Bool-cases (k == n)) [
      | inl same ↦ rw (contains-emplace, same) (ground arith)
      | inr other ↦ rw (contains-emplace, other) refl
    ]

or_true : (b : Bool) → (b || true) ≡ true
or_true true = refl
or_true false = refl

or_false : (b : Bool) → (b || false) ≡ b
or_false true = refl
or_false false = refl

-- An exact query of `GetAnnounceIds` returns, and its result has the source nodes that announce
-- the full name, and no other.
pub get_announce_ids-exact :
    {Namespace : Type 0} (q : Hashes Namespace) (ib : InfoBase Namespace) (name_space : Namespace)
    (name : List ℕ)
    → (ids : List ℕ) × (get_announce_ids q ib name_space name true ≡ done ids)
      × ((n : ℕ)
          → contains n ids ≡ is_some (announced ib (q.track_fullname_hash name_space name) n))
unfolding get_announce_ids
get_announce_ids-exact q ib name_space name =
    let m = map_at (lookup (q.track_fullname_hash name_space name) ib.announces) in
    (
      add_ids m [],
      rw (get_announce_ids, or_true (not (is_empty (add_ids m [])))) refl,
      λ n. add_ids-contains n m [] ∙ unfold contains in or_false (is_some (lookup n m)),
    )
