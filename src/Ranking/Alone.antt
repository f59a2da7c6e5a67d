-- ===== src/Ranking/Alone.antt =====
-- In which buckets a track is after `UpdateValue`.
use laps.Prelude.{
  ℕ, ◌≡◌, ◌<◌, refl, sym, ◌∙◌, Bool, true, false, not, [], ◌∷◌, none, ◌&&◌, arith, inl, inr,
  Bool-cases, All, ◌==◌, is_some, Option-cases,
}
use laps.Prelude.SortedMap.{
  lookup, insert, erase, nat_key, pair_key, pair_beq, pair_blt, lookup-erase_self, IsSorted, Above,
}
use laps.Ranking.{
  TrackEntry, OrderedTracks, TrackRanking, Moved, is_inactive, drop_inactive, cons_bucket,
  purge_inactive, keep_bucket, leave_buckets, update_value,
}

-- The track is not in the bucket, if the bucket is one of the property for another value.
abbrev pub IsElsewhere : ℕ → ℕ → ℕ → (ℕ × ℕ) × TrackEntry → Type 0
IsElsewhere track_alias prop value (key, entry) =
    (key.0 == prop) ≡ true → (key.1 == value) ≡ false → lookup track_alias entry ≡ none

higher_keys :
    (track_alias prop value : ℕ) (key : ℕ × ℕ) (m : OrderedTracks)
    → prop < key.0
    → Above key m
    → All (IsElsewhere track_alias prop value) m
higher_keys track_alias prop value key [] h s = tt
higher_keys track_alias prop value key ((next, entry) ∷ m) h (lt, s) =
    let higher : prop < next.0 = ground arith in
    ((λ same other. absurd (ground arith)), higher_keys track_alias prop value next m higher s)

keep_bucket-All :
    (track_alias prop value : ℕ) (key : ℕ × ℕ) (entry : TrackEntry) (moved : Moved)
    → lookup track_alias entry ≡ none
    → All (IsElsewhere track_alias prop value) moved.tracks
    → All (IsElsewhere track_alias prop value) (keep_bucket key entry moved).tracks
unfolding keep_bucket
keep_bucket-All track_alias prop value key [] moved gone all = all
keep_bucket-All track_alias prop value key (t ∷ ts) moved gone all = ((λ _ _. gone), all)

not_in :
    (value : ℕ) (key : ℕ × ℕ) (entry : TrackEntry) (track_alias : ℕ)
    → (not (key.1 == value) && is_some (lookup track_alias entry)) ≡ false
    → (key.1 == value) ≡ false
    → lookup track_alias entry ≡ none
not_in value key entry track_alias e other = elim (Option-cases (lookup track_alias entry)) [
  | inl absent ↦ absent
  | inr (info, present) ↦ absurd (ground (arith, present))
]

tail-IsSorted : (key : ℕ × ℕ) (m : OrderedTracks) → Above key m → IsSorted m
tail-IsSorted key [] s = tt
tail-IsSorted key ((next, entry) ∷ m) (lt, s) = s

leave_buckets-All :
    (track_alias prop value : ℕ) (m : OrderedTracks)
    → IsSorted m
    → All (IsElsewhere track_alias prop value) (leave_buckets track_alias prop value m).tracks
unfolding leave_buckets
leave_buckets-All track_alias prop value [] s = tt
leave_buckets-All track_alias prop value ((key, entry) ∷ m) s =
    let rest = leave_buckets-All track_alias prop value m (tail-IsSorted key m s) in
    elim (Bool-cases (pair_blt key (prop, 0))) [
      | inl below ↦ rw below (((λ same other. absurd (ground arith)), rest))
      | inr from ↦ elim (Bool-cases (key.0 == prop)) [
        | inr apart ↦
            rw (from, apart)
              ((
                (λ same other. absurd (ground arith)),
                higher_keys track_alias prop value key m (ground arith) s,
              ))
        | inl here ↦
            elim (Bool-cases (not (key.1 == value) && is_some (lookup track_alias entry))) [
              | inl leaves ↦
                  rw (from, here, leaves)
                    (keep_bucket-All track_alias prop value key (erase track_alias entry) _
                      (lookup-erase_self track_alias entry) rest)
              | inr stays ↦
                  rw (from, here, stays)
                    (((λ _ other. not_in value key entry track_alias stays other), rest))
            ]
      ]
    ]

insert-All :
    (track_alias prop value : ℕ) (entry : TrackEntry) (m : OrderedTracks)
    → All (IsElsewhere track_alias prop value) m
    → All (IsElsewhere track_alias prop value) (insert (prop, value) entry m)
unfolding insert
insert-All track_alias prop value entry [] all = ((λ same other. absurd (ground arith)), tt)
insert-All track_alias prop value entry ((key, old) ∷ m) all =
    let new : IsElsewhere track_alias prop value ((prop, value), entry) =
      λ same other. absurd (ground arith) in
    elim (Bool-cases (pair_beq key (prop, value))) [
      | inl same ↦ rw same ((new, all.1))
      | inr other ↦ elim (Bool-cases (pair_blt (prop, value) key)) [
        | inl below ↦ rw (other, below) ((new, all))
        | inr above ↦ rw (other, above) ((all.0, insert-All track_alias prop value entry m all.1))
      ]
    ]

drop_inactive-none :
    (age tick track_alias : ℕ) (entry : TrackEntry)
    → lookup track_alias entry ≡ none
    → lookup track_alias (drop_inactive age tick entry).0 ≡ none
unfolding drop_inactive lookup
drop_inactive-none age tick track_alias [] e = refl
drop_inactive-none age tick track_alias ((a, info) ∷ entry) e =
    elim (Bool-cases (a == track_alias)) [
      | inl same ↦ absurd (ground (arith, e, same))
      | inr other ↦
          let rest = drop_inactive-none age tick track_alias entry (sym (rw other refl) ∙ e) in
          elim (Bool-cases (is_inactive age tick info)) [
            | inl old ↦ rw old rest
            | inr new ↦ rw (new, other) rest
          ]
    ]

cons_bucket-All :
    (track_alias prop value : ℕ) (key : ℕ × ℕ) (entry : TrackEntry) (m : OrderedTracks)
    → IsElsewhere track_alias prop value (key, entry)
    → All (IsElsewhere track_alias prop value) m
    → All (IsElsewhere track_alias prop value) (cons_bucket key entry m)
cons_bucket-All track_alias prop value key [] m h all = all
cons_bucket-All track_alias prop value key (t ∷ ts) m h all = (h, all)

purge_inactive-All :
    (age tick track_alias prop value : ℕ) (m : OrderedTracks)
    → All (IsElsewhere track_alias prop value) m
    → All (IsElsewhere track_alias prop value) (purge_inactive age tick m).0
unfolding purge_inactive
purge_inactive-All age tick track_alias prop value [] all = tt
purge_inactive-All age tick track_alias prop value ((key, entry) ∷ m) all =
    cons_bucket-All track_alias prop value key _ _
      (λ same other. drop_inactive-none age tick track_alias entry (all.0 same other))
      (purge_inactive-All age tick track_alias prop value m all.1)

-- After `UpdateValue` on sorted buckets, the track is in no bucket of the property for another
-- value.
pub update_value-IsElsewhere :
    (alive : ℕ → Bool) (track_alias prop value tick connection_id : ℕ) (r : TrackRanking)
    → IsSorted r.ordered_tracks
    → All
        (IsElsewhere track_alias prop value)
        (update_value alive track_alias prop value tick connection_id r).ordered_tracks
unfolding update_value
update_value-IsElsewhere alive track_alias prop value tick connection_id r s =
    purge_inactive-All r.inactive_age_ms tick track_alias prop value _ (
      insert-All track_alias prop value _ _
        (leave_buckets-All track_alias prop value r.ordered_tracks s))
