-- ===== src/Ranking/Sorted.antt =====
-- The order of the buckets and of the tracks within a bucket.
use laps.Prelude.{ℕ, ◌≡◌, Bool, true, not, [], ◌∷◌, ◌&&◌, inl, inr, Bool-cases, ◌==◌, is_some}
use laps.Prelude.SortedMap.{lookup, erase, nat_key, pair_key, pair_blt, IsSorted, Above}
use laps.Prelude.SortedMap.Order.{Above-trans, Above-IsSorted, insert-IsSorted}
use laps.Ranking.{
  TrackEntry, OrderedTracks, TrackRanking, Moved, cons_bucket, purge_inactive, keep_bucket,
  leave_buckets, update_value,
}

keep_bucket-Above :
    (low key : ℕ × ℕ) (entry : TrackEntry) (moved : Moved)
    → pair_blt low key ≡ true
    → Above key moved.tracks
    → Above low (keep_bucket key entry moved).tracks
unfolding keep_bucket
keep_bucket-Above low key [] moved lt up = Above-trans low key moved.tracks lt up
keep_bucket-Above low key (t ∷ ts) moved lt up = (lt, up)

leave_buckets-Above :
    (track_alias prop value : ℕ) (low : ℕ × ℕ) (m : OrderedTracks)
    → Above low m
    → Above low (leave_buckets track_alias prop value m).tracks
unfolding leave_buckets
leave_buckets-Above track_alias prop value low [] up = tt
leave_buckets-Above track_alias prop value low ((key, entry) ∷ m) (lt, up) =
    let rest = leave_buckets-Above track_alias prop value key m up in
    elim (Bool-cases (pair_blt key (prop, 0))) [
      | inl below ↦ rw below ((lt, rest))
      | inr from ↦ elim (Bool-cases (key.0 == prop)) [
        | inr apart ↦ rw (from, apart) ((lt, up))
        | inl here ↦
            elim (Bool-cases (not (key.1 == value) && is_some (lookup track_alias entry))) [
              | inl leaves ↦
                  rw (from, here, leaves)
                    (keep_bucket-Above low key (erase track_alias entry) _ lt rest)
              | inr stays ↦ rw (from, here, stays) ((lt, rest))
            ]
      ]
    ]

keep_bucket-IsSorted :
    (key : ℕ × ℕ) (entry : TrackEntry) (moved : Moved)
    → Above key moved.tracks
    → IsSorted (keep_bucket key entry moved).tracks
unfolding keep_bucket
keep_bucket-IsSorted key [] moved up = Above-IsSorted key moved.tracks up
keep_bucket-IsSorted key (t ∷ ts) moved up = up

leave_buckets-IsSorted :
    (track_alias prop value : ℕ) (m : OrderedTracks)
    → IsSorted m
    → IsSorted (leave_buckets track_alias prop value m).tracks
unfolding leave_buckets
leave_buckets-IsSorted track_alias prop value [] up = tt
leave_buckets-IsSorted track_alias prop value ((key, entry) ∷ m) up =
    let rest = leave_buckets-Above track_alias prop value key m up in
    elim (Bool-cases (pair_blt key (prop, 0))) [
      | inl below ↦ rw below rest
      | inr from ↦ elim (Bool-cases (key.0 == prop)) [
        | inr apart ↦ rw (from, apart) up
        | inl here ↦
            elim (Bool-cases (not (key.1 == value) && is_some (lookup track_alias entry))) [
              | inl leaves ↦
                  rw (from, here, leaves)
                    (keep_bucket-IsSorted key (erase track_alias entry) _ rest)
              | inr stays ↦ rw (from, here, stays) rest
            ]
      ]
    ]

cons_bucket-Above :
    (low key : ℕ × ℕ) (entry : TrackEntry) (m : OrderedTracks)
    → pair_blt low key ≡ true
    → Above key m
    → Above low (cons_bucket key entry m)
cons_bucket-Above low key [] m lt up = Above-trans low key m lt up
cons_bucket-Above low key (t ∷ ts) m lt up = (lt, up)

purge_inactive-Above :
    (age tick : ℕ) (low : ℕ × ℕ) (m : OrderedTracks)
    → Above low m
    → Above low (purge_inactive age tick m).0
unfolding purge_inactive
purge_inactive-Above age tick low [] up = tt
purge_inactive-Above age tick low ((key, entry) ∷ m) (lt, up) =
    cons_bucket-Above low key _ _ lt (purge_inactive-Above age tick key m up)

cons_bucket-IsSorted :
    (key : ℕ × ℕ) (entry : TrackEntry) (m : OrderedTracks)
    → Above key m
    → IsSorted (cons_bucket key entry m)
cons_bucket-IsSorted key [] m up = Above-IsSorted key m up
cons_bucket-IsSorted key (t ∷ ts) m up = up

purge_inactive-IsSorted :
    (age tick : ℕ) (m : OrderedTracks) → IsSorted m → IsSorted (purge_inactive age tick m).0
unfolding purge_inactive
purge_inactive-IsSorted age tick [] up = tt
purge_inactive-IsSorted age tick ((key, entry) ∷ m) up =
    cons_bucket-IsSorted key _ _ (purge_inactive-Above age tick key m up)

-- `UpdateValue` keeps the buckets in the order of property and value.
pub update_value-IsSorted :
    (alive : ℕ → Bool) (track_alias prop value tick connection_id : ℕ) (r : TrackRanking)
    → IsSorted r.ordered_tracks
    → IsSorted (update_value alive track_alias prop value tick connection_id r).ordered_tracks
unfolding update_value
update_value-IsSorted alive track_alias prop value tick connection_id r s =
    purge_inactive-IsSorted r.inactive_age_ms tick _ (
      insert-IsSorted (prop, value) _ _
        (leave_buckets-IsSorted track_alias prop value r.ordered_tracks s))
