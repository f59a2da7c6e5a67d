-- ===== src/Ranking/Active.antt =====
-- What `UpdateValue` leaves in the buckets.
use laps.Prelude.{ℕ, ◌≡◌, ◌≢◌, ◌≤◌, ◌+◌, arith, Bool, false, [], ◌∷◌, inl, inr, Bool-cases, All}
use laps.Ranking.{
  TrackTickInfo, TrackEntry, OrderedTracks, TrackRanking, is_inactive, drop_inactive, cons_bucket,
  purge_inactive, update_value,
}

-- The age of the track at the tick is not above the limit.
abbrev pub IsActive : ℕ → ℕ → ℕ × TrackTickInfo → Type 0
IsActive age tick (_, info) = tick ≤ info.latest_tick + age

-- A bucket with a track, all of whose tracks are active.
abbrev pub IsActiveBucket : ℕ → ℕ → (ℕ × ℕ) × TrackEntry → Type 0
IsActiveBucket age tick (key, entry) = (entry ≢ []) × All (IsActive age tick) entry

kept-IsActive :
    (age tick : ℕ) (info : TrackTickInfo)
    → is_inactive age tick info ≡ false
    → tick ≤ info.latest_tick + age
unfolding is_inactive
kept-IsActive age tick info e = ground arith

drop_inactive-All :
    (age tick : ℕ) (entry : TrackEntry) → All (IsActive age tick) (drop_inactive age tick entry).0
unfolding drop_inactive
drop_inactive-All age tick [] = tt
drop_inactive-All age tick ((a, info) ∷ entry) = elim (Bool-cases (is_inactive age tick info)) [
  | inl e ↦ rw e (drop_inactive-All age tick entry)
  | inr e ↦ rw e (kept-IsActive age tick info e, drop_inactive-All age tick entry)
]

cons_bucket-All :
    (age tick : ℕ) (key : ℕ × ℕ) (entry : TrackEntry) (m : OrderedTracks)
    → All (IsActive age tick) entry
    → All (IsActiveBucket age tick) m
    → All (IsActiveBucket age tick) (cons_bucket key entry m)
cons_bucket-All age tick key [] m h hs = hs
cons_bucket-All age tick key (t ∷ ts) m h hs = (((λ e. absurd (cc)), h), hs)

purge_inactive-All :
    (age tick : ℕ) (m : OrderedTracks) → All (IsActiveBucket age tick) (purge_inactive age tick m).0
unfolding purge_inactive
purge_inactive-All age tick [] = tt
purge_inactive-All age tick ((key, entry) ∷ rest) =
    cons_bucket-All age tick key _ _ (drop_inactive-All age tick entry)
      (purge_inactive-All age tick rest)

-- After `UpdateValue` at a tick no bucket is empty, and for every track in a bucket the tick is at
-- most its latest tick plus the age for which a track may be silent.
pub update_value-IsActiveBucket :
    (alive : ℕ → Bool) (track_alias prop value tick connection_id : ℕ) (r : TrackRanking)
    → All
        (IsActiveBucket r.inactive_age_ms tick)
        (update_value alive track_alias prop value tick connection_id r).ordered_tracks
unfolding update_value
update_value-IsActiveBucket alive track_alias prop value tick connection_id r =
    purge_inactive-All r.inactive_age_ms tick _
