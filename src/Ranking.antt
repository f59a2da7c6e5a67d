-- ===== src/Ranking.antt =====
-- src/track_ranking.h: the values of the tracks, the flat list in the order of their ranks, and
-- the handlers that are told. Numbers are 64 bits wide.
use laps.Prelude.{
  ℕ, ◌+◌, ◌-◌, ◌%◌, ◌^◌, Bool, true, false, not, List, [], ◌∷◌, ◌++◌, Option, none, some, ◌&&◌,
  ◌||◌, ltb, leb, ◌==◌, if◌then◌else◌, is_some, reverse,
}
use laps.Prelude.SortedMap.{Map, lookup, insert, erase, lower_bound, nat_key, pair_key, pair_blt}
pub mod Active
pub mod Alone
pub mod Sorted
mod Tests

pub record TrackTickInfo : Type 0 where
  pub insert_seq_num : ℕ
  pub latest_tick : ℕ

abbrev pub TrackEntry : Type 0
TrackEntry = Map ℕ TrackTickInfo

-- Key: property and value.
abbrev pub OrderedTracks : Type 0
OrderedTracks = Map (ℕ × ℕ) TrackEntry

-- A tuple of the flat list.
pub record FlatTrack : Type 0 where
  pub track_alias : ℕ
  pub insert_seq_num : ℕ
  pub latest_tick : ℕ
  pub connection_id : ℕ

pub record TrackRanking : Type 0 where
  pub max_tracks_selected : ℕ
  pub inactive_age_ms : ℕ
  pub update_value_seq_num : ℕ
  pub ordered_tracks : OrderedTracks
  pub flat_track_list : List FlatTrack
  pub track_connections : Map ℕ ℕ
  -- Key: namespace hash, then connection. Value: a weak pointer to a handler, a number.
  pub ns_handlers : Map ℕ (Map ℕ ℕ)

-- A walk over buckets: what is left of them, and whether the flags were raised.
pub record Moved : Type 0 where
  pub tracks : OrderedTracks
  pub needs_rebuild : Bool
  pub value_decreased : Bool

-- A bucket put back in front, and not if it became empty: then `continue` passes over
-- `needs_rebuild = true`.
unfoldable pub keep_bucket : ℕ × ℕ → TrackEntry → Moved → Moved
keep_bucket key [] moved = moved
keep_bucket key (t ∷ ts) moved = record moved {
  tracks = (key, t ∷ ts) ∷ moved.tracks;
  needs_rebuild = true;
}

-- The loop that takes the track out of the other buckets of the property, from `{ prop, 0 }` on
-- until the first key of another property.
unfoldable pub leave_buckets : ℕ → ℕ → ℕ → OrderedTracks → Moved
leave_buckets track_alias prop value [] = record {
  tracks = [];
  needs_rebuild = false;
  value_decreased = false;
}
leave_buckets track_alias prop value ((key, entry) ∷ rest) =
    let moved = leave_buckets track_alias prop value rest in
    let kept = record moved { tracks = (key, entry) ∷ moved.tracks } in
    if pair_blt key (prop, 0)
    then kept
    else if key.0 == prop
    then (if not (key.1 == value) && is_some (lookup track_alias entry)
        then keep_bucket key (erase track_alias entry)
            (record moved { value_decreased = ltb value key.1 || moved.value_decreased })
        else kept)
    else record { tracks = (key, entry) ∷ rest; needs_rebuild = false; value_decreased = false }

-- `max / 2 - n`, or `1 << 63 | n`.
unfoldable pub insert_seq : Bool → ℕ → ℕ
insert_seq value_decreased n =
    if value_decreased
    then (2 ^ 63 - 1 + (2 ^ 64 - n)) % 2 ^ 64
    else if ltb n (2 ^ 63)
    then 2 ^ 63 + n
    else n

abbrev pub entry_of : Option TrackEntry → TrackEntry
entry_of none = []
entry_of (some entry) = entry

-- The track in its bucket.
unfoldable pub put_track : ℕ → ℕ → ℕ → TrackEntry → TrackEntry
put_track track_alias seq_num tick entry = elim (lookup track_alias entry) [
  | none ↦ insert track_alias (record { insert_seq_num = seq_num; latest_tick = tick }) entry
  | some info ↦ insert track_alias (record info { latest_tick = tick }) entry
]

unfoldable pub is_inactive : ℕ → ℕ → TrackTickInfo → Bool
is_inactive age tick info = leb info.latest_tick tick && ltb age (tick - info.latest_tick)

-- The tracks of a bucket that are not inactive, and whether one was.
unfoldable pub drop_inactive : ℕ → ℕ → TrackEntry → TrackEntry × Bool
drop_inactive age tick [] = ([], false)
drop_inactive age tick ((track_alias, info) ∷ entry) =
    let (left, dropped) = drop_inactive age tick entry in
    if is_inactive age tick info then (left, true) else ((track_alias, info) ∷ left, dropped)

abbrev pub cons_bucket : ℕ × ℕ → TrackEntry → OrderedTracks → OrderedTracks
cons_bucket key [] m = m
cons_bucket key (t ∷ ts) m = (key, t ∷ ts) ∷ m

-- The loop over all buckets.
unfoldable pub purge_inactive : ℕ → ℕ → OrderedTracks → OrderedTracks × Bool
purge_inactive age tick [] = ([], false)
purge_inactive age tick ((key, entry) ∷ rest) =
    let (left, dropped) = drop_inactive age tick entry in
    let (rest', dropped') = purge_inactive age tick rest in
    (cons_bucket key left rest', dropped || dropped')

-- The order within a bucket.
unfoldable pub precedes : FlatTrack → FlatTrack → Bool
precedes a b =
    if a.insert_seq_num == b.insert_seq_num
    then ltb b.track_alias a.track_alias
    else ltb a.insert_seq_num b.insert_seq_num

unfoldable pub insert_track : FlatTrack → List FlatTrack → List FlatTrack
insert_track a [] = a ∷ []
insert_track a (b ∷ bs) = if precedes b a then b ∷ insert_track a bs else a ∷ b ∷ bs

-- `std::ranges::sort`. The aliases of a bucket are different, so that the order is total.
unfoldable pub sort_tracks : List FlatTrack → List FlatTrack
sort_tracks [] = []
sort_tracks (a ∷ tracks) = insert_track a (sort_tracks tracks)

abbrev pub connection_of : Option ℕ → ℕ
connection_of none = 0
connection_of (some id) = id

-- `track_connections_[ta]`: 0 where there is none.
unfoldable pub flat_entry : Map ℕ ℕ → TrackEntry → List FlatTrack
flat_entry connections [] = []
flat_entry connections ((ta, info) ∷ entry) =
    record {
      track_alias = ta;
      insert_seq_num = info.insert_seq_num;
      latest_tick = info.latest_tick;
      connection_id = connection_of (lookup ta connections);
    }
    ∷ flat_entry connections entry

-- The buckets up to `upper_bound({ prop, max })`, the last one first.
unfoldable pub flat_buckets : Map ℕ ℕ → ℕ → OrderedTracks → List FlatTrack
flat_buckets connections prop [] = []
flat_buckets connections prop ((key, entry) ∷ rest) =
    if pair_blt (prop, 2 ^ 64 - 1) key
    then []
    else flat_buckets connections prop rest ++ sort_tracks (flat_entry connections entry)

-- The first tuple of the track.
unfoldable pub touch_flat : ℕ → ℕ → ℕ → List FlatTrack → List FlatTrack
touch_flat track_alias tick connection_id [] = []
touch_flat track_alias tick connection_id (f ∷ fs) =
    if f.track_alias == track_alias
    then record f { latest_tick = tick; connection_id = connection_id } ∷ fs
    else f ∷ touch_flat track_alias tick connection_id fs

-- The handlers of a namespace that are still there.
unfoldable pub live_handlers : (ℕ → Bool) → Map ℕ ℕ → Map ℕ ℕ
live_handlers alive [] = []
live_handlers alive ((connection, h) ∷ hs) =
    if alive h then (connection, h) ∷ live_handlers alive hs else live_handlers alive hs

abbrev pub cons_handlers : ℕ → Map ℕ ℕ → Map ℕ (Map ℕ ℕ) → Map ℕ (Map ℕ ℕ)
cons_handlers ns [] m = m
cons_handlers ns (h ∷ hs) m = (ns, h ∷ hs) ∷ m

-- The last loop. Each handler that is left is called with the flat list.
unfoldable pub notify : (ℕ → Bool) → Map ℕ (Map ℕ ℕ) → Map ℕ (Map ℕ ℕ)
notify alive [] = []
notify alive ((ns, hs) ∷ rest) = cons_handlers ns (live_handlers alive hs) (notify alive rest)

-- The value of a track for a property, at a tick, from a connection. What the handlers are called
-- with is the flat list of the result, and who is called are the handlers of the result.
unfoldable pub update_value : (ℕ → Bool) → ℕ → ℕ → ℕ → ℕ → ℕ → TrackRanking → TrackRanking
update_value alive track_alias prop value tick connection_id r =
    let n = (r.update_value_seq_num + 1) % 2 ^ 64 in
    let moved = leave_buckets track_alias prop value r.ordered_tracks in
    let bucket = lookup (prop, value) moved.tracks in
    let entry = put_track track_alias (insert_seq moved.value_decreased n) tick (entry_of bucket) in
    let connections = insert track_alias connection_id r.track_connections in
    let (tracks, dropped) =
      purge_inactive r.inactive_age_ms tick (insert (prop, value) entry moved.tracks) in
    record r {
      update_value_seq_num = n;
      ordered_tracks = tracks;
      track_connections = connections;
      flat_track_list =
          if (moved.needs_rebuild || not (is_some bucket)) || dropped
          then flat_buckets connections prop (lower_bound (prop, 0) tracks)
          else touch_flat track_alias tick connection_id r.flat_track_list;
      ns_handlers = notify alive r.ns_handlers;
    }

unfoldable pub set_max_selected : ℕ → TrackRanking → TrackRanking
set_max_selected max r = record r { max_tracks_selected = max }

unfoldable pub set_inactive_age : ℕ → TrackRanking → TrackRanking
set_inactive_age age_ms r = record r { inactive_age_ms = age_ms }

-- What a handler that is still there answers: the hash of its prefix and its connection.
pub record HandlerInfo : Type 0 where
  pub prefix_hash : ℕ
  pub connection_id : ℕ

abbrev pub handlers_at : Option (Map ℕ ℕ) → Map ℕ ℕ
handlers_at none = []
handlers_at (some hs) = hs

abbrev pub try_emplace : ℕ → ℕ → Map ℕ ℕ → Map ℕ ℕ
try_emplace k v m = if is_some (lookup k m) then m else insert k v m

unfoldable pub add_namespace_handler : (ℕ → Option HandlerInfo) → ℕ → TrackRanking → TrackRanking
add_namespace_handler lock handler r = elim (lock handler) [
  | none ↦ r
  | some h ↦ record r {
    ns_handlers =
        insert h.prefix_hash
          (try_emplace h.connection_id handler (handlers_at (lookup h.prefix_hash r.ns_handlers)))
          r.ns_handlers;
  }
]

-- The map of the namespace stays, also where it is empty.
unfoldable pub remove_namespace_handler : (ℕ → Option HandlerInfo) → ℕ → TrackRanking → TrackRanking
remove_namespace_handler lock handler r = elim (lock handler) [
  | none ↦ r
  | some h ↦ record r {
    ns_handlers =
        insert h.prefix_hash
          (erase h.connection_id (handlers_at (lookup h.prefix_hash r.ns_handlers))) r.ns_handlers;
  }
]
