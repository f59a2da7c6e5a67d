-- ===== src/ClientManager/Fetches.antt =====
-- Fetches of src/client_manager.cc: the answer to a fetch, the walk over the cache, and the wait
-- for the publisher.
use laps.Prelude.{
  ℕ, zero, suc, ◌+◌, ◌-◌, ◌==◌, ltb, leb, Bool, true, false, not, ◌&&◌, ◌||◌, List, [], ◌∷◌, ◌++◌,
  Option, none, some, if◌then◌else◌, map, is_some,
}
use laps.Prelude.Outcome.{Outcome, done, stuck, ◌>>=◌}
use laps.Prelude.SortedMap.{Map, lower_bound, lookup, insert, erase, nat_key}
use laps.Prelude.SortedMap.Pairs.{lex_key}
use laps.SubscribeHandler.{Location}
use laps.ClientManager.{Reason, no_objects, invalid_range, internal_error, try_emplace}
pub mod Joining
pub mod Range
pub mod Wait

-- `quicr::messages::FetchEndLocation`.
pub record FetchEndLocation : Type 0 where
  pub group : ℕ
  pub object : Option ℕ

-- An object of the cache: its group and number, and its data.
pub record CacheObject : Type 0 where
  pub group_id : ℕ
  pub object_id : ℕ
  pub payload : List ℕ

-- `quicr::Cache` of one track: the newest group, and the groups of a range.
pub record Cache : Type 0 where
  pub last : Option (List CacheObject)
  pub get : ℕ → ℕ → List (List CacheObject)

-- `*std::prev(end())` of a group.
unfoldable pub last_of : List CacheObject → Option Location
last_of [] = none
last_of (o ∷ []) = some (record { group = o.group_id; object = o.object_id })
last_of (_ ∷ o ∷ rest) = last_of (o ∷ rest)

unfoldable pub largest_in : Option Cache → Option Location
largest_in none = none
largest_in (some c) = elim c.last [ none ↦ none | some group ↦ last_of group ]

abbrev pub cached : Option Cache → ℕ → ℕ → List (List CacheObject)
cached none first last = []
cached (some c) first last = c.get first last

abbrev pub has_no_groups : List (List CacheObject) → Bool
has_no_groups [] = true
has_no_groups (_ ∷ _) = false

unfoldable pub range_reason : Option Location → Location → FetchEndLocation → Reason
range_reason none start last = no_objects
range_reason (some largest) start last =
    if ltb last.group start.group || ltb largest.group start.group then invalid_range else Reason.ok

unfoldable pub cache_reason : Reason → List (List CacheObject) → Reason
cache_reason Reason.ok entries = if has_no_groups entries then no_objects else Reason.ok
cache_reason r entries = r

-- Before the thread starts: the answer so far, and the groups that it walks over.
unfoldable pub fetch_received :
    Option Cache → Location → FetchEndLocation → Reason × List (List CacheObject)
fetch_received cache start last =
    let entries = cached cache start.group last.group in
    (cache_reason (range_reason (largest_in cache) start last) entries, entries)

-- The flags of the fetches, by connection and request.
abbrev pub Flags : Type 0
Flags = Map (ℕ × ℕ) Bool

unfoldable pub begin_fetch : ℕ → ℕ → Flags → Flags
begin_fetch conn request_id flags =
    let who : ℕ × ℕ = (conn, request_id) in try_emplace who false flags

unfoldable pub fetch_cancel_received : ℕ → ℕ → Flags → Flags
fetch_cancel_received conn request_id flags =
    let who : ℕ × ℕ = (conn, request_id) in
    if is_some (lookup who flags) then flags else insert who true flags

-- `operator[]` of the flags: the value, and the table with the entry that a missing key gets.
abbrev pub flag_of : Option Bool → Bool
flag_of none = false
flag_of (some b) = b

-- The walk over the objects: whether it goes on, and the objects that are published, in order.
-- An exception of a handler is caught for each object.
pub record Walk : Type 0 where
  pub on : Bool
  pub sent : List CacheObject
  pub flags : Flags

module _ (conn request_id : ℕ) (start : Location) (last : FetchEndLocation) where
  abbrev pub before_start : CacheObject → Bool
  before_start o = start.group == o.group_id && ltb o.object_id start.object

  abbrev pub beyond : Option ℕ → CacheObject → Bool
  beyond none o = false
  beyond (some object) o = o.group_id == last.group && ltb object o.object_id

  unfoldable pub walk_object : CacheObject → Walk → Walk
  walk_object o w =
      let who : ℕ × ℕ = (conn, request_id) in
      if flag_of (lookup who w.flags)
      then record w { on = false; flags = erase who w.flags }
      else let w' = record w { flags = try_emplace who false w.flags } in
        if before_start o
        then w'
        else if beyond last.object o
        then record w' { on = false }
        else record w' { sent = w.sent ++ (o ∷ []) }

  unfoldable pub walk_group : List CacheObject → Walk → Walk
  walk_group [] w = w
  walk_group (o ∷ rest) w = if w.on then walk_group rest (walk_object o w) else w

  unfoldable pub walk_cache : List (List CacheObject) → Walk → Walk
  walk_cache [] w = w
  walk_cache (group ∷ rest) w = walk_cache rest (walk_group group w)

-- The publisher that is asked: the first row of the track. Where the first row from there on is
-- another track's, the answer changes. Connection 0, of the peers, counts as none.
unfoldable pub find_publisher : ℕ → Map (ℕ × ℕ) ℕ → Reason → ℕ × Reason
find_publisher hash pub_subscribes rc =
    let first : ℕ × ℕ = (hash, 0) in found (lower_bound first pub_subscribes)
  where
    found : Map (ℕ × ℕ) ℕ → ℕ × Reason
    found [] = (0, rc)
    found ((at, _) ∷ _) = if at.0 == hash then (at.1, rc) else (0, no_objects)

-- `quicr::FetchTrackHandler::Status`, as far as it is read.
pub data FetchStatus : Type 0 where
  pending_response not_subscribed done_by_fin ok error other : FetchStatus

abbrev pub is_pending_response : FetchStatus → Bool
is_pending_response pending_response = true
is_pending_response _ = false

abbrev pub is_not_subscribed : FetchStatus → Bool
is_not_subscribed not_subscribed = true
is_not_subscribed _ = false

-- The two times that a turn of the wait reads the status.
abbrev pub is_waiting : FetchStatus × FetchStatus → Bool
is_waiting (first, second) = is_pending_response first || is_not_subscribed second

-- `for (to = 0; to < max; to += 5)`: the counter at which the wait ends, for the two readings of
-- the status at each turn.
unfoldable pub wait_for_upstream : (ℕ → FetchStatus × FetchStatus) → ℕ → ℕ → ℕ → Outcome ℕ
wait_for_upstream status max_ms zero to = stuck
wait_for_upstream status max_ms (suc fuel) to =
    let rest = wait_for_upstream status max_ms fuel (to + 5) in
    if ltb to max_ms && is_waiting (status to) then rest else done to

unfoldable pub status_reason : FetchStatus → Reason
status_reason done_by_fin = Reason.ok
status_reason FetchStatus.ok = Reason.ok
status_reason error = no_objects
status_reason _ = internal_error

-- The answer of a fetch that the cache cannot serve, with the status after the wait, and the fuel.
unfoldable pub upstream_reason :
    ℕ
    → Map (ℕ × ℕ) ℕ
    → Reason
    → (ℕ → FetchStatus × FetchStatus)
    → (ℕ → FetchStatus)
    → ℕ
    → ℕ
    → Outcome Reason
upstream_reason hash pub_subscribes rc status answer max_ms fuel =
    let (publisher, rc') = find_publisher hash pub_subscribes rc in
    if publisher == 0
    then done rc'
    else (wait_for_upstream status max_ms fuel 0 >>= λ to. done (status_reason (answer to)))

pub record JoiningFetchAttributes : Type 0 where
  pub relative : Bool
  pub joining_start : ℕ

abbrev pub joining_start_of : JoiningFetchAttributes → Location → ℕ
joining_start_of attrs largest =
    if attrs.relative
    then (if ltb attrs.joining_start largest.group then largest.group - attrs.joining_start else 0)
    else attrs.joining_start

-- The answer that is sent at once where the track has no objects, or the fetch that it becomes.
unfoldable pub joining_fetch_received :
    JoiningFetchAttributes → Option Cache → Reason × List (List CacheObject)
joining_fetch_received attrs cache = elim (largest_in cache) [
  | none ↦ (invalid_range, [])
  | some largest ↦
      fetch_received cache (record { group = joining_start_of attrs largest; object = 0 })
        (record { group = largest.group; object = none })
]
