-- ===== src/ClientManager/FetchTests.antt =====
-- A track with three objects in two groups, and fetches of it.
use laps.Prelude.{
  ℕ, ◌+◌, ◌*◌, ◌≤◌, ◌<◌, ◌⊎◌, ◌≡◌, refl, true, false, List, [], ◌∷◌, some, if◌then◌else◌, arith,
}
use laps.Prelude.Outcome.{done}
use laps.SubscribeHandler.{Location}
use laps.ClientManager.{Reason, no_objects}
use laps.ClientManager.Fetches.{
  CacheObject, Cache, FetchEndLocation, Flags, FetchStatus, pending_response, wait_for_upstream,
  begin_fetch, fetch_cancel_received, has_no_groups, JoiningFetchAttributes, joining_fetch_received,
  largest_in, last_of,
}
use laps.ClientManager.Fetches.Wait.{Waits, Answers, wait_for_upstream-ends, cancel_running}
use laps.ClientManager.Fetches.Joining.{joining_fetch_received-relative}

abbrev object : ℕ → ℕ → CacheObject
object group number = record { group_id = group; object_id = number; payload = [] }

abbrev groups : List (List CacheObject)
groups = (object 1 0 ∷ object 1 1 ∷ []) ∷ (object 2 0 ∷ []) ∷ []

abbrev flags : Flags
flags = ((4, 2), false) ∷ []

abbrev start : Location
start = record { group = 1; object = 1 }

abbrev last : FetchEndLocation
last = record { group = 2; object = some 0 }

cancel_running_example : fetch_cancel_received 4 2 (begin_fetch 4 2 flags) ≡ begin_fetch 4 2 flags
cancel_running_example = cancel_running 4 2 flags

abbrev silent : ℕ → FetchStatus × FetchStatus
silent turn = (pending_response, pending_response)

wait_for_upstream-ends_example :
    (turns : ℕ) × (wait_for_upstream silent 10 3 0 ≡ done (0 + 5 * turns))
    × (0 + 5 * turns ≤ 14)
    × ((j : ℕ) → j < turns → (0 + 5 * j < 10) × Waits (silent (0 + 5 * j)))
    × ((10 ≤ 0 + 5 * turns) ⊎ Answers (silent (0 + 5 * turns)))
wait_for_upstream-ends_example = wait_for_upstream-ends silent 10 3 0 (omega arith) (omega arith)

abbrev cache : Cache
cache = record { last = some (object 2 0 ∷ []); get = λ first end. groups }

abbrev one_back : JoiningFetchAttributes
one_back = record { relative = true; joining_start = 1 }

joining_fetch_received-relative_example :
    joining_fetch_received one_back (some cache)
    ≡ (if has_no_groups groups then no_objects else Reason.ok, groups)
unfolding largest_in last_of
joining_fetch_received-relative_example =
    joining_fetch_received-relative one_back cache (record { group = 2; object = 0 }) refl refl
