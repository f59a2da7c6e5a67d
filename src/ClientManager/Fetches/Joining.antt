-- ===== src/ClientManager/Fetches/Joining.antt =====
-- The groups that a joining fetch asks for.
use laps.Prelude.{◌-◌, ◌≡◌, refl, ltb, true, false, none, some, if◌then◌else◌, arith}
use laps.SubscribeHandler.{Location}
use laps.ClientManager.{Reason, no_objects}
use laps.ClientManager.Fetches.{
  Cache, FetchEndLocation, JoiningFetchAttributes, has_no_groups, largest_in, range_reason,
  cache_reason, fetch_received, joining_start_of, joining_fetch_received,
}

-- A fetch whose range is not refused is answered by what the cache has of it.
fetch_received-ok :
    (cache : Cache) (largest start : Location) (last : FetchEndLocation)
    → largest_in (some cache) ≡ some largest
    → ltb last.group start.group ≡ false
    → ltb largest.group start.group ≡ false
    → fetch_received (some cache) start last ≡ (
      if has_no_groups (cache.get start.group last.group) then no_objects else Reason.ok,
      cache.get start.group last.group,
    )
unfolding fetch_received range_reason cache_reason
fetch_received-ok cache largest start last known ordered reached =
    rw (known, range_reason, ordered, reached) refl

-- A relative joining fetch of a track with objects takes the groups from as many back as it asks
-- for, or from group 0 where there are not so many, to the largest; its range is never refused.
pub joining_fetch_received-relative :
    (attrs : JoiningFetchAttributes) (cache : Cache) (largest : Location)
    → attrs.relative ≡ true
    → largest_in (some cache) ≡ some largest
    → let groups = cache.get (largest.group - attrs.joining_start) largest.group in
      joining_fetch_received attrs (some cache)
      ≡ (if has_no_groups groups then no_objects else Reason.ok, groups)
unfolding joining_fetch_received
joining_fetch_received-relative attrs cache largest relative known =
    rw (joining_fetch_received, known, start attrs relative)
      (fetch_received-ok cache largest
        (record { group = largest.group - attrs.joining_start; object = 0 })
        (record { group = largest.group; object = none }) known (ground arith) (ground arith))
  where
    start :
        (attrs : JoiningFetchAttributes)
        → attrs.relative ≡ true
        → joining_start_of attrs largest ≡ largest.group - attrs.joining_start
    start attrs relative = ground (arith, relative)
