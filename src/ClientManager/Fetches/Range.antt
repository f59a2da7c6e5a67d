-- ===== src/ClientManager/Fetches/Range.antt =====
-- The objects that a fetch sends from the cache: those between the start and the end.
use laps.Prelude.{
  ℕ, ◌≡◌, ltb, leb, ◌==◌, Bool, true, false, ◌&&◌, ◌||◌, List, [], ◌∷◌, ◌++◌, Option, if◌then◌else◌,
  All,
}
use laps.Prelude.SortedMap.{nat_key}
use laps.Prelude.SortedMap.Pairs.{lex_key}
use laps.SubscribeHandler.{Location}
use laps.ClientManager.Fetches.{
  CacheObject, FetchEndLocation, Flags, Walk, before_start, beyond, walk_group,
}

module _ (conn request_id : ℕ) (start : Location) (last : FetchEndLocation) where
  abbrev out_of_range : CacheObject → Bool
  out_of_range o =
      before_start conn request_id start last o || beyond conn request_id start last last.object o

  -- The objects of a list that the range takes.
  unfoldable pub in_range : List CacheObject → List CacheObject
  in_range [] = []
  in_range (o ∷ rest) = let more = in_range rest in if out_of_range o then more else o ∷ more

  -- Ascending by group, and by number within a group, up to the last group of the range.
  abbrev pub After : CacheObject → CacheObject → Type 0
  After o p =
      (ltb o.group_id p.group_id || (o.group_id == p.group_id && ltb o.object_id p.object_id))
      ≡ true

  unfoldable pub IsAscending : List CacheObject → Type 0
  IsAscending [] = Unit {0}
  IsAscending (o ∷ rest) =
      (leb o.group_id last.group ≡ true) × All (After o) rest × IsAscending rest

  unfoldable pub flatten : List (List CacheObject) → List CacheObject
  flatten [] = []
  flatten (group ∷ rest) = group ++ flatten rest

  abbrev run : List CacheObject → Walk → Walk
  run = walk_group conn request_id start last

  abbrev past : Option ℕ → CacheObject → Bool
  past = beyond conn request_id start last

  -- A step of a fetch whose flag is down.
  abbrev pub stepped : CacheObject → List CacheObject → Flags → Walk
  stepped o sent flags =
      if before_start conn request_id start last o
      then record { on = true; sent = sent; flags = flags }
      else if past last.object o
      then record { on = false; sent = sent; flags = flags }
      else record { on = true; sent = sent ++ (o ∷ []); flags = flags }
