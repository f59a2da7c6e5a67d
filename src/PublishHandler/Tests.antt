-- ===== src/PublishHandler/Tests.antt =====
-- A handler that has sent an object of group 1.
use laps.Prelude.{Bool, ℕ, ◌+◌, ◌^◌, ◌≡◌, refl, true, List, [], ◌∷◌, none, some}
use laps.Prelude.Outcome.{done}
use laps.Prelude.SortedMap.{Map, lookup, insert, nat_key}
use laps.PublishHandler.{
  PublishTrackHandler, StreamInfo, Handlers, forward_published_data, sent_first_object,
  publish_namespace_object, forward_namespace_data,
}
use laps.PublishHandler.Wrapped.{publish_namespace_object-wrapped}

abbrev in_group_1 : PublishTrackHandler
in_group_1 = record {
  track_alias = some 7;
  stream_info_by_group = (1, (0, some 4) ∷ []) ∷ [];
  log = [];
}

abbrev handlers : Map ℕ ℕ
handlers = (7, 70) ∷ []

abbrev objects : Handlers
objects = (70, in_group_1) ∷ []

-- A publish marks the object that was sent, a forward leaves the streams as they are.
abbrev marked : ℕ → ℕ → List ℕ → StreamInfo → StreamInfo
marked group subgroup payload streams = insert group ((subgroup, some 0) ∷ []) streams

abbrev kept : Bool → ℕ → ℕ → List ℕ → StreamInfo → StreamInfo
kept is_new_stream group subgroup bytes streams = streams

publish_namespace_object-wrapped_example :
    (publish_namespace_object marked kept handlers 7 (1 + 2 ^ 32) 0 none (9 ∷ []) objects
      ≡ (done tt, insert 70 in_group_1 objects))
    × (forward_namespace_data marked kept handlers 7 true (1 + 2 ^ 32) 0 (8 ∷ []) objects ≡ (
      done tt,
      insert 70
          (record in_group_1 { log = forward_published_data true (1 + 2 ^ 32) 0 (8 ∷ []) ∷ [] })
          objects,
    ))
unfolding lookup sent_first_object
publish_namespace_object-wrapped_example =
    publish_namespace_object-wrapped marked kept handlers objects in_group_1 7 70 1 0 none true
      (9 ∷ []) (8 ∷ []) refl refl refl
