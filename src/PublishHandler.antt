-- ===== src/PublishHandler.antt =====
-- src/publish_handler.h and publish_handler.cc: the handler of a track that is published to one
-- connection, and what the handler of a namespace passes on to it (publish_namespace_handler.cc).
use laps.Prelude.{
  ℕ, ◌%◌, ◌^◌, Bool, true, false, not, List, [], ◌∷◌, ◌++◌, Option, none, some, if◌then◌else◌,
  is_some,
}
use laps.Prelude.Outcome.{Outcome, done, fault}
use laps.Prelude.Action.{Action}
use laps.Prelude.SortedMap.{Map, lookup, insert, nat_key}
pub mod Wrapped
mod Tests

-- The calls of the base class and of the peer manager, the newest first.
pub data Call : Type 0 where
  set_default_track_mode : ℕ → Call
  -- Group, subgroup and what is sent.
  publish_object : ℕ → ℕ → List ℕ → Call
  forward_published_data : Bool → ℕ → ℕ → List ℕ → Call
  -- Alias, group, subgroup, and whether it is a reset.
  end_peer_subgroup : ℕ → ℕ → ℕ → Bool → Call

-- `stream_info_by_group_`: by group and subgroup, the last object that was sent.
abbrev pub StreamInfo : Type 0
StreamInfo = Map ℕ (Map ℕ (Option ℕ))

pub record PublishTrackHandler : Type 0 where
  pub track_alias : Option ℕ
  pub stream_info_by_group : StreamInfo
  pub log : List Call

abbrev pub last_in : Option (Map ℕ (Option ℕ)) → ℕ → Bool
last_in none subgroup = false
last_in (some subgroups) subgroup = elim (lookup subgroup subgroups) [
  | none ↦ false
  | some last ↦ is_some last
]

-- The arguments are integers of 32 bits.
unfoldable pub sent_first_object : ℕ → ℕ → PublishTrackHandler → Bool
sent_first_object group subgroup h =
    last_in (lookup (group % 2 ^ 32) h.stream_info_by_group) (subgroup % 2 ^ 32)

unfoldable pub subgroups_in : ℕ → Map ℕ (Option ℕ) → List (ℕ × ℕ)
subgroups_in group [] = []
subgroups_in group ((subgroup, _) ∷ rest) = (group, subgroup) ∷ subgroups_in group rest

unfoldable pub subgroups_of : StreamInfo → List (ℕ × ℕ)
subgroups_of [] = []
subgroups_of ((group, subgroups) ∷ rest) = subgroups_in group subgroups ++ subgroups_of rest

-- What the base class does to the streams at the end of a subgroup.
module _ (base_end : ℕ → ℕ → Bool → StreamInfo → StreamInfo) where
  abbrev pub told_end : Option ℕ → ℕ → ℕ → Bool → List Call → List Call
  told_end none group subgroup completed log = log
  told_end (some alias) group subgroup completed log =
      end_peer_subgroup alias group subgroup (not completed) ∷ log

  unfoldable pub end_published_subgroup : ℕ → ℕ → Bool → PublishTrackHandler → PublishTrackHandler
  end_published_subgroup group subgroup completed h = record h {
    stream_info_by_group = base_end group subgroup completed h.stream_info_by_group;
    log = told_end h.track_alias group subgroup completed h.log;
  }

  unfoldable pub end_each : List (ℕ × ℕ) → PublishTrackHandler → PublishTrackHandler
  end_each [] h = h
  end_each ((group, subgroup) ∷ rest) h =
      end_each rest (end_published_subgroup group subgroup false h)

  -- The subgroups are taken down before the first of them ends.
  unfoldable pub abrupt_close_all_subgroups : PublishTrackHandler → PublishTrackHandler
  abrupt_close_all_subgroups h = end_each (subgroups_of h.stream_info_by_group) h

-- The handlers of tracks, by their numbers.
abbrev pub Handlers : Type 0
Handlers = Map ℕ PublishTrackHandler

abbrev pub with_mode : Option ℕ → List Call → List Call
with_mode none log = log
with_mode (some mode) log = set_default_track_mode mode ∷ log

-- A handler of the namespace's `handlers_` that is found and acted on; a null pointer is followed
-- where it is none of ours.
unfoldable pub act_on :
    Map ℕ ℕ → ℕ → (PublishTrackHandler → PublishTrackHandler) → Action Handlers (Unit {0})
act_on handlers hash f objects = elim (lookup hash handlers) [
  | none ↦ (done tt, objects)
  | some object ↦ elim (lookup object objects) [
    | none ↦ (fault, objects)
    | some h ↦ (done tt, insert object (f h) objects)
  ]
]

-- What the base class does to the streams when it publishes an object and when it forwards data.
-- The status it returns is passed on and is left out here.
module _ (base_publish : ℕ → ℕ → List ℕ → StreamInfo → StreamInfo)
    (base_forward : Bool → ℕ → ℕ → List ℕ → StreamInfo → StreamInfo) (handlers : Map ℕ ℕ) where
  -- An object of a subgroup, with the mode of its track, unless the subgroup's first was sent.
  unfoldable pub publish_namespace_object :
      ℕ → ℕ → ℕ → Option ℕ → List ℕ → Action Handlers (Unit {0})
  publish_namespace_object hash group subgroup mode payload = act_on handlers hash (λ h.
      if sent_first_object group subgroup h then h else record h {
        stream_info_by_group = base_publish group subgroup payload h.stream_info_by_group;
        log = publish_object group subgroup payload ∷ with_mode mode h.log;
      })

  -- Data of a stream, once the first object of its subgroup was sent.
  unfoldable pub forward_namespace_data : ℕ → Bool → ℕ → ℕ → List ℕ → Action Handlers (Unit {0})
  forward_namespace_data hash is_new_stream group subgroup bytes = act_on handlers hash (λ h.
      if sent_first_object group subgroup h
      then record h {
        stream_info_by_group =
            base_forward is_new_stream group subgroup bytes h.stream_info_by_group;
        log = forward_published_data is_new_stream group subgroup bytes ∷ h.log;
      }
      else h)
