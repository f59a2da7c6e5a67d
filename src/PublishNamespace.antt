-- ===== src/PublishNamespace.antt =====
-- src/publish_namespace_handler.h and publish_namespace_handler.cc: the tracks that are published
-- to a subscriber of a namespace, and the choice of the top ones.
use laps.Prelude.{
  ℕ, Bool, true, false, List, [], ◌∷◌, Option, none, some, ltb, leb, ◌==◌, if◌then◌else◌, length,
}
use laps.Prelude.Outcome.{Outcome, done, fault, value}
use laps.Prelude.Action.{Action, pure, ◌>>=◌, ◌>>◌, gets, modify, outcome, when, unless, each}
use laps.Prelude.SortedMap.{Map, lookup, insert, nat_key}
use laps.Ranking.{FlatTrack}
pub mod Choice
pub mod Known
pub mod Selected
pub mod TopTracks
mod Tests

-- `quicr::PublishTrackHandler::Status`, as far as the choice reads it.
pub data Status : Type 0 where
  ok paused other : Status

-- A handler of a track.
pub record TrackHandler : Type 0 where
  pub status : Status
  pub track_alias : Option ℕ

pub record ActiveTrack : Type 0 where
  pub last_updated_tick : ℕ
  -- A weak pointer, a number.
  pub handler : ℕ

-- A call of a handler: its subgroups are closed, or the end of one of them is passed on.
pub data Call : Type 0 where
  abrupt_close : ℕ → Call
  end_subgroup_of : ℕ → ℕ → ℕ → Bool → Call

pub record PublishNamespaceHandler : Type 0 where
  pub max_tracks_selected : ℕ
  pub property_type : Option ℕ
  pub connection_id : ℕ
  -- Key: track alias.
  pub published_tracks : Map ℕ ActiveTrack
  -- `handlers_` of the base class, by track alias.
  pub handlers : Map ℕ ℕ
  -- The handlers of tracks that are alive.
  pub objects : Map ℕ TrackHandler
  -- The newest first.
  pub log : List Call

abbrev pub is_ok : Status → Bool
is_ok ok = true
is_ok _ = false

abbrev pub is_paused : Status → Bool
is_paused paused = true
is_paused _ = false

-- `emplace`: nothing changes where the key is there.
unfoldable pub emplace {ℓ} : {A : Type ℓ} → ℕ → A → Map ℕ A → Map ℕ A
emplace key a m = elim (lookup key m) [ none ↦ insert key a m | some _ ↦ m ]

unfoldable pub handler_of : ℕ → Action PublishNamespaceHandler TrackHandler
handler_of object n = elim (lookup object n.objects) [ none ↦ (fault, n) | some h ↦ (done h, n) ]

unfoldable pub set_status : ℕ → TrackHandler → Status → Action PublishNamespaceHandler (Unit {0})
set_status object h status =
    modify (λ n. record n { objects = insert object (record h { status = status }) n.objects })

unfoldable pub put_tick : ℕ → ActiveTrack → ℕ → Action PublishNamespaceHandler (Unit {0})
put_tick ta track tick = modify (λ n. record n {
  published_tracks = insert ta (record track { last_updated_tick = tick }) n.published_tracks;
})

-- The first loop of `UpdateTrackRanking`.
unfoldable pub touch : FlatTrack → Action PublishNamespaceHandler (Unit {0})
touch row n = elim (lookup row.track_alias n.published_tracks) [
  | none ↦ (done tt, n)
  | some track ↦ put_tick row.track_alias track row.latest_tick n
]

-- The tick, and what the base class does when a track is published, as far as it is read here: to
-- `handlers_`.
module _ (cur_tick : ℕ) (base_publish : ℕ → Map ℕ ℕ → Map ℕ ℕ) where
  unfoldable pub publish_track : ℕ → Action PublishNamespaceHandler (Unit {0})
  publish_track object = do
    modify (λ n. record n { handlers = base_publish object n.handlers })
    h ← handler_of object
    alias ← outcome (value h.track_alias)
    modify (λ n. record n {
      published_tracks =
          emplace alias (record { last_updated_tick = cur_tick; handler = object })
            n.published_tracks;
    })

  -- A track that was paused and is selected again.
  unfoldable pub wake : FlatTrack → ActiveTrack → Action PublishNamespaceHandler (Unit {0})
  wake row track = do
    h ← handler_of track.handler
    when (is_paused h.status) (do
      set_status track.handler h ok
      known ← gets (λ n. lookup row.track_alias n.handlers)
      elim known [
        | none ↦ publish_track track.handler
        | some _ ↦ put_tick row.track_alias track row.latest_tick
      ])

  -- The second loop: the tracks that are selected, with their ticks.
  unfoldable pub select_tracks : List FlatTrack → Map ℕ ℕ → Action PublishNamespaceHandler (Map ℕ ℕ)
  select_tracks [] active n = (done active, n)
  select_tracks (row ∷ rows) active n =
      let rest : Map ℕ ℕ → Action PublishNamespaceHandler (Map ℕ ℕ) = select_tracks rows in
      if leb n.max_tracks_selected (length active)
      then (done active, n)
      else if row.connection_id == n.connection_id
      then rest active n
      else elim (lookup row.track_alias n.published_tracks) [
        | none ↦ rest active n
        | some track ↦ (do wake row track; rest (emplace row.track_alias row.latest_tick active)) n
      ]

  -- The third loop: a track that is not selected is paused. What follows the test of the delay is
  -- commented out.
  unfoldable pub pause_track : Map ℕ ℕ → ℕ × ActiveTrack → Action PublishNamespaceHandler (Unit {0})
  pause_track active (ta, track) n = elim (lookup ta active) [
    | some _ ↦ (done tt, n)
    | none ↦ elim (lookup track.handler n.objects) [
      | none ↦ (done tt, n)
      | some h ↦
          when (is_ok h.status)
            (do
              modify (λ n. record n { log = abrupt_close track.handler ∷ n.log })
              set_status track.handler h paused)
            n
    ]
  ]

  unfoldable pub rank_tracks : List FlatTrack → Action PublishNamespaceHandler (Unit {0})
  rank_tracks rows = do
    each touch rows
    active ← select_tracks rows []
    n ← gets (λ n. n)
    when (ltb n.max_tracks_selected (length n.published_tracks))
        (each (pause_track active) n.published_tracks)

  unfoldable pub update_track_ranking : List FlatTrack → Action PublishNamespaceHandler (Unit {0})
  update_track_ranking rows n = elim n.property_type [
    | none ↦ (done tt, n)
    | some _ ↦ rank_tracks rows n
  ]

-- The handlers that are alive are told of the end of a subgroup.
unfoldable pub end_track_subgroup :
    ℕ → ℕ → Bool → ℕ × ActiveTrack → Action PublishNamespaceHandler (Unit {0})
end_track_subgroup group_id subgroup_id completed (_, track) n =
    elim (lookup track.handler n.objects) [
      | none ↦ (done tt, n)
      | some _ ↦ (
        done tt,
        record n { log = end_subgroup_of track.handler group_id subgroup_id completed ∷ n.log },
      )
    ]

unfoldable pub end_namespace_subgroup : ℕ → ℕ → Bool → Action PublishNamespaceHandler (Unit {0})
end_namespace_subgroup group_id subgroup_id completed n =
    each (end_track_subgroup group_id subgroup_id completed) n.published_tracks n
