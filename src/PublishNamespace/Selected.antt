-- ===== src/PublishNamespace/Selected.antt =====
-- The second loop of `UpdateTrackRanking` of src/publish_namespace_handler.cc that chooses the tracks.
use laps.Prelude.{
  ℕ, ◌≡◌, ◌≤◌, ◌+◌, refl, true, false, not, ◌||◌, is_some, List, [], ◌∷◌, leb, ◌==◌, length, inl,
  inr, Bool-cases, Option-cases, arith,
}
use laps.Prelude.Outcome.{done}
use laps.Prelude.SortedMap.{Map, lookup, insert, nat_key}
use laps.Ranking.{FlatTrack}
use laps.PublishNamespace.Known.{IsHandler, AllKnown, put-AllKnown, status-IsHandler}
use laps.PublishNamespace.Choice.{
  Stays, Stays-refl, Stays-trans, insert-is_some, emplace_grows, emplace-is_some, emplace_only,
  is_foreign, Chosen, step-Chosen,
}
use laps.PublishNamespace.{
  ok, ActiveTrack, PublishNamespaceHandler, is_paused, emplace, handler_of, set_status, put_tick,
  publish_track, wake, select_tracks,
}

length-insert : (key a : ℕ) (m : Map ℕ ℕ) → length (insert key a m) ≤ length m + 1
unfolding insert
length-insert key a [] = omega arith
length-insert key a ((j, w) ∷ m) = ground (arith, length-insert key a m)

length-emplace : (key a : ℕ) (m : Map ℕ ℕ) → length (emplace key a m) ≤ length m + 1
unfolding emplace
length-emplace key a m = elim (Option-cases (lookup key m)) [
  | inl absent ↦ rw (emplace, absent) (length-insert key a m)
  | inr (_, there) ↦ rw (emplace, there) (omega arith)
]

module _ (cur_tick : ℕ) (base_publish : ℕ → Map ℕ ℕ → Map ℕ ℕ) where
  publish_track-AllKnown :
      (object : ℕ) (n : PublishNamespaceHandler)
      → AllKnown n
      → IsHandler n.objects object
      → (n' : PublishNamespaceHandler) × (publish_track cur_tick base_publish object n
          ≡ (done tt, n'))
        × AllKnown n'
        × (n'.max_tracks_selected ≡ n.max_tracks_selected)
        × Stays n n'
  unfolding publish_track handler_of emplace
  publish_track-AllKnown object n known handler =
      elim (Option-cases (lookup handler.alias n.published_tracks)) [
        | inr (_, there) ↦ (
          record n { handlers = base_publish object n.handlers },
          rw (publish_track, handler_of, handler.there, handler.named, emplace, there) refl,
          known,
          refl,
          record { connection = refl; published = λ ta e. e },
        )
        | inl absent ↦
            let track : ActiveTrack = record { last_updated_tick = cur_tick; handler = object } in
            (
              record n {
                handlers = base_publish object n.handlers;
                published_tracks = insert handler.alias track n.published_tracks;
              },
              rw (publish_track, handler_of, handler.there, handler.named, emplace, absent) refl,
              put-AllKnown handler.alias cur_tick track
                  (record n { handlers = base_publish object n.handlers }) known handler,
              refl,
              record {
                connection = refl;
                published = λ ta. insert-is_some handler.alias ta track n.published_tracks;
              },
            )
      ]

  -- What the step of one track leaves.
  abbrev Woken : FlatTrack → ActiveTrack → PublishNamespaceHandler → Type 0
  Woken row track n =
      (n' : PublishNamespaceHandler) × (wake cur_tick base_publish row track n ≡ (done tt, n'))
      × AllKnown n'
      × (n'.max_tracks_selected ≡ n.max_tracks_selected)
      × Stays n n'

  wake_paused :
      (row : FlatTrack) (track : ActiveTrack) (n : PublishNamespaceHandler)
      → AllKnown n
      → (handler : IsHandler n.objects track.handler) → is_paused handler.handler.status ≡ true
      → Woken row track n
  unfolding wake handler_of set_status put_tick
  wake_paused row track n known handler is_asleep =
      let woken = record n {
        objects = insert track.handler (record handler.handler { status = ok }) n.objects;
      } in
      let keep : (o : ℕ) → IsHandler n.objects o → IsHandler woken.objects o =
        λ o. status-IsHandler track.handler o handler.handler n.objects handler.there in
      let known' : AllKnown woken = λ ta found e. keep found.handler (known ta found e) in
      elim (Option-cases (lookup row.track_alias n.handlers)) [
        | inl fresh ↦
            let (n', run, known'', same, stays) =
              publish_track-AllKnown track.handler woken known' (keep track.handler handler) in
            (
              n',
              rw (wake, handler_of, handler.there, is_asleep, fresh, run) refl,
              known'',
              same,
              Stays-trans (record { connection = refl; published = λ ta e. e }) stays,
            )
        | inr (_, there) ↦ (
          record woken {
            published_tracks =
                insert row.track_alias (record track { last_updated_tick = row.latest_tick })
                  n.published_tracks;
          },
          rw (wake, handler_of, handler.there, is_asleep, there) refl,
          put-AllKnown row.track_alias row.latest_tick track woken known'
              (keep track.handler handler),
          refl,
          record {
            connection = refl;
            published = λ ta. insert-is_some row.track_alias ta _ n.published_tracks;
          },
        )
      ]

  wake-Woken :
      (row : FlatTrack) (track : ActiveTrack) (n : PublishNamespaceHandler)
      → AllKnown n
      → IsHandler n.objects track.handler
      → Woken row track n
  unfolding wake handler_of
  wake-Woken row track n known handler = elim (Bool-cases (is_paused handler.handler.status)) [
    | inl is_asleep ↦ wake_paused row track n known handler is_asleep
    | inr awake ↦ (n, rw (wake, handler_of, handler.there, awake) refl, known, refl, Stays-refl n)
  ]

  -- The loop returns, and selects the first tracks that are eligible, and no more than it may.
  pub select_tracks-Chosen :
      (rows : List FlatTrack) (active : Map ℕ ℕ) (n : PublishNamespaceHandler)
      → AllKnown n
      → length active ≤ n.max_tracks_selected
      → (active' : Map ℕ ℕ) × (n' : PublishNamespaceHandler) × (select_tracks cur_tick base_publish
            rows active n
          ≡ (done active', n'))
        × (length active' ≤ n'.max_tracks_selected)
        × Chosen n rows active active' n'.max_tracks_selected
  unfolding select_tracks
  select_tracks-Chosen [] active n known few = (
    active,
    n,
    refl,
    few,
    record {
      taken = [];
      left = [];
      split = refl;
      every = refl;
      kept = λ ta e. e;
      only = λ ta. ground arith;
      full = inl refl;
    },
  )
  select_tracks-Chosen (row ∷ rows) active n known few =
      elim (Bool-cases (leb n.max_tracks_selected (length active))) [
        | inl full ↦ (
          active,
          n,
          rw (select_tracks, full) refl,
          few,
          record {
            taken = [];
            left = row ∷ rows;
            split = refl;
            every = refl;
            kept = λ ta e. e;
            only = λ ta. ground arith;
            full = inr (ground (arith, full));
          },
        )
        | inr room ↦ elim (Bool-cases (row.connection_id == n.connection_id)) [
          | inl own ↦
              let (active', n', run, few', chosen) = select_tracks-Chosen rows active n known few in
              (
                active',
                n',
                rw (select_tracks, room, own, run) refl,
                few',
                step-Chosen row rows n n active active active' n'.max_tracks_selected (Stays-refl n)
                    (λ ta e. e) (λ ta. ground arith) (rw own refl) chosen,
              )
          | inr foreign ↦ elim (Option-cases (lookup row.track_alias n.published_tracks)) [
            | inl absent ↦
                let (active', n', run, few', chosen) =
                  select_tracks-Chosen rows active n known few in
                (
                  active',
                  n',
                  rw (select_tracks, room, foreign, absent, run) refl,
                  few',
                  step-Chosen row rows n n active active active' n'.max_tracks_selected
                      (Stays-refl n) (λ ta e. e) (λ ta. ground arith) (rw (foreign, absent) refl)
                      chosen,
                )
            | inr (track, there) ↦
                let (n1, woken, known1, same, stays) =
                  wake-Woken row track n known (known row.track_alias track there) in
                let one_more = length-emplace row.track_alias row.latest_tick active in
                let (active', n', run, few', chosen) =
                  select_tracks-Chosen rows (emplace row.track_alias row.latest_tick active) n1
                    known1 (ground (arith, one_more, same, room)) in
                (
                  active',
                  n',
                  rw (select_tracks, room, foreign, there, woken, run) refl,
                  few',
                  step-Chosen row rows n n1 active (emplace row.track_alias row.latest_tick active)
                      active' n'.max_tracks_selected stays
                      (λ ta. emplace_grows row.track_alias ta row.latest_tick active)
                      (λ ta. only_row row n active ta foreign)
                      (rw (emplace-is_some row.track_alias row.latest_tick active) (ground arith))
                      chosen,
                )
          ]
        ]
      ]
    where
      only_row :
          (row : FlatTrack) (n : PublishNamespaceHandler) (active : Map ℕ ℕ) (ta : ℕ)
          → (row.connection_id == n.connection_id) ≡ false
          → (not (is_some (lookup ta (emplace row.track_alias row.latest_tick active)))
              || (is_some (lookup ta active) || is_foreign n.connection_id ta row))
            ≡ true
      only_row row n active ta foreign = elim (Bool-cases (row.track_alias == ta)) [
        | inl same ↦ rw (same, foreign) (ground arith)
        | inr other ↦
            rw (emplace_only row.track_alias ta row.latest_tick active other) (ground arith)
      ]
