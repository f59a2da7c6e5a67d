-- ===== src/PublishNamespace/Known.antt =====
-- The published tracks whose handlers are alive, and the first loop of `UpdateTrackRanking` of
-- src/publish_namespace_handler.cc.
use laps.Prelude.{
  ℕ, ◌≡◌, refl, List, [], ◌∷◌, some, ◌==◌, inl, inr, Bool-cases, Option-cases, ==_iff,
}
use laps.Prelude.Outcome.{done}
use laps.Prelude.Action.{each}
use laps.Prelude.SortedMap.{Map, lookup, insert, nat_key, lookup-insert, lookup_of_insert}
use laps.Ranking.{FlatTrack}
use laps.PublishNamespace.Choice.{Stays, Stays-refl, Stays-trans, insert-is_some}
use laps.PublishNamespace.{ok, TrackHandler, ActiveTrack, PublishNamespaceHandler, put_tick, touch}

-- The handler is alive and has a track alias.
pub record IsHandler (objects : Map ℕ TrackHandler) (object : ℕ) : Type 0 where
  pub handler : TrackHandler
  pub alias : ℕ
  pub there : lookup object objects ≡ some handler
  pub named : handler.track_alias ≡ some alias

-- Every published track has such a handler.
abbrev pub AllKnown : PublishNamespaceHandler → Type 0
AllKnown n =
    (ta : ℕ) (track : ActiveTrack)
    → lookup ta n.published_tracks ≡ some track
    → IsHandler n.objects track.handler

pub put-AllKnown :
    (ta tick : ℕ) (track : ActiveTrack) (n : PublishNamespaceHandler)
    → AllKnown n
    → IsHandler n.objects track.handler
    → AllKnown (record n {
      published_tracks = insert ta (record track { last_updated_tick = tick }) n.published_tracks;
    })
put-AllKnown ta tick track n known handler other found e =
    elim (lookup_of_insert ta other (record track { last_updated_tick = tick }) found
      n.published_tracks e) [
        | inl (_, same) ↦ rw (← same) handler
        | inr (_, there) ↦ known other found there
      ]

pub status-IsHandler :
    (object o : ℕ) (h : TrackHandler) (objects : Map ℕ TrackHandler)
    → lookup object objects ≡ some h
    → IsHandler objects o
    → IsHandler (insert object (record h { status = ok }) objects) o
status-IsHandler object o h objects here known = elim (Bool-cases (object == o)) [
  | inr other ↦ record {
    handler = known.handler;
    alias = known.alias;
    there = rw (lookup-insert, other) known.there;
    named = known.named;
  }
  | inl same ↦
      let at_o = (==_iff object o).0 same in
      let both : known.handler ≡ h = cc (known.there, here, at_o) in
      record {
        handler = record h { status = ok };
        alias = known.alias;
        there = rw (lookup-insert, same) refl;
        named = rw both at known.named;
      }
]

touch-AllKnown :
    (row : FlatTrack) (n : PublishNamespaceHandler)
    → AllKnown n
    → (n' : PublishNamespaceHandler) × (touch row n ≡ (done tt, n')) × AllKnown n' × Stays n n'
unfolding touch put_tick
touch-AllKnown row n known = elim (Option-cases (lookup row.track_alias n.published_tracks)) [
  | inl absent ↦ (n, rw (touch, absent) refl, known, Stays-refl n)
  | inr (track, there) ↦ (
    record n {
      published_tracks =
          insert row.track_alias (record track { last_updated_tick = row.latest_tick })
            n.published_tracks;
    },
    rw (touch, there) refl,
    put-AllKnown row.track_alias row.latest_tick track n known (known row.track_alias track there),
    record {
      connection = refl;
      published = λ ta. insert-is_some row.track_alias ta _ n.published_tracks;
    },
  )
]

pub each-AllKnown :
    (rows : List FlatTrack) (n : PublishNamespaceHandler)
    → AllKnown n
    → (n' : PublishNamespaceHandler) × (each touch rows n ≡ (done tt, n'))
      × AllKnown n'
      × Stays n n'
unfolding each
each-AllKnown [] n known = (n, refl, known, Stays-refl n)
each-AllKnown (row ∷ rows) n known =
    let (n1, run1, known1, stays1) = touch-AllKnown row n known in
    let (n2, run2, known2, stays2) = each-AllKnown rows n1 known1 in
    (n2, rw (run1, run2) refl, known2, Stays-trans stays1 stays2)
