-- ===== src/PublishNamespace/TopTracks.antt =====
-- What `UpdateTrackRanking` of src/publish_namespace_handler.cc leaves.
use laps.Prelude.{
  ℕ, ◌≡◌, ◌≤◌, ◌⊎◌, ◌++◌, Bool, true, false, not, List, [], ◌∷◌, Option, none, some, ◌||◌, ◌&&◌,
  length, is_some,
}
use laps.Prelude.SortedMap.{Map, lookup, nat_key}
use laps.Ranking.{FlatTrack}
use laps.PublishNamespace.Choice.{takes_all, is_foreign_in}
use laps.PublishNamespace.{TrackHandler, ActiveTrack, PublishNamespaceHandler, is_ok}

abbrev pub is_ok_handler : Option TrackHandler → Bool
is_ok_handler none = false
is_ok_handler (some h) = is_ok h.status

-- Whether the handler is alive with status ok.
abbrev pub is_ok_at : Map ℕ TrackHandler → ℕ → Bool
is_ok_at objects object = is_ok_handler (lookup object objects)

-- A handler that is not ok stays so, and the published tracks and the limit stay as they are.
pub record Pauses (n n' : PublishNamespaceHandler) : Type 0 where
  pub published_tracks : n'.published_tracks ≡ n.published_tracks
  pub limit : n'.max_tracks_selected ≡ n.max_tracks_selected
  pub still : (o : ℕ) → is_ok_at n.objects o ≡ false → is_ok_at n'.objects o ≡ false

-- A track that is ok is selected.
abbrev pub is_settled : Map ℕ ℕ → Map ℕ TrackHandler → ℕ × ActiveTrack → Bool
is_settled active objects (ta, track) =
    not (is_ok_at objects track.handler) || is_some (lookup ta active)

abbrev pub all_settled : Map ℕ ℕ → Map ℕ TrackHandler → Map ℕ ActiveTrack → Bool
all_settled active objects [] = true
all_settled active objects (row ∷ m) = is_settled active objects row && all_settled active objects m

-- What `active` is to be: of the rows in their order, those up to the first that is too many are
-- gone through. Each of these that is of another connection and published is selected, and a
-- track that is selected has such a row of another connection.
pub record IsChoice (n : PublishNamespaceHandler) (rows : List FlatTrack) (active : Map ℕ ℕ)
    (limit : ℕ) : Type 0 where
  pub taken : List FlatTrack
  pub left : List FlatTrack
  pub split : rows ≡ taken ++ left
  pub every : takes_all n active taken ≡ true
  pub only :
      (ta : ℕ) → (not (is_some (lookup ta active)) || is_foreign_in n.connection_id ta taken) ≡ true
  pub full : (left ≡ []) ⊎ (limit ≤ length active)
