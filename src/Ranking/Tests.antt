-- ===== src/Ranking/Tests.antt =====
-- The ranking of two tracks.
use laps.Prelude.{ℕ, refl, Bool, true, [], ◌∷◌, All}
use laps.Prelude.SortedMap.{pair_key}
use laps.Ranking.{TrackTickInfo, TrackRanking, update_value}
use laps.Ranking.Active.{IsActiveBucket, update_value-IsActiveBucket}
use laps.Ranking.Alone.{IsElsewhere, update_value-IsElsewhere}

abbrev at_tick : ℕ → TrackTickInfo
at_tick tick = record { insert_seq_num = 7; latest_tick = tick }

-- Track 1 has value 5 and track 2 value 9 for property 3.
abbrev two_tracks : TrackRanking
two_tracks = record {
  max_tracks_selected = 32;
  inactive_age_ms = 100;
  update_value_seq_num = 2;
  ordered_tracks = ((3, 5), (1, at_tick 10) ∷ []) ∷ ((3, 9), (2, at_tick 20) ∷ []) ∷ [];
  flat_track_list = [];
  track_connections = (1, 4) ∷ (2, 4) ∷ [];
  ns_handlers = [];
}

abbrev all_alive : ℕ → Bool
all_alive h = true

-- Track 1 moves to the bucket of track 2.
abbrev moved : TrackRanking
moved = update_value all_alive 1 3 9 30 4 two_tracks

update_value-IsElsewhere_example : All (IsElsewhere 1 3 9) moved.ordered_tracks
update_value-IsElsewhere_example =
    update_value-IsElsewhere all_alive 1 3 9 30 4 two_tracks ((refl, tt))

update_value-IsActiveBucket_example : All (IsActiveBucket 100 30) moved.ordered_tracks
update_value-IsActiveBucket_example = update_value-IsActiveBucket all_alive 1 3 9 30 4 two_tracks
