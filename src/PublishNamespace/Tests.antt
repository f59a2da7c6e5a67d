-- ===== src/PublishNamespace/Tests.antt =====
-- A handler with two tracks, of which one may be selected.
use laps.Prelude.{ℕ, List, [], ◌∷◌, some}
use laps.Prelude.SortedMap.{Map, insert, nat_key}
use laps.Ranking.{FlatTrack}
use laps.PublishNamespace.{Status, ok, paused, TrackHandler, ActiveTrack, PublishNamespaceHandler}

abbrev on_handler : ℕ → ActiveTrack
on_handler object = record { last_updated_tick = 0; handler = object }

abbrev in_state : Status → ℕ → TrackHandler
in_state status alias = record { status = status; track_alias = some alias }

-- Track 7 is published and track 8 is paused.
abbrev two_tracks : PublishNamespaceHandler
two_tracks = record {
  max_tracks_selected = 1;
  property_type = some 12;
  connection_id = 3;
  published_tracks = (7, on_handler 70) ∷ (8, on_handler 80) ∷ [];
  handlers = (7, 70) ∷ [];
  objects = (70, in_state ok 7) ∷ (80, in_state paused 8) ∷ [];
  log = [];
}

-- Track 8 is the first now.
abbrev ranking : List FlatTrack
ranking =
    record { track_alias = 8; insert_seq_num = 1; latest_tick = 50; connection_id = 4 }
    ∷ record { track_alias = 7; insert_seq_num = 2; latest_tick = 40; connection_id = 5 }
    ∷ []

abbrev base_publish : ℕ → Map ℕ ℕ → Map ℕ ℕ
base_publish object handlers = insert object object handlers
