-- ===== src/SubscribeHandler/Tests.antt =====
-- A track with one subscriber, on connection 4, with the handler 40.
use laps.Prelude.{◌≡◌, ◌≤◌, ◌<◌, ◌⊎◌, List, refl, true, false, [], ◌∷◌, none, some, ◌==◌}
use laps.Prelude.Outcome.{done}
use laps.Prelude.SortedMap.{nat_key}
use laps.SubscribeHandler.{
  SubscribeHandler, ObjectHeaders, Call, publish_object, set_default_track_mode,
  forward_published_data,
}
use laps.SubscribeHandler.Fanout.{Around, publish_to, forward_to}
use laps.SubscribeHandler.OneWay.{one_way}

abbrev track : SubscribeHandler
track = record {
  connection_id = 2;
  track_alias = some 7;
  priority = 3;
  delivery_timeout = none;
  is_datagram = false;
  subscribers = (4, some 40) ∷ [];
  sub_namespaces = [];
  tracked_properties_value = [];
  pending_new_group_request_id = none;
  streams = [];
  log = [];
}

-- The first object of group 1 was sent.
abbrev around : Around
around = record {
  cur_tick = 0;
  has_ranking = false;
  uint_var = λ bytes. 0;
  disable_cache = true;
  object_ttl = 5000;
  sent_first_object = λ log object group subgroup. group == 1;
  start_location = λ object. record { group = 0; object = 0 };
}

abbrev headers : ObjectHeaders
headers = record {
  group_id = 1;
  subgroup_id = 0;
  object_id = 5;
  extensions = none;
  immutable_extensions = none;
}

one_way_example :
    let publish = publish_to around headers (9 ∷ []) (4, some 40) track in
    let forward = forward_to around 7 false 1 0 (9 ∷ []) (4, some 40) track in
    let with_mode : List Call = set_default_track_mode 40 false ∷ [] in
    (((1 == 1) ≡ true)
      × (publish ≡ (done tt, track))
      × (forward
          ≡ (done tt, record track { log = forward_published_data 40 false 1 0 (9 ∷ []) ∷ [] })))
    ⊎ (((1 == 1) ≡ false)
        × (forward ≡ (done tt, track))
        × (((0 ≤ 1)
              × (0 ≤ 5)
              × (publish ≡ (
                done tt,
                record track { log = publish_object 40 headers (9 ∷ []) ∷ with_mode },
              )))
            ⊎ (((1 < 0) ⊎ (5 < 0)) × (publish ≡ (done tt, record track { log = with_mode })))))
one_way_example = one_way around track headers 4 40 7 false (9 ∷ []) (9 ∷ []) refl refl
