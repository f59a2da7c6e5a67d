-- ===== src/ClientManager/Tests.antt =====
-- A relay with one client: connection 4 subscribes to a track that connection 5 announced. The
-- namespaces are numbers.
use laps.Prelude.{
  ℕ, ◌+◌, ◌≡◌, refl, false, ◌&&◌, List, [], ◌∷◌, Option, none, some, ◌==◌, if◌then◌else◌,
}
use laps.Prelude.Outcome.{done}
use laps.Prelude.Action.{each}
use laps.Prelude.Action.Ends.{Ends}
use laps.Prelude.SortedMap.{Map, ◌==◌ as ◌is◌, lookup, insert, nat_key}
use laps.Prelude.SortedMap.Pairs.{lex_key}
use laps.Prelude.SortedSet.{contains}
use laps.SubscribeHandler.{SubscribeHandler, Location}
use laps.ClientManager.{
  Relay, Environment, FullTrackName, RequestType, RequestState, RequestTransaction,
  SubscribeAttributes, SubscribePublishHandlerInfo, ActiveSubscribeInfo, SubscribeTrackHandler,
  client_unsubscribe, rows_of,
}
use laps.ClientManager.Subscribes.{subscribe_received}
use laps.ClientManager.Unsubscribes.{unsubscribe_received, remove_or_pause}
use laps.ClientManager.Publishers.{publish_namespace_done_received, aliases_at}
use laps.ClientManager.Namespaces.{namespaces_of, connection_status_changed, closed_by_remote}
use laps.ClientManager.Tables.Remove.{IsSound, Keeps, standing_at, remove_or_pause_lem}
use laps.ClientManager.Tables.Settle.{is_dropped, some_busy, told}
use laps.ClientManager.Tables.Invariant.{
  IsValid, Message, subscribe, unsubscribe, handle, each_message-IsValid,
}
use laps.ClientManager.Tables.Registered.{IsRegistered, insert-IsRegistered}
use laps.ClientManager.Tables.RoundTrip.{Restores, subscribe_received-unsubscribe_received}
use laps.ClientManager.Tables.Closing.{LeavesNothing, connection_status_changed-lookup}
use laps.ClientManager.Tables.Withdraw.{subscribes_prefix, publish_namespace_done_received_lem}

abbrev zero_location : Location
zero_location = record { group = 0; object = 0 }

abbrev fan_out : Map ℕ (Option ℕ) → SubscribeHandler
fan_out subscribers = record {
  connection_id = 5;
  track_alias = some 103;
  priority = 3;
  delivery_timeout = none;
  is_datagram = false;
  subscribers = subscribers;
  sub_namespaces = [];
  tracked_properties_value = [];
  pending_new_group_request_id = none;
  streams = [];
  log = [];
}

abbrev track : FullTrackName ℕ
track = record { name_space = 3; name = 1 ∷ [] }

abbrev given_request : ℕ → SubscribeTrackHandler ℕ → SubscribeTrackHandler ℕ
given_request conn h = record h { request_id = some 1 }

abbrev around : Environment ℕ
around = record {
  has_same_prefix = λ a b. a == b;
  is_prefix_of = λ a b. a == b;
  empty_namespace = 0;
  is_empty_namespace = λ ns. ns == 0;
  track_hash = λ name. record {
    track_namespace_hash = name.name_space;
    track_name_hash = 0;
    track_fullname_hash = name.name_space + 100;
  };
  handler_base = λ name priority order. record {
    connection_id = 0;
    track_alias = none;
    priority = priority;
    delivery_timeout = none;
    pending_new_group_request_id = none;
    request_id = none;
  };
  subscribed = given_request;
  new_group_requested = λ h. h;
  ascending = 1;
  with_new_group = λ group h. h;
  peers_subscribed = λ hash. false;
  last_cached = λ hash. none;
  object_ttl = 5000;
  default_object_ttl = 5000;
  sub_dampen_ms = 100;
  detached_subs = false;
  allow_self = false;
  now_ms = 1000;
}

abbrev handler : Map ℕ (Option ℕ) → SubscribeTrackHandler ℕ
handler subscribers = record {
  fan_out = fan_out subscribers;
  full_track_name = track;
  is_publisher_initiated = false;
  is_from_peer = false;
  support_new_group = false;
  request_id = some 1;
  last_update = none;
  track_ranking = none;
}

abbrev request : RequestTransaction ℕ
request = record { type = RequestType.publish_namespace; state = RequestState.ok; related_data = 3 }

abbrev relay :
    Map (ℕ × ℕ) (SubscribePublishHandlerInfo ℕ)
    → Map (ℕ × ℕ) ℕ
    → Map (ℕ × ℕ) (Map (ℕ × ℕ) ActiveSubscribeInfo)
    → Map ℕ (Option ℕ)
    → Relay ℕ
relay subscribes aliases active subscribers = record {
  requests = ((5, 9), request) ∷ [];
  pub_namespace_active = ((3, 5), 103 ∷ []) ∷ [];
  pub_subscribes = ((103, 5), 1) ∷ [];
  pub_subscribes_by_req_id = [];
  subscribes_namespaces = [];
  subscribes = subscribes;
  subscribe_alias_req_id = aliases;
  subscribe_active = active;
  track_rankings = [];
  rankings = [];
  stop_fetch = [];
  objects = (1, handler subscribers) ∷ [];
  next = 2;
  log = [];
}

-- Without a subscriber.
abbrev idle : Relay ℕ
idle = relay [] [] [] []

idle-IsSound : IsSound idle
unfolding lookup
idle-IsSound = record { live = (refl, tt); sorted = tt }

idle-IsValid : IsValid idle
unfolding lookup
idle-IsValid = record { sound = idle-IsSound; sorted = tt; registered = λ c r a e. absurd (cc e) }

abbrev attrs : SubscribeAttributes
attrs = record {
  priority = 3;
  delivery_timeout = 0;
  group_order = none;
  start_location = zero_location;
  new_group_request_id = none;
  is_publisher_initiated = false;
}

abbrev messages : List (Message around)
messages = subscribe 4 2 track attrs ∷ subscribe 4 3 track attrs ∷ unsubscribe 4 2 ∷ []

each_message-IsValid_example : Ends IsValid (each (handle around) messages) idle
each_message-IsValid_example =
    each_message-IsValid around messages idle (λ conn h. refl) idle-IsValid

subscribe_received-unsubscribe_received_example :
    (w1 w2 : Relay ℕ) × (subscribe_received around 4 2 track attrs idle ≡ (done tt, w1))
    × (unsubscribe_received around 4 2 w1 ≡ (done tt, w2))
    × Restores around idle w2
unfolding lookup
subscribe_received-unsubscribe_received_example =
    subscribe_received-unsubscribe_received around 4 2 track attrs idle (λ conn h. refl)
      idle-IsSound refl refl refl refl

remove_or_pause_lem_example :
    (w' : Relay ℕ) × (remove_or_pause around 103 idle ≡ (done tt, w'))
    × ((alias conn : ℕ)
        → lookup (alias, conn) w'.pub_subscribes ≡ (
            if alias == 103
              && is_dropped (standing_at idle (lookup (alias, conn) idle.pub_subscribes))
            then none
            else lookup (alias, conn) idle.pub_subscribes))
    × (w'.log ≡ (
        if some_busy idle (rows_of 103 idle.pub_subscribes)
        then told idle (rows_of 103 idle.pub_subscribes) idle.log
        else client_unsubscribe 103 ∷ told idle (rows_of 103 idle.pub_subscribes) idle.log))
    × Keeps idle w'
remove_or_pause_lem_example = remove_or_pause_lem around 103 idle idle-IsSound refl

abbrev info : SubscribePublishHandlerInfo ℕ
info = record {
  track_full_name = track;
  track_alias = 103;
  request_id = 2;
  priority = 3;
  object_ttl = 0;
  group_order = none;
  start_location = zero_location;
}

-- With connection 4 as a subscriber.
abbrev busy : Relay ℕ
busy = relay (((103, 4), info) ∷ []) (((4, 2), 103) ∷ []) [] ((4, some 40) ∷ [])

busy-IsSound : IsSound busy
unfolding lookup
busy-IsSound = record { live = (refl, tt); sorted = tt }

busy-IsRegistered : IsRegistered busy
unfolding lookup insert
busy-IsRegistered =
    insert-IsRegistered 4 2 103 info idle busy refl refl refl refl idle-IsValid.registered

connection_status_changed-lookup_example :
    LeavesNothing around 4 busy (connection_status_changed around 4 closed_by_remote)
unfolding namespaces_of
connection_status_changed-lookup_example =
    connection_status_changed-lookup around 4 closed_by_remote busy refl busy-IsSound tt
      busy-IsRegistered refl

-- With connection 8 as a subscriber of the namespace.
abbrev listening : Relay ℕ
listening = record busy {
  subscribes_namespaces =
      (3, (8, record { object = 1; fullname_hash = 3; connection_id = 8; property_type = 0 }) ∷ [])
      ∷ [];
}

publish_namespace_done_received_lem_example :
    (conns : List ℕ) × (w' : Relay ℕ) × (publish_namespace_done_received around 5 9 listening
      ≡ (done conns, w'))
    × ((c : ℕ) → contains c conns ≡ subscribes_prefix around c 3 listening.subscribes_namespaces)
    × ((alias c : ℕ)
        → lookup (alias, c) w'.pub_subscribes ≡ (
            if c == 5
              && contains alias (aliases_at around (lookup (3, 5) listening.pub_namespace_active))
            then none
            else lookup (alias, c) listening.pub_subscribes))
    × ((at : ℕ × ℕ)
        → lookup at w'.pub_namespace_active ≡ (
            let announced : ℕ × ℕ = (3, 5) in
            if announced is at then none else lookup at listening.pub_namespace_active))
unfolding lookup
publish_namespace_done_received_lem_example =
    publish_namespace_done_received_lem around 5 9 request listening refl
