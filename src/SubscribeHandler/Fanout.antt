-- ===== src/SubscribeHandler/Fanout.antt =====
-- The fan-out of src/subscribe_handler.cc: `UpdateTrackedProperties`, `ObjectReceived` and
-- `ForwardReceivedData`.
use laps.Prelude.{
  ℕ, ◌+◌, ◌%◌, ◌^◌, ◌-◌, Bool, true, false, not, List, [], ◌∷◌, Option, none, some, ltb, leb, ◌==◌,
  ◌||◌, ◌&&◌, if◌then◌else◌, is_some,
}
use laps.Prelude.Outcome.{Outcome, done, fault, deref, at}
use laps.Prelude.Action.{
  Action, pure, ◌>>=◌, ◌>>◌, gets, modify, outcome, when, unless, each, try_catch,
}
use laps.Prelude.SortedMap.{Map, lookup, insert, nat_key}
use laps.Messages.DataHeader.{DataType, datagram, existing_stream, new_stream}
use laps.SubscribeHandler.{
  SubscribeHandler, Call, ObjectHeaders, Location, TrackPropertyValue, call, value_or, update_value,
  cache_object, publish_in_namespace, forward_in_namespace, publish_object, set_default_track_mode,
  forward_published_data, client_data_recv,
}

-- What the handler reads elsewhere.
pub record Around : Type 0 where
  -- The tick, and 0 where the service is gone. Ticks have 64 bits.
  pub cur_tick : ℕ
  -- Whether the ranking is alive.
  pub has_ranking : Bool
  -- `quicr::UintVar` of the bytes of an extension.
  pub uint_var : List ℕ → ℕ
  pub disable_cache : Bool
  pub object_ttl : ℕ
  -- `SentFirstObject` of a handler at the time, with group and subgroup cut off to 32 bits.
  pub sent_first_object : List Call → ℕ → ℕ → ℕ → Bool
  pub start_location : ℕ → Location

-- `kDefaultObjectTtl` of src/config.h.
abbrev pub default_object_ttl : ℕ
default_object_ttl = 5000

abbrev pub refresh_ranking_interval_ms : ℕ
refresh_ranking_interval_ms = 120

-- `extensions->at(prop).front()`, which is undefined on an empty list.
abbrev pub front : List (List ℕ) → Outcome (List ℕ)
front [] = fault
front (bytes ∷ _) = done bytes

abbrev pub extension : ℕ → Option (Map ℕ (List (List ℕ))) → Option (List (List ℕ))
extension prop none = none
extension prop (some m) = lookup prop m

-- `ForwardPublishedData` and `PublishObject` of the handlers of the namespaces.
unfoldable pub in_namespaces : (ℕ → Call) → Map ℕ (Map ℕ ℕ) → Action SubscribeHandler (Unit {0})
in_namespaces what m = each (λ row. each (λ entry. call (what entry.1)) row.1) m

module _ (a : Around) where
  -- The lambda `update`: an age that is more than the interval, or another value.
  unfoldable pub update_property :
      ℕ → ℕ → TrackPropertyValue → ℕ → Action SubscribeHandler (Unit {0})
  update_property alias prop value recv_value h =
      let age = (a.cur_tick + 2 ^ 64 - value.latest_tick_ms) % 2 ^ 64 in
      when (not (value.latest_value == recv_value) || ltb refresh_ranking_interval_ms age)
        (do
          modify (λ h. record h {
            tracked_properties_value =
                insert prop (record { latest_value = recv_value; latest_tick_ms = a.cur_tick })
                  h.tracked_properties_value;
          })
          when a.has_ranking (call (update_value alias prop recv_value a.cur_tick h.connection_id)))
        h

  unfoldable pub update_from :
      ℕ → ℕ → TrackPropertyValue → List (List ℕ) → Action SubscribeHandler (Unit {0})
  update_from alias prop value values = do
    bytes ← outcome (front values)
    update_property alias prop value (a.uint_var bytes)

  -- One tracked property: odd ones are passed over, and the mutable extensions come first.
  unfoldable pub update_tracked_property :
      ℕ → ObjectHeaders → ℕ × TrackPropertyValue → Action SubscribeHandler (Unit {0})
  update_tracked_property alias o (prop, value) =
      unless (prop % 2 == 1) (elim (extension prop o.extensions) [
        | some values ↦ update_from alias prop value values
        | none ↦ elim (extension prop o.immutable_extensions) [
          | some values ↦ update_from alias prop value values
          | none ↦ pure tt
        ]
      ])

  unfoldable pub update_tracked_properties : ObjectHeaders → Action SubscribeHandler (Unit {0})
  update_tracked_properties o = do
    track_alias ← gets (λ h. h.track_alias)
    alias ← outcome (at track_alias)
    tracked ← gets (λ h. h.tracked_properties_value)
    when (is_some o.extensions) (each (update_tracked_property alias o) tracked)

  -- A pending request for a new group is met by group 0 and by any group above it.
  abbrev pub pending_after : Option ℕ → ℕ → Option ℕ
  pending_after none group = none
  pending_after (some pending) group =
      if group == 0 || ltb pending group then none else some pending

  abbrev pub has_sent : SubscribeHandler → ℕ → ℕ → ℕ → Bool
  has_sent h object group subgroup =
      a.sent_first_object h.log object (group % 2 ^ 32) (subgroup % 2 ^ 32)

  -- Both parts are compared with the start, whatever the group.
  abbrev pub is_behind : Location → ObjectHeaders → Bool
  is_behind start o = leb start.group o.group_id && leb start.object o.object_id

  -- One subscriber.
  unfoldable pub publish_to :
      ObjectHeaders → List ℕ → ℕ × Option ℕ → Action SubscribeHandler (Unit {0})
  publish_to o bytes (conn, handler) h =
      unless (conn == 0)
        (do
          object ← outcome (deref handler)
          now ← gets (λ h. h)
          unless (not now.is_datagram && has_sent now object o.group_id o.subgroup_id) (do
            call (set_default_track_mode object now.is_datagram)
            when (is_behind (a.start_location object) o) (call (publish_object object o bytes))))
        h

  unfoldable pub publish_to_all : ℕ → ObjectHeaders → List ℕ → Action SubscribeHandler (Unit {0})
  publish_to_all alias o bytes = do
    namespaces ← gets (λ h. h.sub_namespaces)
    in_namespaces (λ ns. publish_in_namespace ns alias o bytes) namespaces
    subscribers ← gets (λ h. h.subscribers)
    each (publish_to o bytes) subscribers

  -- The cache is the library's: it is told of the object.
  unfoldable pub object_received : ObjectHeaders → List ℕ → Action SubscribeHandler (Unit {0})
  object_received o bytes = do
    update_tracked_properties o
    modify (λ h. record h {
      pending_new_group_request_id = pending_after h.pending_new_group_request_id o.group_id;
    })
    track_alias ← gets (λ h. h.track_alias)
    alias ← outcome (at track_alias)
    unless a.disable_cache (call (cache_object alias o bytes))
    try_catch (publish_to_all alias o bytes) (pure tt)

  abbrev pub data_type : Bool → Bool → DataType
  data_type true is_new_stream = datagram
  data_type false true = new_stream
  data_type false false = existing_stream

  -- A delivery timeout of 0 is replaced where a stream begins.
  abbrev pub timeout_after : Bool → Bool → Option ℕ → Option ℕ
  timeout_after false true timeout =
      if value_or timeout default_object_ttl == 0 then some a.object_ttl else timeout
  timeout_after _ _ timeout = timeout

  unfoldable pub forward_to :
      ℕ → Bool → ℕ → ℕ → List ℕ → ℕ × Option ℕ → Action SubscribeHandler (Unit {0})
  forward_to alias is_new_stream group subgroup bytes (conn, handler) h =
      if conn == 0
      then call
          (client_data_recv (record {
            track_full_name_hash = alias;
            priority = h.priority;
            ttl = value_or h.delivery_timeout default_object_ttl;
            type = data_type h.is_datagram is_new_stream;
            group_id = group;
            subgroup_id = subgroup;
            bytes = bytes;
          }))
          h
      else (do
        object ← outcome (deref handler)
        now ← gets (λ h. h)
        when (has_sent now object group subgroup)
            (call (forward_published_data object is_new_stream group subgroup bytes)))
          h

  unfoldable pub forward_received_data : Bool → ℕ → ℕ → List ℕ → Action SubscribeHandler (Unit {0})
  forward_received_data is_new_stream group subgroup bytes h = elim h.track_alias [
    | none ↦ (done tt, h)
    | some alias ↦
        (do
          modify (λ h. record h {
            delivery_timeout = timeout_after h.is_datagram is_new_stream h.delivery_timeout;
          })
          in_namespaces (λ ns. forward_in_namespace ns alias is_new_stream group subgroup bytes)
              h.sub_namespaces
          each (forward_to alias is_new_stream group subgroup bytes) h.subscribers)
          h
  ]
