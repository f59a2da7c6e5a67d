-- ===== src/SubscribeHandler.antt =====
-- src/subscribe_handler.h and subscribe_handler.cc: the subscribers of a track, and the fan-out of
-- what is received for it. The base class of the transport library has the track's alias,
-- priority and delivery timeout.
use laps.Prelude.{
  ℕ, ◌+◌, ◌%◌, ◌^◌, ◌-◌, Bool, true, false, not, List, [], ◌∷◌, ◌++◌, Option, none, some, ltb, leb,
  ◌==◌, ◌||◌, ◌&&◌, if◌then◌else◌, is_some,
}
use laps.Prelude.Outcome.{Outcome, done, fault, deref, at}
use laps.Prelude.Action.{Action, pure, ◌>>=◌, ◌>>◌, gets, modify, outcome, when, unless, each}
use laps.Prelude.SortedMap.{Map, lookup, insert, erase, nat_key}
use laps.Messages.DataHeader.{DataType, datagram, existing_stream, new_stream}
use laps.InfoBase.Nested.{map_at, put_or_erase}
use laps.Peer.ClientData.{ClientData}
pub mod Fanout
pub mod Members
pub mod OneWay
mod Tests

-- Where a subscriber's objects begin.
pub record Location : Type 0 where
  pub group : ℕ
  pub object : ℕ

-- The parts of `quicr::ObjectHeaders` that are read. An extension is a list of byte strings.
pub record ObjectHeaders : Type 0 where
  pub group_id : ℕ
  pub subgroup_id : ℕ
  pub object_id : ℕ
  pub extensions : Option (Map ℕ (List (List ℕ)))
  pub immutable_extensions : Option (Map ℕ (List (List ℕ)))

-- The calls that the handler makes, the newest first.
pub data Call : Type 0 where
  resume pause : Call
  -- The new handler, whether it is for datagrams, its priority, timeout and start.
  make_publisher : ℕ → Bool → ℕ → ℕ → Location → Call
  -- Connection, the connection of the publisher, and the request and the handler.
  bind_publisher_track : ℕ → ℕ → ℕ → ℕ → Call
  unbind_publisher_track : ℕ → ℕ → Option ℕ → Call
  -- Alias, property, value, tick and connection.
  update_value : ℕ → ℕ → ℕ → ℕ → ℕ → Call
  cache_object : ℕ → ObjectHeaders → List ℕ → Call
  -- The handler of a namespace and the track, then what is passed on.
  publish_in_namespace : ℕ → ℕ → ObjectHeaders → List ℕ → Call
  forward_in_namespace : ℕ → ℕ → Bool → ℕ → ℕ → List ℕ → Call
  end_in_namespace : ℕ → ℕ → ℕ → Bool → Call
  -- The handler of a subscriber, then what is passed on.
  publish_object : ℕ → ObjectHeaders → List ℕ → Call
  -- Whether the mode is the one for datagrams.
  set_default_track_mode : ℕ → Bool → Call
  forward_published_data : ℕ → Bool → ℕ → ℕ → List ℕ → Call
  end_subgroup : ℕ → ℕ → ℕ → Bool → Call
  -- To the peer manager.
  client_data_recv : ClientData → Call
  end_peer_subgroup : ℕ → ℕ → ℕ → Bool → Call

pub record TrackPropertyValue : Type 0 where
  pub latest_value : ℕ
  pub latest_tick_ms : ℕ

pub record SubscribeHandler : Type 0 where
  pub connection_id : ℕ
  pub track_alias : Option ℕ
  pub priority : ℕ
  pub delivery_timeout : Option ℕ
  pub is_datagram : Bool
  -- Key: connection, and 0 for the peers, which have no handler.
  pub subscribers : Map ℕ (Option ℕ)
  -- Key: full name hash of the namespace, then connection.
  pub sub_namespaces : Map ℕ (Map ℕ ℕ)
  pub tracked_properties_value : Map ℕ TrackPropertyValue
  pub pending_new_group_request_id : Option ℕ
  -- The current group and subgroup of a stream.
  pub streams : Map ℕ (ℕ × ℕ)
  pub log : List Call

abbrev pub call : Call → Action SubscribeHandler (Unit {0})
call c h = (done tt, record h { log = c ∷ h.log })

-- `value_or`.
abbrev pub value_or : Option ℕ → ℕ → ℕ
value_or none default = default
value_or (some n) default = n

-- What the handler of a namespace says of itself: the hash of its name, its connection and its
-- property.
pub record NamespaceHandler : Type 0 where
  pub object : ℕ
  pub fullname_hash : ℕ
  pub connection_id : ℕ
  pub property_type : ℕ

unfoldable pub track_property : ℕ → Map ℕ TrackPropertyValue → Map ℕ TrackPropertyValue
track_property prop m = elim (lookup prop m) [
  | some _ ↦ m
  | none ↦ insert prop (record { latest_value = 0; latest_tick_ms = 0 }) m
]

unfoldable pub add_subscribe_namespace : NamespaceHandler → Action SubscribeHandler (Unit {0})
add_subscribe_namespace ns h =
    let row = map_at (lookup ns.fullname_hash h.sub_namespaces) in
    elim (lookup ns.connection_id row) [
      | some _ ↦ (done tt, h)
      | none ↦ call resume (record h {
        sub_namespaces =
            insert ns.fullname_hash (insert ns.connection_id ns.object row) h.sub_namespaces;
        tracked_properties_value = track_property ns.property_type h.tracked_properties_value;
      })
    ]

unfoldable pub remove_subscribe_namespace : NamespaceHandler → Action SubscribeHandler (Unit {0})
remove_subscribe_namespace ns h = elim (lookup ns.fullname_hash h.sub_namespaces) [
  | none ↦ (done tt, h)
  | some row ↦ (
    done tt,
    record h {
      sub_namespaces = put_or_erase ns.fullname_hash (erase ns.connection_id row) h.sub_namespaces;
    },
  )
]

-- A subscriber. `object` is the number of the new handler.
pub record Request : Type 0 where
  pub conn_handle : ℕ
  pub request_id : ℕ
  pub priority : ℕ
  pub delivery_timeout : ℕ
  pub start_location : Location
  pub object : ℕ

-- `server_.config_.object_ttl_` is an argument.
unfoldable pub bind_subscriber : ℕ → Request → Action SubscribeHandler (Unit {0})
bind_subscriber object_ttl r h =
    (do
      call (
          make_publisher r.object h.is_datagram (if r.priority == 0 then h.priority else r.priority)
            (if r.delivery_timeout == 0
              then value_or h.delivery_timeout object_ttl
              else r.delivery_timeout)
            r.start_location)
      call (bind_publisher_track r.conn_handle h.connection_id r.request_id r.object))
      h

unfoldable pub put_subscriber : ℕ → Option ℕ → Action SubscribeHandler (Unit {0})
put_subscriber conn handler =
    modify (λ h. record h { subscribers = insert conn handler h.subscribers })

unfoldable pub add_subscriber : ℕ → Request → Action SubscribeHandler (Unit {0})
add_subscriber object_ttl r h = elim (lookup r.conn_handle h.subscribers) [
  | some _ ↦ (done tt, h)
  | none ↦
      if r.conn_handle == 0
      then (do put_subscriber 0 none; call resume) h
      else (do
        bind_subscriber object_ttl r
        put_subscriber r.conn_handle (some r.object)
        call resume)
          h
]

abbrev pub has_none {ℓ} : {A : Type ℓ} → Map ℕ A → Bool
has_none [] = true
has_none (_ ∷ _) = false

unfoldable pub pause_if_alone : Action SubscribeHandler (Unit {0})
pause_if_alone h = when (has_none h.subscribers && has_none h.sub_namespaces) (call pause) h

unfoldable pub unbind : ℕ → Option ℕ → Action SubscribeHandler (Unit {0})
unbind conn none h = (done tt, h)
unbind conn (some object) h = call (unbind_publisher_track conn h.connection_id (some object)) h

unfoldable pub drop_subscriber : ℕ → Action SubscribeHandler (Unit {0})
drop_subscriber conn h = elim (lookup conn h.subscribers) [
  | none ↦ (done tt, h)
  | some handler ↦
      (do unbind conn handler; modify (λ h. record h { subscribers = erase conn h.subscribers })) h
]

unfoldable pub remove_subscriber : ℕ → Action SubscribeHandler (Unit {0})
remove_subscriber conn = do drop_subscriber conn; pause_if_alone

-- The destructor: every subscriber is unbound, the peers' entry with its empty pointer too.
unfoldable pub destroy_row : ℕ × Option ℕ → Action SubscribeHandler (Unit {0})
destroy_row (conn, handler) h = call (unbind_publisher_track conn h.connection_id handler) h

unfoldable pub destroy : Action SubscribeHandler (Unit {0})
destroy h = each destroy_row h.subscribers h

unfoldable pub stream_closed : ℕ → Bool → Action SubscribeHandler (Unit {0})
stream_closed stream_id use_reset h = elim (lookup stream_id h.streams) [
  | none ↦ (done tt, h)
  | some (group, subgroup) ↦
      (do
        each (λ row. end_subscriber row group subgroup) h.subscribers
        each
            (λ row.
              each (λ entry. call (end_in_namespace entry.1 group subgroup (not use_reset))) row.1)
            h.sub_namespaces
        modify (λ h. record h { streams = erase stream_id h.streams }))
        h
]
  where
    end_subscriber : ℕ × Option ℕ → ℕ → ℕ → Action SubscribeHandler (Unit {0})
    end_subscriber (conn, handler) group subgroup h =
        if conn == 0
        then elim h.track_alias [
          | none ↦ (done tt, h)
          | some alias ↦ call (end_peer_subgroup alias group subgroup use_reset) h
        ]
        else (do
          object ← outcome (deref handler)
          call (end_subgroup object group subgroup (not use_reset)))
            h
