-- ===== src/ClientManager.antt =====
-- src/client_manager.h and src/state.h: the tables of the relay, and what its handlers call. The
-- handlers of the tracks are objects with numbers, since two tables share them.
use laps.Prelude.{
  ℕ, ◌≡◌, refl, ◌+◌, ◌==◌, Bool, true, false, ◌&&◌, List, [], ◌∷◌, Option, none, some,
  if◌then◌else◌,
}
use laps.Prelude.Outcome.{Outcome, done, fault, deref}
use laps.Prelude.Action.{Action, pure, ◌>>=◌, ◌>>◌, gets, modify, outcome, each}
use laps.Prelude.SortedMap.{Key, Map, lookup, insert, erase, lower_bound, nat_key}
use laps.Prelude.SortedMap.Pairs.{lex_key}
use laps.Messages.SubscribeInfo.{TrackHash}
use laps.Ranking.{TrackRanking}
use laps.SubscribeHandler.{SubscribeHandler, Location, NamespaceHandler, TrackPropertyValue}
pub mod Subscribes
pub mod Unsubscribes
pub mod Publishers
pub mod Publishes
pub mod Namespaces
pub mod Fetches
pub mod Tables
mod Tests
mod FetchTests

pub record FullTrackName (Namespace : Type 0) : Type 0 where
  pub name_space : Namespace
  pub name : List ℕ

-- `State::RequestTransaction`: `related_data` is a namespace, as every request here writes it.
pub data RequestType : Type 0 where
  subscribe_namespace publish_namespace : RequestType

pub data RequestState : Type 0 where
  ok pending_ok error : RequestState

pub record RequestTransaction (Namespace : Type 0) : Type 0 where
  pub type : RequestType
  pub state : RequestState
  pub related_data : Namespace

pub record SubscribePublishHandlerInfo (Namespace : Type 0) : Type 0 where
  pub track_full_name : FullTrackName Namespace
  pub track_alias : ℕ
  pub request_id : ℕ
  pub priority : ℕ
  pub object_ttl : ℕ
  pub group_order : Option ℕ
  pub start_location : Location

-- The order of the set compares the connection and the request, which are the key of a map here.
pub record ActiveSubscribeInfo : Type 0 where
  pub track_alias : ℕ
  pub priority : ℕ
  pub delivery_timeout : ℕ
  pub start_location : Location

-- `laps::SubscribeTrackHandler`: its own part, and what the manager reads of it besides.
pub record SubscribeTrackHandler (Namespace : Type 0) : Type 0 where
  pub fan_out : SubscribeHandler
  pub full_track_name : FullTrackName Namespace
  pub is_publisher_initiated : Bool
  pub is_from_peer : Bool
  pub support_new_group : Bool
  -- `GetRequestId()`.
  pub request_id : Option ℕ
  -- `pub_last_update_info_.time`.
  pub last_update : Option ℕ
  pub track_ranking : Option ℕ

-- `quicr::RequestResponse::ReasonCode` and `quicr::FetchResponse::ReasonCode`, as far as they are
-- written here.
pub data Reason : Type 0 where
  ok not_supported does_not_exist no_objects invalid_range internal_error : Reason

pub record SubscribeAttributes : Type 0 where
  pub priority : ℕ
  pub delivery_timeout : ℕ
  pub group_order : Option ℕ
  pub start_location : Location
  pub new_group_request_id : Option ℕ
  pub is_publisher_initiated : Bool

-- The calls of the transport library and of the peer manager, the newest first.
pub data Call (Namespace : Type 0) : Type 0 where
  -- Connection, request, alias, reason, whether the publisher began, and the largest location.
  resolve_subscribe : ℕ → ℕ → ℕ → Reason → Bool → Option Location → Call Namespace
  resolve_track_status : ℕ → ℕ → Reason → Bool → Option Location → Call Namespace
  resolve_publish_namespace : ℕ → ℕ → Namespace → List ℕ → Call Namespace
  resolve_publish_namespace_done : ℕ → ℕ → List ℕ → Call Namespace
  resolve_publish : ℕ → ℕ → ℕ → Call Namespace
  resolve_subscribe_namespace : ℕ → ℕ → Namespace → List Namespace → Call Namespace
  resolve_fetch : ℕ → ℕ → Reason → Option Location → Call Namespace
  -- Connection and the handler's number.
  subscribe_track : ℕ → ℕ → Call Namespace
  unsubscribe_track : ℕ → ℕ → Call Namespace
  update_track_subscription : ℕ → ℕ → Call Namespace
  request_new_group : ℕ → Call Namespace
  -- A handler of a namespace: made for a connection, or given a track with its start.
  publish_namespace : ℕ → ℕ → Call Namespace
  -- The most tracks, the inactive age and the property of a filter.
  set_filter : ℕ → ℕ → ℕ → ℕ → Call Namespace
  publish_track : ℕ → FullTrackName Namespace → ℕ → ℕ → Location → Call Namespace
  -- To the peer manager: the track or namespace, whether it is withdrawn, whether it is one.
  client_announce : FullTrackName Namespace → Bool → Bool → Call Namespace
  client_unannounce : FullTrackName Namespace → Call Namespace
  client_subscribe : FullTrackName Namespace → SubscribeAttributes → ℕ → Call Namespace
  client_subscribe_update : FullTrackName Namespace → Call Namespace
  client_unsubscribe : ℕ → Call Namespace

pub record Relay (Namespace : Type 0) : Type 0 where
  -- Keys: connection and request; namespace and connection; alias and connection; request and
  -- connection.
  pub requests : Map (ℕ × ℕ) (RequestTransaction Namespace)
  pub pub_namespace_active : Map (Namespace × ℕ) (List ℕ)
  pub pub_subscribes : Map (ℕ × ℕ) ℕ
  pub pub_subscribes_by_req_id : Map (ℕ × ℕ) ℕ
  pub subscribes_namespaces : Map Namespace (Map ℕ NamespaceHandler)
  -- Keys: alias and connection; connection and request; namespace and hash of the name.
  pub subscribes : Map (ℕ × ℕ) (SubscribePublishHandlerInfo Namespace)
  pub subscribe_alias_req_id : Map (ℕ × ℕ) ℕ
  pub subscribe_active : Map (Namespace × ℕ) (Map (ℕ × ℕ) ActiveSubscribeInfo)
  -- Key: hash of the namespace. Value: the number of a ranking.
  pub track_rankings : Map ℕ ℕ
  pub rankings : Map ℕ TrackRanking
  -- Key: connection and request.
  pub stop_fetch : Map (ℕ × ℕ) Bool
  pub objects : Map ℕ (SubscribeTrackHandler Namespace)
  -- The number of the next object.
  pub next : ℕ
  pub log : List (Call Namespace)

-- What the base class of the transport library has in a new handler.
pub record HandlerBase : Type 0 where
  pub connection_id : ℕ
  pub track_alias : Option ℕ
  pub priority : ℕ
  pub delivery_timeout : Option ℕ
  pub pending_new_group_request_id : Option ℕ
  pub request_id : Option ℕ

-- The transport library, the configuration, the clock, and what the peer manager answers.
pub record Environment (Namespace : Type 0) : Type 0 where
  pub has_same_prefix : Namespace → Namespace → Bool
  -- Whether `IsPrefixOf` gives less or equivalent.
  pub is_prefix_of : Namespace → Namespace → Bool
  -- `TrackNamespace{}` and `empty()`.
  pub empty_namespace : Namespace
  pub is_empty_namespace : Namespace → Bool
  pub track_hash : FullTrackName Namespace → TrackHash
  -- The base class for a track, its priority and its group order.
  pub handler_base : FullTrackName Namespace → ℕ → Option ℕ → HandlerBase
  -- What `SubscribeTrack` and `RequestNewGroup` of the base class do to a handler.
  pub subscribed : ℕ → SubscribeTrackHandler Namespace → SubscribeTrackHandler Namespace
  pub new_group_requested : SubscribeTrackHandler Namespace → SubscribeTrackHandler Namespace
  -- `GroupOrder::kAscending`.
  pub ascending : ℕ
  -- `SetNewGroupRequestId`.
  pub with_new_group : ℕ → SubscribeTrackHandler Namespace → SubscribeTrackHandler Namespace
  -- `HasSubscribers` of the peer manager.
  pub peers_subscribed : ℕ → Bool
  -- The newest object of the cache of a track: `Last()` and its last element.
  pub last_cached : ℕ → Option Location
  pub object_ttl : ℕ
  -- `kDefaultObjectTtl`.
  pub default_object_ttl : ℕ
  pub sub_dampen_ms : ℕ
  pub detached_subs : Bool
  pub allow_self : Bool
  pub now_ms : ℕ

abbrev pub as_namespace : {Namespace : Type 0} → Namespace → FullTrackName Namespace
as_namespace ns = record { name_space = ns; name = [] }

-- The row under a key, and the empty one that `operator[]` makes for a missing key.
abbrev pub row_at : {K V : Type 0} → Option (Map K V) → Map K V
row_at none = []
row_at (some m) = m

-- `if (row.empty()) erase(key)` after a row was written.
unfoldable pub keep_row :
    {J K V : Type 0} ⦃key : Key J⦄ → J → Map K V → Map J (Map K V) → Map J (Map K V)
keep_row at [] m = erase at m
keep_row at (r ∷ row) m = insert at (r ∷ row) m

-- `emplace`: nothing changes where the key is there.
unfoldable pub try_emplace : {K V : Type 0} ⦃key : Key K⦄ → K → V → Map K V → Map K V
try_emplace at v m = elim (lookup at m) [ none ↦ insert at v m | some _ ↦ m ]

pub try_emplace-new :
    {K V : Type 0} ⦃key : Key K⦄ (at : K) (v : V) (m : Map K V)
    → lookup at m ≡ none
    → try_emplace at v m ≡ insert at v m
unfolding try_emplace
try_emplace-new at v m new = rw (try_emplace, new) refl

pub try_emplace-known :
    {K V : Type 0} ⦃key : Key K⦄ (at : K) (v old : V) (m : Map K V)
    → lookup at m ≡ some old
    → try_emplace at v m ≡ m
unfolding try_emplace
try_emplace-known at v old m known = rw (try_emplace, known) refl

unfoldable pub erase_all : {K A : Type 0} ⦃key : Key K⦄ → List K → Map K A → Map K A
erase_all [] m = m
erase_all (at ∷ ats) m = erase_all ats (erase at m)

-- From the first row of an alias on, the rows until another alias is met.
unfoldable pub rows_until : {A : Type 0} → ℕ → Map (ℕ × ℕ) A → Map (ℕ × ℕ) A
rows_until alias [] = []
rows_until alias ((key, a) ∷ rest) =
    let more = rows_until alias rest in if key.0 == alias then (key, a) ∷ more else []

abbrev pub rows_of : {A : Type 0} → ℕ → Map (ℕ × ℕ) A → Map (ℕ × ℕ) A
rows_of alias m = let key : ℕ × ℕ = (alias, 0) in rows_until alias (lower_bound key m)

module _ {Namespace : Type 0} where
  abbrev pub call : Call Namespace → Action (Relay Namespace) (Unit {0})
  call c w = (done tt, record w { log = c ∷ w.log })

  unfoldable pub put_object :
      ℕ → SubscribeTrackHandler Namespace → Relay Namespace → Relay Namespace
  put_object object h w = record w { objects = insert object h w.objects }

  -- A shared pointer that is followed.
  unfoldable pub object_at : ℕ → Action (Relay Namespace) (SubscribeTrackHandler Namespace)
  object_at object w = (deref (lookup object w.objects), w)

  -- A call of a handler, with what it does to its own state.
  unfoldable pub on_object :
      ℕ
      → (SubscribeTrackHandler Namespace → SubscribeTrackHandler Namespace)
      → Action (Relay Namespace) (Unit {0})
  on_object object f w = elim (lookup object w.objects) [
    | none ↦ (fault, w)
    | some h ↦ (done tt, put_object object (f h) w)
  ]

  -- The same for a call of its own class, which may fail.
  abbrev pub put_fan_out :
      ℕ
      → SubscribeTrackHandler Namespace
      → Relay Namespace
      → Outcome (Unit {0}) × SubscribeHandler
      → Outcome (Unit {0}) × Relay Namespace
  put_fan_out object h w (o, s) = (o, put_object object (record h { fan_out = s }) w)

  unfoldable pub on_fan_out :
      ℕ → Action SubscribeHandler (Unit {0}) → Action (Relay Namespace) (Unit {0})
  on_fan_out object m w = elim (lookup object w.objects) [
    | none ↦ (fault, w)
    | some h ↦ put_fan_out object h w (m h.fan_out)
  ]

  unfoldable pub put_ranking : ℕ → TrackRanking → Relay Namespace → Relay Namespace
  put_ranking object r w = record w { rankings = insert object r w.rankings }

  -- The number of a new object.
  unfoldable pub fresh : Action (Relay Namespace) ℕ
  fresh w = (done w.next, record w { next = w.next + 1 })

  -- The constructor of the handler, of subscribe_handler.cc.
  unfoldable pub new_handler :
      Environment Namespace → FullTrackName Namespace → Option ℕ → Bool → Action (Relay Namespace) ℕ
  new_handler around name group_order initiated = do
    object ← fresh
    modify (put_object object (made (around.handler_base name 0 group_order)))
    pure object
    where
      made : HandlerBase → SubscribeTrackHandler Namespace
      made base = record {
        fan_out = record {
          connection_id = base.connection_id;
          track_alias = base.track_alias;
          priority = base.priority;
          delivery_timeout = base.delivery_timeout;
          is_datagram = false;
          subscribers = [];
          sub_namespaces = [];
          tracked_properties_value = (12, record { latest_value = 0; latest_tick_ms = 0 }) ∷ [];
          pending_new_group_request_id = base.pending_new_group_request_id;
          streams = [];
          log = [];
        };
        full_track_name = name;
        is_publisher_initiated = initiated;
        is_from_peer = false;
        support_new_group = false;
        request_id = base.request_id;
        last_update = none;
        track_ranking = none;
      }
