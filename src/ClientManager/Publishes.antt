-- ===== src/ClientManager/Publishes.antt =====
-- A publish of src/client_manager.cc, the failure of a subscribe of src/subscribe_handler.cc, and
-- what the peers send for a track. Only log lines are left out.
use laps.Prelude.{
  ℕ, ◌==◌, Bool, true, false, not, ◌&&◌, ◌||◌, List, [], ◌∷◌, Option, none, some, if◌then◌else◌,
}
use laps.Prelude.Outcome.{done}
use laps.Prelude.Action.{Action, pure, ◌>>=◌, ◌>>◌, gets, modify, when, unless, each}
use laps.Prelude.SortedMap.{Key, Map, lookup, insert, erase, lower_bound, nat_key}
use laps.Prelude.SortedMap.Pairs.{lex_key}
use laps.Prelude.SortedSet.{erase as erase_from}
use laps.SubscribeHandler.{
  Location, NamespaceHandler, pause, call as handler_call, add_subscribe_namespace, stream_closed,
}
use laps.ClientManager.{
  FullTrackName, SubscribePublishHandlerInfo, SubscribeTrackHandler, Relay, Environment,
  resolve_publish, publish_track, client_announce, as_namespace, call, object_at, on_object,
  on_fan_out, new_handler,
}
use laps.ClientManager.Subscribes.{add_subscriber_to}

pub record PublishAttributes (Namespace : Type 0) : Type 0 where
  pub track_full_name : FullTrackName Namespace
  pub track_alias : ℕ
  pub priority : ℕ
  pub delivery_timeout : ℕ
  pub start_location : Location
  pub dynamic_groups : Bool

-- From the first row of an alias on, its rows: this walk goes to the end of the table.
unfoldable pub rows_with : {A : Type 0} → ℕ → Map (ℕ × ℕ) A → Map (ℕ × ℕ) A
rows_with alias [] = []
rows_with alias ((key, a) ∷ rest) =
    let more = rows_with alias rest in if key.0 == alias then (key, a) ∷ more else more

abbrev pub has_no_rows : {K A : Type 0} → Map K A → Bool
has_no_rows [] = true
has_no_rows (_ ∷ _) = false

module _ {Namespace : Type 0} ⦃key : Key Namespace⦄ (around : Environment Namespace) where
  -- A subscriber of the namespace: its handler publishes the track.
  unfoldable pub offer_publish :
      ℕ → PublishAttributes Namespace → ℕ × NamespaceHandler → Action (Relay Namespace) (Unit {0})
  offer_publish conn attrs (_, handler) =
      unless (not around.allow_self && handler.connection_id == conn) (
        call (
          publish_track handler.object attrs.track_full_name attrs.priority attrs.delivery_timeout
            attrs.start_location))

  unfoldable pub offer_to_namespace :
      ℕ
      → PublishAttributes Namespace
      → Namespace × Map ℕ NamespaceHandler
      → Action (Relay Namespace) (Unit {0})
  offer_to_namespace conn attrs (ns, conns) =
      when (around.is_prefix_of ns attrs.track_full_name.name_space)
        (each (offer_publish conn attrs) conns)

  -- The subscribers of the track that wait are added; it tells whether there are some.
  unfoldable pub add_recorded :
      ℕ → (ℕ × ℕ) × SubscribePublishHandlerInfo Namespace → Action (Relay Namespace) (Unit {0})
  add_recorded object (at, info) =
      add_subscriber_to around object at.1 info.request_id info.priority info.object_ttl
        info.start_location

  -- The rows of the namespaces that match the track and have subscribers.
  unfoldable pub matching_rows :
      Namespace → Map Namespace (Map ℕ NamespaceHandler) → Map Namespace (Map ℕ NamespaceHandler)
  matching_rows ns [] = []
  matching_rows ns ((prefix, conns) ∷ rest) =
      let more = matching_rows ns rest in
      if around.has_same_prefix prefix ns && not (has_no_rows conns)
      then (prefix, conns) ∷ more
      else more

  -- The first prefix of them that is not empty, or else the last.
  unfoldable pub ranked_prefix : Namespace → Map Namespace (Map ℕ NamespaceHandler) → Namespace
  ranked_prefix sub_ns [] = sub_ns
  ranked_prefix sub_ns ((prefix, _) ∷ rest) =
      ranked_prefix (if around.is_empty_namespace sub_ns then prefix else sub_ns) rest

  abbrev pub prepare_publish :
      Bool
      → PublishAttributes Namespace
      → SubscribeTrackHandler Namespace
      → SubscribeTrackHandler Namespace
  prepare_publish from_peer attrs h =
      let fan_out = h.fan_out in
      let aliased =
        if from_peer
        then record h {
          fan_out = record fan_out { track_alias = some attrs.track_alias };
          is_from_peer = true;
        }
        else h in
      if attrs.dynamic_groups then record aliased { support_new_group = true } else aliased

  abbrev pub set_ranking :
      Option ℕ → SubscribeTrackHandler Namespace → SubscribeTrackHandler Namespace
  set_ranking none h = h
  set_ranking (some ranking) h = record h { track_ranking = some ranking }

  -- A publish with connection 0 and request 0 comes from a peer.
  unfoldable pub publish_received :
      ℕ → ℕ → PublishAttributes Namespace → Action (Relay Namespace) (Unit {0})
  publish_received conn request_id attrs = do
    let from_peer = conn == 0 && request_id == 0
    let name = attrs.track_full_name
    let hash = (around.track_hash name).track_fullname_hash
    let track : ℕ × ℕ = (hash, conn)
    let by_request : ℕ × ℕ = (request_id, conn)
    namespaces ← gets (λ w. w.subscribes_namespaces)
    each (offer_to_namespace conn attrs) namespaces
    object ← new_handler around name (some around.ascending) true
    on_object object (prepare_publish from_peer attrs)
    modify (λ w. record w { pub_subscribes = insert track object w.pub_subscribes })
    unless from_peer (do
      modify (λ w. record w {
        pub_subscribes_by_req_id = insert by_request object w.pub_subscribes_by_req_id;
      })
      call (resolve_publish conn request_id object)
      call (client_announce name false false))
    waiting ←
        gets (λ w. let first : ℕ × ℕ = (hash, 0) in rows_with hash (lower_bound first w.subscribes))
    each (add_recorded object) waiting
    let matching = matching_rows name.name_space namespaces
    each (λ row. each (λ entry. on_fan_out object (add_subscribe_namespace entry.1)) row.1) matching
    let sub_ns = as_namespace (ranked_prefix around.empty_namespace matching)
    ranking ← gets (λ w. lookup (around.track_hash sub_ns).track_namespace_hash w.track_rankings)
    on_object object (set_ranking ranking)
    unless (around.peers_subscribed hash || not (has_no_rows waiting) || not (has_no_rows matching))
        (on_fan_out object (handler_call pause))

abbrev pub alias_set : Option (List ℕ) → List ℕ
alias_set none = []
alias_set (some aliases) = aliases

-- `StatusChanged` with an error, for a handler that has an alias.
module _ {Namespace : Type 0} ⦃key : Key Namespace⦄ where
  unfoldable pub forget_track : ℕ → ℕ → Namespace → Relay Namespace → Relay Namespace
  forget_track alias conn ns w =
      let announced : Namespace × ℕ = (ns, conn) in
      let track : ℕ × ℕ = (alias, conn) in
      record w {
        pub_namespace_active =
            insert announced
              (erase_from alias (alias_set (lookup announced w.pub_namespace_active)))
              w.pub_namespace_active;
        pub_subscribes = erase track w.pub_subscribes;
      }

  unfoldable pub subscribe_error : ℕ → Action (Relay Namespace) (Unit {0})
  subscribe_error object = do
    h ← object_at object
    elim h.fan_out.track_alias [
      | none ↦ pure tt
      | some alias ↦
          modify (forget_track alias h.fan_out.connection_id h.full_track_name.name_space)
    ]

  -- A stream of the peers' handler of a track ends.
  unfoldable pub peer_stream_closed : ℕ → ℕ → Bool → Action (Relay Namespace) (Unit {0})
  peer_stream_closed hash stream_id reset w =
      let track : ℕ × ℕ = (hash, 0) in
      elim (lookup track w.pub_subscribes) [
        | none ↦ (done tt, w)
        | some object ↦ on_fan_out object (stream_closed stream_id reset) w
      ]
