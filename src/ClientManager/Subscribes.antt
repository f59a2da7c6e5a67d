-- ===== src/ClientManager/Subscribes.antt =====
-- Subscribes of src/client_manager.cc: a subscribe is recorded and passed to the publishers, and
-- taken back. Only log lines are left out.
use laps.Prelude.{
  ℕ, ◌+◌, ◌-◌, ◌%◌, ◌^◌, ◌==◌, ltb, leb, Bool, true, false, not, ◌&&◌, ◌||◌, List, Option, none,
  some, is_some,
}
use laps.Prelude.Outcome.{value}
use laps.Prelude.Action.{Action, pure, ◌>>=◌, ◌>>◌, gets, modify, outcome, when, unless, each}
use laps.Prelude.SortedMap.{Key, lookup, insert, nat_key}
use laps.Prelude.SortedMap.Pairs.{lex_key}
use laps.Prelude.SortedSet.{emplace}
use laps.SubscribeHandler.{Location, resume, call as handler_call, add_subscriber}
use laps.ClientManager.{
  FullTrackName, SubscribePublishHandlerInfo, SubscribeAttributes, ok, not_supported, Call, Relay,
  Environment, resolve_subscribe, subscribe_track, update_track_subscription, request_new_group,
  client_subscribe, row_at, try_emplace, rows_of, call, object_at, on_object, on_fan_out, fresh,
  new_handler,
}

module _ {Namespace : Type 0} ⦃key : Key Namespace⦄ (around : Environment Namespace) where
  -- `AddSubscriber` on a handler: the number of the handler that it may make is a new one.
  unfoldable pub add_subscriber_to :
      ℕ → ℕ → ℕ → ℕ → ℕ → Location → Action (Relay Namespace) (Unit {0})
  add_subscriber_to object conn request_id priority timeout start = do
    number ← fresh
    on_fan_out object (
        add_subscriber around.object_ttl (record {
          conn_handle = conn;
          request_id = request_id;
          priority = priority;
          delivery_timeout = timeout;
          start_location = start;
          object = number;
        }))

  -- The milliseconds since the last update; one more than the limit where there was none, in 32
  -- bits.
  abbrev pub elapsed_since : Option ℕ → ℕ
  elapsed_since none = (around.sub_dampen_ms + 1) % 2 ^ 32
  elapsed_since (some time) = around.now_ms - time

  -- The publisher is sent an update, or is asked for a new group.
  unfoldable pub send_update : ℕ → ℕ → Bool → Action (Relay Namespace) (Unit {0})
  send_update object conn true = do
    on_object object (λ h. record h { last_update = some around.now_ms })
    call (request_new_group object)
    on_object object around.new_group_requested
  send_update object conn false = do
    on_object object (λ h. record h { last_update = some around.now_ms })
    call (update_track_subscription conn object)

  -- Connections 0 and 1, of the peers, get no updates. It returns false whatever it does.
  unfoldable pub dampen_or_update : ℕ → Bool → Action (Relay Namespace) Bool
  dampen_or_update object new_group_request = do
    h ← object_at object
    unless (leb h.fan_out.connection_id 1) (
        when (new_group_request || ltb around.sub_dampen_ms (elapsed_since h.last_update))
          (send_update object h.fan_out.connection_id new_group_request))
    pure false

  -- What is kept of a subscribe. The start is left at its default.
  abbrev pub info_of :
      ℕ → FullTrackName Namespace → SubscribeAttributes → SubscribePublishHandlerInfo Namespace
  info_of request_id name attrs = record {
    track_full_name = name;
    track_alias = (around.track_hash name).track_fullname_hash;
    request_id = request_id;
    priority = attrs.priority;
    object_ttl = attrs.delivery_timeout % 2 ^ 32;
    group_order = attrs.group_order;
    start_location = record { group = 0; object = 0 };
  }

  -- A subscriber of the relay in the three tables.
  unfoldable pub record_subscribe :
      ℕ → ℕ → FullTrackName Namespace → SubscribeAttributes → Relay Namespace → Relay Namespace
  record_subscribe conn request_id name attrs w =
      let th = around.track_hash name in
      let alias = th.track_fullname_hash in
      let names : Namespace × ℕ = (name.name_space, th.track_name_hash) in
      let who : ℕ × ℕ = (conn, request_id) in
      let track : ℕ × ℕ = (alias, conn) in
      record w {
        subscribe_active =
            insert names
              (try_emplace who
                (record {
                  track_alias = alias;
                  priority = attrs.priority;
                  delivery_timeout = attrs.delivery_timeout;
                  start_location = attrs.start_location;
                })
                (row_at (lookup names w.subscribe_active)))
              w.subscribe_active;
        subscribe_alias_req_id = insert who alias w.subscribe_alias_req_id;
        subscribes = try_emplace track (info_of request_id name attrs) w.subscribes;
      }

  -- A publisher of the track gets the subscriber.
  unfoldable pub resume_publisher :
      ℕ → ℕ → SubscribeAttributes → (ℕ × ℕ) × ℕ → Action (Relay Namespace) (Unit {0})
  resume_publisher conn request_id attrs (_, object) = do
    h ← object_at object
    when h.is_publisher_initiated (on_fan_out object (handler_call resume))
    add_subscriber_to object conn request_id attrs.priority attrs.delivery_timeout
        attrs.start_location
    sent ← dampen_or_update object (is_some attrs.new_group_request_id)
    pure tt

  -- A subscribe that is sent to an announcer, with the tables that then have its handler.
  unfoldable pub subscribe_to_announcer :
      ℕ
      → ℕ
      → FullTrackName Namespace
      → SubscribeAttributes
      → ℕ
      → Action (Relay Namespace) (Unit {0})
  subscribe_to_announcer conn request_id name attrs announcer = do
    object ← new_handler around name (some around.ascending) false
    call (subscribe_track announcer object)
    on_object object (around.subscribed announcer)
    add_subscriber_to object conn request_id attrs.priority attrs.delivery_timeout
        attrs.start_location
    h ← object_at object
    own ← outcome (value h.request_id)
    modify (λ w.
        let by_request : ℕ × ℕ = (own, announcer) in
        let track : ℕ × ℕ = ((around.track_hash name).track_fullname_hash, announcer) in
        record w {
          pub_subscribes_by_req_id = insert by_request object w.pub_subscribes_by_req_id;
          pub_subscribes = insert track object w.pub_subscribes;
        })
    when (is_some attrs.new_group_request_id)
        (do call (request_new_group object); on_object object around.new_group_requested)

  -- A row of the announced namespaces, for a subscribe.
  unfoldable pub match_announcer :
      ℕ
      → ℕ
      → FullTrackName Namespace
      → SubscribeAttributes
      → (Namespace × ℕ) × List ℕ
      → Action (Relay Namespace) (Unit {0})
  match_announcer conn request_id name attrs ((ns, announcer), track_aliases) =
      unless (not (around.has_same_prefix ns name.name_space) || announcer == 0) (
        let alias = (around.track_hash name).track_fullname_hash in
        let track : ℕ × ℕ = (alias, announcer) in
        let announced : Namespace × ℕ = (ns, announcer) in
        do
          known ← gets (λ w. lookup track w.pub_subscribes)
          elim known [
            | none ↦ do
              modify (λ w. record w {
                pub_namespace_active =
                    insert announced (emplace alias track_aliases) w.pub_namespace_active;
              })
              subscribe_to_announcer conn request_id name attrs announcer
            | some object ↦ do
              sent ← dampen_or_update object (is_some attrs.new_group_request_id)
              pure tt
          ])

  -- The subscribe message for the peers is made of the request, the name and the attributes.
  unfoldable pub process_subscribe :
      ℕ → ℕ → FullTrackName Namespace → SubscribeAttributes → Action (Relay Namespace) (Unit {0})
  process_subscribe conn request_id name attrs = do
    unless (conn == 0 && request_id == 0) (do
      modify (record_subscribe conn request_id name attrs)
      call (client_subscribe name attrs request_id))
    rows ← gets (λ w. rows_of (around.track_hash name).track_fullname_hash w.pub_subscribes)
    each (resume_publisher conn request_id attrs) rows
    announced ← gets (λ w. w.pub_namespace_active)
    each (match_announcer conn request_id name attrs) announced

  unfoldable pub get_largest_available : FullTrackName Namespace → Option Location
  get_largest_available name = around.last_cached (around.track_hash name).track_fullname_hash

  -- Without a largest location the second field of the response is its default.
  abbrev pub answer : ℕ → ℕ → SubscribeAttributes → ℕ → Option Location → Call Namespace
  answer conn request_id attrs alias none = resolve_subscribe conn request_id alias ok false none
  answer conn request_id attrs alias (some at) =
      resolve_subscribe conn request_id alias ok attrs.is_publisher_initiated (some at)

  unfoldable pub subscribe_received :
      ℕ → ℕ → FullTrackName Namespace → SubscribeAttributes → Action (Relay Namespace) (Unit {0})
  subscribe_received conn request_id name attrs w =
      let alias = (around.track_hash name).track_fullname_hash in
      let track : ℕ × ℕ = (alias, conn) in
      elim (lookup track w.subscribes) [
        | some _ ↦ call (resolve_subscribe conn request_id alias not_supported false none) w
        | none ↦
            (do
              call (answer conn request_id attrs alias (get_largest_available name))
              process_subscribe conn request_id name attrs)
              w
      ]
