-- ===== src/ClientManager/Namespaces.antt =====
-- Subscribes of namespaces of src/client_manager.cc, publishes, and what a closed connection
-- leaves. Only log lines are left out.
use laps.Prelude.{
  ℕ, ◌==◌, ltb, Bool, true, false, not, ◌&&◌, List, [], ◌∷◌, Option, none, some, if◌then◌else◌,
  is_some,
}
use laps.Prelude.Outcome.{done, fault, deref}
use laps.Prelude.Action.{Action, pure, ◌>>=◌, ◌>>◌, gets, modify, outcome, when, unless, each}
use laps.Prelude.SortedMap.{Key, ◌==◌ as ◌is◌, Map, lookup, insert, erase, lower_bound, nat_key}
use laps.Prelude.SortedMap.Pairs.{lex_key}
use laps.Ranking.{
  TrackRanking, HandlerInfo, set_inactive_age, add_namespace_handler, remove_namespace_handler,
}
use laps.SubscribeHandler.{
  Location, NamespaceHandler, value_or, add_subscribe_namespace, remove_subscribe_namespace,
}
use laps.ClientManager.{
  Relay, Environment, resolve_subscribe_namespace, publish_namespace, set_filter, publish_track,
  as_namespace, row_at, try_emplace, call, put_ranking, object_at, on_object, on_fan_out, fresh,
}
use laps.ClientManager.Subscribes.{get_largest_available}
use laps.ClientManager.Unsubscribes.{remove_or_pause, unsubscribe_received}
use laps.ClientManager.Publishers.{purge_publish_state}

-- `quicr::messages::TrackFilter`.
pub record TrackFilter : Type 0 where
  pub property_type : ℕ
  pub max_tracks_selected : ℕ
  pub timeout : ℕ

pub data ConnectionStatus : Type 0 where
  connected connecting not_connected closed_by_remote idle_timeout : ConnectionStatus

-- The namespaces that a connection subscribes to, and its subscribes.
unfoldable pub namespaces_of :
    {Namespace : Type 0} → ℕ → Map Namespace (Map ℕ NamespaceHandler) → List Namespace
namespaces_of conn [] = []
namespaces_of conn ((ns, conns) ∷ rest) =
    let more = namespaces_of conn rest in if is_some (lookup conn conns) then ns ∷ more else more

unfoldable pub requests_until : ℕ → Map (ℕ × ℕ) ℕ → List (ℕ × ℕ)
requests_until conn [] = []
requests_until conn ((at, _) ∷ rest) =
    let more = requests_until conn rest in if at.0 == conn then at ∷ more else []

abbrev pub requests_of : ℕ → Map (ℕ × ℕ) ℕ → List (ℕ × ℕ)
requests_of conn m = let at : ℕ × ℕ = (conn, 0) in requests_until conn (lower_bound at m)

module _ {Namespace : Type 0} ⦃key : Key Namespace⦄ (around : Environment Namespace) where
  -- What the ranking asks of a handler: the handler is in use, so its weak pointer locks.
  abbrev pub lock : Namespace → NamespaceHandler → ℕ → Option HandlerInfo
  lock prefix h object = some (record {
    prefix_hash = (around.track_hash (as_namespace prefix)).track_namespace_hash;
    connection_id = h.connection_id;
  })

  unfoldable pub on_ranking :
      ℕ → (TrackRanking → TrackRanking) → Action (Relay Namespace) (Unit {0})
  on_ranking object f w = elim (lookup object w.rankings) [
    | none ↦ (fault, w)
    | some r ↦ (done tt, put_ranking object (f r) w)
  ]

  abbrev pub property_of : Option TrackFilter → ℕ
  property_of none = 0
  property_of (some f) = f.property_type

  -- A new ranking where the namespace has none.
  unfoldable pub ranking_for : TrackRanking → ℕ → Action (Relay Namespace) ℕ
  ranking_for empty hash = do
    object ← fresh
    known ← gets (λ w. lookup hash w.track_rankings)
    elim known [
      | some ranking ↦ pure ranking
      | none ↦ do
        modify (λ w.
            put_ranking object empty
              (record w { track_rankings = insert hash object w.track_rankings }))
        pure object
    ]

  unfoldable pub apply_filter : ℕ → ℕ → Option TrackFilter → Action (Relay Namespace) (Unit {0})
  apply_filter ranking handler none = pure tt
  apply_filter ranking handler (some f) = do
    on_ranking ranking
        (λ r. if ltb r.inactive_age_ms f.timeout then set_inactive_age f.timeout r else r)
    call (set_filter handler f.max_tracks_selected f.timeout f.property_type)

  -- The announced namespaces under a prefix; the same one twice in a row is taken once.
  unfoldable pub matched_namespaces :
      Namespace → Option Namespace → Map (Namespace × ℕ) (List ℕ) → List Namespace
  matched_namespaces prefix last [] = []
  matched_namespaces prefix last (((ns, _), _) ∷ rest) =
      let kept = matched_namespaces prefix (some ns) rest in
      let passed = matched_namespaces prefix last rest in
      if around.is_prefix_of prefix ns && not (same_as last ns) then ns ∷ kept else passed
    where
      same_as : Option Namespace → Namespace → Bool
      same_as none ns = false
      same_as (some old) ns = old is ns

  -- A publisher of a track under the prefix: the track is published to the namespace.
  unfoldable pub match_publisher :
      ℕ → Namespace → NamespaceHandler → ℕ → (ℕ × ℕ) × ℕ → Action (Relay Namespace) (Unit {0})
  match_publisher conn prefix ns_handler ranking (at, object) =
      unless (not around.allow_self && at.1 == conn) (do
        h ← object_at object
        when (around.is_prefix_of prefix h.full_track_name.name_space) (do
          on_fan_out object (add_subscribe_namespace ns_handler)
          on_object object (λ h. record h { track_ranking = some ranking })
          call (
              publish_track ns_handler.object h.full_track_name h.fan_out.priority
                (value_or h.fan_out.delivery_timeout around.default_object_ttl)
                (largest_or_zero (get_largest_available around h.full_track_name)))))
    where
      largest_or_zero : Option Location → Location
      largest_or_zero none = record { group = 0; object = 0 }
      largest_or_zero (some at) = at

  -- A connection that has subscribed to the prefix keeps its old handler in the table; the new one
  -- is still given the filter and added to the ranking.
  unfoldable pub subscribe_namespace_received :
      TrackRanking → ℕ → ℕ → Namespace → Option TrackFilter → Action (Relay Namespace) (Unit {0})
  subscribe_namespace_received empty_ranking conn request_id prefix filter = do
    let th = around.track_hash (as_namespace prefix)
    object ← fresh
    let handler : NamespaceHandler = record {
      object = object;
      fullname_hash = th.track_fullname_hash;
      connection_id = conn;
      property_type = property_of filter;
    }
    call (publish_namespace conn object)
    row ← gets (λ w. try_emplace conn handler (row_at (lookup prefix w.subscribes_namespaces)))
    modify (λ w. record w { subscribes_namespaces = insert prefix row w.subscribes_namespaces })
    ranking ← ranking_for empty_ranking th.track_namespace_hash
    apply_filter ranking object filter
    on_ranking ranking (add_namespace_handler (lock prefix handler) object)
    active ← gets (λ w. w.pub_namespace_active)
    call
        (resolve_subscribe_namespace conn request_id prefix (matched_namespaces prefix none active))
    in_table ← outcome (deref (lookup conn row))
    rows ← gets (λ w. w.pub_subscribes)
    each (match_publisher conn prefix in_table ranking) rows

  -- The walk goes on from the row: undefined where the row was erased under it.
  unfoldable pub go_on_from : ℕ × ℕ → Action (Relay Namespace) (Unit {0})
  go_on_from at w = elim (lookup at w.pub_subscribes) [ none ↦ (fault, w) | some _ ↦ (done tt, w) ]

  -- A publisher of a track of the namespace loses the handler. `operator[]` of the rankings follows
  -- a null pointer where there is none.
  unfoldable pub leave_publisher :
      ℕ → Namespace → NamespaceHandler → (ℕ × ℕ) × ℕ → Action (Relay Namespace) (Unit {0})
  leave_publisher conn prefix handler (at, object) =
      unless (not around.allow_self && at.1 == conn) (do
        h ← object_at object
        when (around.has_same_prefix prefix h.full_track_name.name_space) (do
          on_fan_out object (remove_subscribe_namespace handler)
          known ← gets (λ w.
              lookup (around.track_hash (as_namespace prefix)).track_namespace_hash
                w.track_rankings)
          ranking ← outcome (deref known)
          on_ranking ranking (remove_namespace_handler (lock prefix handler) handler.object)
          remove_or_pause around at.0
          go_on_from at))

  -- A row that an earlier step erased is not met.
  unfoldable pub leave_row :
      ℕ → Namespace → NamespaceHandler → (ℕ × ℕ) × ℕ → Action (Relay Namespace) (Unit {0})
  leave_row conn prefix handler row w = elim (lookup row.0 w.pub_subscribes) [
    | none ↦ (done tt, w)
    | some _ ↦ leave_publisher conn prefix handler row w
  ]

  abbrev pub has_no_conns : Map ℕ NamespaceHandler → Bool
  has_no_conns [] = true
  has_no_conns (_ ∷ _) = false

  unfoldable pub unsubscribe_namespace_received :
      ℕ → Namespace → Action (Relay Namespace) (Unit {0})
  unsubscribe_namespace_received conn prefix w = elim (lookup prefix w.subscribes_namespaces) [
    | none ↦ (done tt, w)
    | some conns ↦ elim (lookup conn conns) [
      | none ↦
          when (has_no_conns conns)
            (modify
              (λ w. record w { subscribes_namespaces = erase prefix w.subscribes_namespaces }))
            w
      | some handler ↦
          (do
            rows ← gets (λ w. w.pub_subscribes)
            each (leave_row conn prefix handler) rows
            let left = erase conn conns
            modify (λ w. record w {
              subscribes_namespaces = insert prefix left w.subscribes_namespaces;
            })
            when (has_no_conns left) (
                modify (λ w. record w {
                  subscribes_namespaces = erase prefix w.subscribes_namespaces;
                  track_rankings =
                      erase (around.track_hash (as_namespace prefix)).track_namespace_hash
                        w.track_rankings;
                })))
            w
    ]
  ]

  unfoldable pub end_connection : ℕ → Action (Relay Namespace) (Unit {0})
  end_connection conn = do
    prefixes ← gets (λ w. namespaces_of conn w.subscribes_namespaces)
    each (unsubscribe_namespace_received conn) prefixes
    ends ← gets (λ w. requests_of conn w.subscribe_alias_req_id)
    each (λ who. unsubscribe_received around who.0 who.1) ends
    purge_publish_state conn

  unfoldable pub connection_status_changed :
      ℕ → ConnectionStatus → Action (Relay Namespace) (Unit {0})
  connection_status_changed conn connected = pure tt
  connection_status_changed conn connecting = pure tt
  connection_status_changed conn not_connected = end_connection conn
  connection_status_changed conn closed_by_remote = end_connection conn
  connection_status_changed conn idle_timeout = end_connection conn
