-- ===== src/ClientManager/Publishers.antt =====
-- Publishers of src/client_manager.cc: a namespace is announced and withdrawn, and what a closed
-- connection leaves. Only log lines are left out.
use laps.Prelude.{
  ℕ, ◌==◌, true, false, not, ◌||◌, List, [], ◌∷◌, ◌++◌, Option, none, some, if◌then◌else◌, map,
}
use laps.Prelude.Outcome.{done}
use laps.Prelude.Action.{Action, pure, ◌>>=◌, ◌>>◌, gets, modify, unless, each}
use laps.Prelude.SortedMap.{Key, Map, lookup, insert, erase, nat_key}
use laps.Prelude.SortedMap.Pairs.{lex_key}
use laps.Prelude.SortedSet.{emplace, contains}
use laps.SubscribeHandler.{NamespaceHandler}
use laps.ClientManager.{
  RequestType, RequestState, RequestTransaction, ActiveSubscribeInfo, Relay, Environment,
  resolve_publish_namespace, resolve_publish_namespace_done, subscribe_track, unsubscribe_track,
  client_announce, client_unannounce, as_namespace, erase_all, try_emplace, call, on_object,
  new_handler,
}
use laps.ClientManager.Subscribes.{add_subscriber_to}

-- The keys whose second part is a connection.
unfoldable pub keys_of_connection : {K A : Type 0} → ℕ → Map (K × ℕ) A → List (K × ℕ)
keys_of_connection conn [] = []
keys_of_connection conn ((at, _) ∷ rest) =
    let more = keys_of_connection conn rest in if at.1 == conn then at ∷ more else more

module _ {Namespace : Type 0} ⦃key : Key Namespace⦄ where
  unfoldable pub purge_publish_state : ℕ → Action (Relay Namespace) (Unit {0})
  purge_publish_state conn = do
    modify (λ w. record w {
      pub_subscribes = erase_all (keys_of_connection conn w.pub_subscribes) w.pub_subscribes;
    })
    modify (λ w. record w {
      pub_namespace_active =
          erase_all (keys_of_connection conn w.pub_namespace_active) w.pub_namespace_active;
    })

module _ {Namespace : Type 0} ⦃key : Key Namespace⦄ (around : Environment Namespace) where
  -- The connections that subscribe to a namespace with the same prefix.
  unfoldable pub interested : Namespace → Map Namespace (Map ℕ NamespaceHandler) → List ℕ
  interested ns [] = []
  interested ns ((prefix, conns) ∷ rest) =
      let more = interested ns rest in
      if around.has_same_prefix prefix ns then map (λ row. row.0) conns ++ more else more

  -- A track of a namespace that is withdrawn is unsubscribed; the entry that `operator[]` makes for
  -- an unknown one is erased at once.
  unfoldable pub withdraw_track : ℕ → ℕ → Action (Relay Namespace) (Unit {0})
  withdraw_track conn alias = do
    let track : ℕ × ℕ = (alias, conn)
    known ← gets (λ w. lookup track w.pub_subscribes)
    elim known [ none ↦ pure tt | some object ↦ call (unsubscribe_track conn object) ]
    modify (λ w. record w { pub_subscribes = erase track w.pub_subscribes })

  abbrev pub aliases_at : Option (List ℕ) → List ℕ
  aliases_at none = []
  aliases_at (some aliases) = aliases

  unfoldable pub publish_namespace_done_received : ℕ → ℕ → Action (Relay Namespace) (List ℕ)
  publish_namespace_done_received conn request_id w =
      let who : ℕ × ℕ = (conn, request_id) in
      elim (lookup who w.requests) [
        | none ↦ (done [], w)
        | some request ↦
            let ns = request.related_data in
            let announced : Namespace × ℕ = (ns, conn) in
            (do
              call (client_announce (as_namespace ns) true true)
              conns ← gets (λ w. interested ns w.subscribes_namespaces)
              call (resolve_publish_namespace_done conn request_id conns)
              aliases ← gets (λ w. aliases_at (lookup announced w.pub_namespace_active))
              each (withdraw_track conn) aliases
              modify
                  (λ w. record w { pub_namespace_active = erase announced w.pub_namespace_active })
              unless (conn == 0) (call (client_unannounce (as_namespace ns)))
              pure conns)
              w
      ]

  -- A subscriber that waits is added to the new handler.
  unfoldable pub add_waiting :
      ℕ → (ℕ × ℕ) × ActiveSubscribeInfo → Action (Relay Namespace) (Unit {0})
  add_waiting object (who, info) =
      add_subscriber_to around object who.0 who.1 info.priority info.delivery_timeout
        info.start_location

  -- The handler for a track that its first subscriber names.
  unfoldable pub subscribe_for :
      ℕ → ℕ → ℕ → Map (ℕ × ℕ) ActiveSubscribeInfo → Action (Relay Namespace) (Unit {0})
  subscribe_for conn alias first subscribers w =
      let track : ℕ × ℕ = (alias, first) in
      elim (lookup track w.subscribes) [
        | none ↦ (done tt, w)
        | some info ↦
            (do
              object ← new_handler around info.track_full_name none false
              each (add_waiting object) subscribers
              call (subscribe_track conn object)
              on_object object (around.subscribed conn)
              modify (λ w.
                  let at : ℕ × ℕ = (alias, conn) in
                  record w { pub_subscribes = insert at object w.pub_subscribes }))
              w
      ]

  -- A row of the active subscribes, for a publisher of a namespace.
  unfoldable pub offer_track :
      ℕ
      → Namespace
      → (Namespace × ℕ) × Map (ℕ × ℕ) ActiveSubscribeInfo
      → Action (Relay Namespace) (Unit {0})
  offer_track conn ns (_, []) w = (done tt, w)
  offer_track conn ns (names, (who, info) ∷ more) w =
      let announced : Namespace × ℕ = (ns, conn) in
      let aliases = aliases_at (lookup announced w.pub_namespace_active) in
      unless (not (around.has_same_prefix names.0 ns) || contains info.track_alias aliases)
        (do
          modify (λ w. record w {
            pub_namespace_active =
                insert announced (emplace info.track_alias aliases) w.pub_namespace_active;
          })
          subscribe_for conn info.track_alias who.0 ((who, info) ∷ more))
        w

  unfoldable pub subscribe_to_publisher : ℕ → Namespace → Action (Relay Namespace) (Unit {0})
  subscribe_to_publisher conn ns = do
    let announced : Namespace × ℕ = (ns, conn)
    modify
        (λ w. record w { pub_namespace_active = try_emplace announced [] w.pub_namespace_active })
    active ← gets (λ w. w.subscribe_active)
    each (offer_track conn ns) active

  -- `try_emplace` keeps the type and the state of a request that is known.
  abbrev pub with_data :
      Namespace → Option (RequestTransaction Namespace) → RequestTransaction Namespace
  with_data ns none = record {
    type = RequestType.publish_namespace;
    state = RequestState.ok;
    related_data = ns;
  }
  with_data ns (some request) = record request { related_data = ns }

  unfoldable pub publish_namespace_received :
      ℕ → ℕ → Namespace → Action (Relay Namespace) (Unit {0})
  publish_namespace_received conn request_id ns = do
    let who : ℕ × ℕ = (conn, request_id)
    let announced : Namespace × ℕ = (ns, conn)
    modify
        (λ w. record w { requests = insert who (with_data ns (lookup who w.requests)) w.requests })
    known ← gets (λ w. lookup announced w.pub_namespace_active)
    elim known [
      | some _ ↦ unless (conn == 0) (subscribe_to_publisher conn ns)
      | none ↦ do
        modify (λ w. record w { pub_namespace_active = insert announced [] w.pub_namespace_active })
        conns ← gets (λ w. interested ns w.subscribes_namespaces)
        call (resolve_publish_namespace conn request_id ns conns)
        unless (conn == 0)
            (do subscribe_to_publisher conn ns; call (client_announce (as_namespace ns) false true))
    ]
