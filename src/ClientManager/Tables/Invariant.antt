-- ===== src/ClientManager/Tables/Invariant.antt =====
-- The tables of subscribes stay valid under subscribes, unsubscribes and the ends of connections.
use laps.Prelude.{
  ℕ, ◌≡◌, refl, Bool, true, false, ◌&&◌, List, [], ◌∷◌, none, Option-cases, inl, inr, ◌==◌,
  if◌then◌else◌, All,
}
use laps.Prelude.Action.{Action, each}
use laps.Prelude.Action.Ends.{Ends, each-Ends}
use laps.Prelude.SortedMap.{Key, lookup, IsSorted, nat_key}
use laps.Prelude.SortedMap.Order.{insert-IsSorted, erase-IsSorted}
use laps.Prelude.SortedMap.Pairs.{lex_key}
use laps.ClientManager.{
  Relay, Environment, Call, FullTrackName, SubscribeAttributes, not_supported, resolve_subscribe,
  try_emplace-new,
}
use laps.ClientManager.Subscribes.{
  info_of, record_subscribe, get_largest_available, answer, subscribe_received,
}
use laps.ClientManager.Unsubscribes.{unsubscribe_received}
use laps.ClientManager.Tables.Remove.{IsSound, Keeps}
use laps.ClientManager.Tables.Registered.{IsRegistered, erase-IsRegistered, insert-IsRegistered}
use laps.ClientManager.Tables.Announcer.{GivesRequests}
use laps.ClientManager.Tables.Subscribe.{recorded, process_subscribe-Keeps}
use laps.ClientManager.Tables.Unsubscribe.{unsubscribe_received_lem}

module _ {Namespace : Type 0} where
  -- Every publisher's row leads to a handler that is alive, the tables are in order, and every
  -- request has its subscribe.
  pub record IsValid (w : Relay Namespace) : Type 0 where
    pub sound : IsSound w
    pub sorted : IsSorted w.subscribe_alias_req_id
    pub registered : IsRegistered w

  kept-IsValid :
      (t w : Relay Namespace)
      → Keeps t w
      → IsSorted t.subscribe_alias_req_id
      → IsRegistered t
      → IsValid w
  kept-IsValid t w k sorted all = record {
    sound = k.sound;
    sorted = rw k.aliases sorted;
    registered = λ c r a e.
        let (info, found, own) = all c r a (rw k.aliases at e) in
        (info, rw k.subscribes found, own);
  }

module _ {Namespace : Type 0} ⦃key : Key Namespace⦄ (around : Environment Namespace) where
  record_subscribe-IsRegistered :
      (conn request_id : ℕ) (name : FullTrackName Namespace) (attrs : SubscribeAttributes)
      (w : Relay Namespace)
      → lookup ((around.track_hash name).track_fullname_hash, conn) w.subscribes ≡ none
      → IsRegistered w
      → IsRegistered (record_subscribe around conn request_id name attrs w)
  unfolding record_subscribe
  record_subscribe-IsRegistered conn request_id name attrs w new all =
      let alias = (around.track_hash name).track_fullname_hash in
      let info = info_of around request_id name attrs in
      insert-IsRegistered conn request_id alias info w
        (record_subscribe around conn request_id name attrs w) refl new refl
        (try_emplace-new (alias, conn) info w.subscribes new) all

  record_subscribe-IsSorted :
      (conn request_id : ℕ) (name : FullTrackName Namespace) (attrs : SubscribeAttributes)
      (w : Relay Namespace)
      → IsSorted w.subscribe_alias_req_id
      → IsSorted (record_subscribe around conn request_id name attrs w).subscribe_alias_req_id
  unfolding record_subscribe
  record_subscribe-IsSorted conn request_id name attrs w sorted =
      insert-IsSorted (conn, request_id) (around.track_hash name).track_fullname_hash
        w.subscribe_alias_req_id sorted

  -- A subscribe of a track that the connection has not subscribed to ends, and the tables are those
  -- with the subscribe.
  pub subscribe_received-Keeps :
      (conn request_id : ℕ) (name : FullTrackName Namespace) (attrs : SubscribeAttributes)
      (w : Relay Namespace)
      → GivesRequests around
      → IsSound w
      → lookup ((around.track_hash name).track_fullname_hash, conn) w.subscribes ≡ none
      → Ends
          (Keeps (recorded around conn request_id name attrs w))
          (subscribe_received around conn request_id name attrs)
          w
  unfolding subscribe_received record_subscribe
  subscribe_received-Keeps conn request_id name attrs w gives sound new =
      let alias = (around.track_hash name).track_fullname_hash in
      let c : Call Namespace =
        answer around conn request_id attrs alias (get_largest_available around name) in
      let wl : Relay Namespace = record w { log = c ∷ w.log } in
      let sound_l : IsSound wl = record { live = sound.live; sorted = sound.sorted } in
      let (u, w', e, k) =
        process_subscribe-Keeps around conn request_id name attrs wl gives sound_l in
      (
        tt,
        w',
        rw (subscribe_received, new, e) refl,
        without_log (conn == 0 && request_id == 0) c w' k,
      )
    where
      without_log :
          (peer : Bool) (c : Call Namespace) (w' : Relay Namespace)
          → Keeps
              (if peer
                then record w { log = c ∷ w.log }
                else record_subscribe around conn request_id name attrs
                    (record w { log = c ∷ w.log }))
              w'
          → Keeps (if peer then w else record_subscribe around conn request_id name attrs w) w'
      without_log true c w' k = record {
        subscribes = k.subscribes;
        aliases = k.aliases;
        active = k.active;
        lives = k.lives;
        sound = k.sound;
      }
      without_log false c w' k = record {
        subscribes = k.subscribes;
        aliases = k.aliases;
        active = k.active;
        lives = k.lives;
        sound = k.sound;
      }

  -- A subscribe ends, and the tables stay valid.
  pub subscribe_received-IsValid :
      (conn request_id : ℕ) (name : FullTrackName Namespace) (attrs : SubscribeAttributes)
      (w : Relay Namespace)
      → GivesRequests around
      → IsValid w
      → Ends IsValid (subscribe_received around conn request_id name attrs) w
  unfolding subscribe_received
  subscribe_received-IsValid conn request_id name attrs w gives valid =
      let alias = (around.track_hash name).track_fullname_hash in
      elim (Option-cases (lookup (alias, conn) w.subscribes)) [
        | inl new ↦
            let (u, w', e, k) =
              subscribe_received-Keeps conn request_id name attrs w gives valid.sound new in
            (u, w', e, by_case (conn == 0 && request_id == 0) w' new k)
        | inr (info, known) ↦ (
          tt,
          record w {
            log = resolve_subscribe conn request_id alias not_supported false none ∷ w.log;
          },
          rw (subscribe_received, known) refl,
          record {
            sound = record { live = valid.sound.live; sorted = valid.sound.sorted };
            sorted = valid.sorted;
            registered = valid.registered;
          },
        )
      ]
    where
      by_case :
          (peer : Bool) (w' : Relay Namespace)
          → lookup ((around.track_hash name).track_fullname_hash, conn) w.subscribes ≡ none
          → Keeps (if peer then w else record_subscribe around conn request_id name attrs w) w'
          → IsValid w'
      by_case true w' new k = kept-IsValid w w' k valid.sorted valid.registered
      by_case false w' new k =
          kept-IsValid (record_subscribe around conn request_id name attrs w) w' k
            (record_subscribe-IsSorted conn request_id name attrs w valid.sorted)
            (record_subscribe-IsRegistered conn request_id name attrs w new valid.registered)

  -- An unsubscribe ends, and the tables stay valid.
  pub unsubscribe_received-IsValid :
      (conn request_id : ℕ) (w : Relay Namespace)
      → IsValid w
      → Ends IsValid (unsubscribe_received around conn request_id) w
  unfolding unsubscribe_received
  unsubscribe_received-IsValid conn request_id w valid =
      let who : ℕ × ℕ = (conn, request_id) in
      elim (Option-cases (lookup who w.subscribe_alias_req_id)) [
        | inl unknown ↦ (tt, w, rw (unsubscribe_received, unknown) refl, valid)
        | inr (alias, known) ↦
            let (info, found, own) = valid.registered conn request_id alias known in
            let (w', e, aliases, subscribes, active, sound) =
              unsubscribe_received_lem around conn request_id alias info w valid.sound known
                found in
            (
              tt,
              w',
              e,
              record {
                sound = sound;
                sorted = rw aliases (erase-IsSorted who w.subscribe_alias_req_id valid.sorted);
                registered =
                    erase-IsRegistered conn request_id alias info w w' known found own aliases
                      subscribes valid.registered;
              },
            )
      ]

  -- What the clients of the relay send of subscribes.
  pub data Message : Type 0 where
    subscribe : ℕ → ℕ → FullTrackName Namespace → SubscribeAttributes → Message
    unsubscribe : ℕ → ℕ → Message

  abbrev pub handle : Message → Action (Relay Namespace) (Unit {0})
  handle (subscribe conn request_id name attrs) =
      subscribe_received around conn request_id name attrs
  handle (unsubscribe conn request_id) = unsubscribe_received around conn request_id

  handle-IsValid :
      (m : Message) (w : Relay Namespace)
      → GivesRequests around
      → IsValid w
      → Ends IsValid (handle m) w
  handle-IsValid (subscribe conn request_id name attrs) w gives valid =
      subscribe_received-IsValid conn request_id name attrs w gives valid
  handle-IsValid (unsubscribe conn request_id) w gives valid =
      unsubscribe_received-IsValid conn request_id w valid

  -- From valid tables, any subscribes and unsubscribes in any order, of any connections and with any
  -- request ids, are all handled to the end without a fault, and leave valid tables, where the
  -- library gives the subscribes of the relay their request ids.
  pub each_message-IsValid :
      (messages : List Message) (w : Relay Namespace)
      → GivesRequests around
      → IsValid w
      → Ends IsValid (each handle messages) w
  each_message-IsValid messages w gives valid =
      each-Ends (λ m. Unit {0}) IsValid handle messages w (λ m w l v. handle-IsValid m w gives v)
        (anything messages) valid
    where
      anything : (ms : List Message) → All (λ m. Unit {0}) ms
      anything [] = tt
      anything (m ∷ ms) = (tt, anything ms)
