-- ===== src/ClientManager/Tables/Calls.antt =====
-- The calls that a subscribe makes of the handlers of a track end, and leave the tables alone.
use laps.Prelude.{
  ℕ, ◌+◌, ◌≡◌, refl, Bool, true, false, ◌||◌, some, if◌then◌else◌, Bool-cases, Option-cases, inl,
  inr, ◌==◌, is_some, ltb, leb,
}
use laps.Prelude.Outcome.{done}
use laps.Prelude.Action.{Action, pure, ◌>>=◌, ◌>>◌, when, unless}
use laps.Prelude.Action.Ends.{Ends, Ends->>=}
use laps.Prelude.SortedMap.{Key, lookup, nat_key}
use laps.SubscribeHandler.{
  SubscribeHandler, Location, Request, add_subscriber, bind_subscriber, put_subscriber, resume,
  call as handler_call,
}
use laps.ClientManager.{
  Relay, Environment, SubscribeTrackHandler, SubscribeAttributes, call, put_object, object_at,
  on_object, on_fan_out, fresh, request_new_group, update_track_subscription,
}
use laps.ClientManager.Subscribes.{
  add_subscriber_to, elapsed_since, send_update, dampen_or_update, resume_publisher,
}
use laps.ClientManager.Tables.{
  Lives, Follows, Follows-refl, Follows-trans, put_object-Follows, on_fan_out-Follows,
  object_at-known, call-Follows,
}

pub add_subscriber-done :
    (ttl : ℕ) (r : Request) (h : SubscribeHandler) → (add_subscriber ttl r h).0 ≡ done tt
unfolding add_subscriber bind_subscriber put_subscriber
add_subscriber-done ttl r h = elim (Option-cases (lookup r.conn_handle h.subscribers)) [
  | inl new ↦ elim (Bool-cases (r.conn_handle == 0)) [
    | inl peer ↦ rw (add_subscriber, new, peer) refl
    | inr client ↦ rw (add_subscriber, new, client) refl
  ]
  | inr (old, known) ↦ rw (add_subscriber, known) refl
]

module _ {Namespace : Type 0} where
  -- One call after another.
  pub Follows->>= :
      {A B : Type 0} (m : Action (Relay Namespace) A) (f : A → Action (Relay Namespace) B)
      (w : Relay Namespace)
      → Ends (Follows w) m w
      → ((a : A) (w' : Relay Namespace) → Follows w w' → Ends (Follows w') (f a) w')
      → Ends (Follows w) (m >>= f) w
  Follows->>= m f w first next =
      Ends->>= (Follows w) (Follows w) m f w first
        (λ a w' g. let (b, w'', e, g') = next a w' g in (b, w'', e, Follows-trans w w' w'' g g'))

  pub when-Follows :
      (b : Bool) (m : Action (Relay Namespace) (Unit {0})) (w : Relay Namespace)
      → Ends (Follows w) m w
      → Ends (Follows w) (when b m) w
  when-Follows true m w ends = ends
  when-Follows false m w ends = (tt, w, refl, Follows-refl w)

  pub unless-Follows :
      (b : Bool) (m : Action (Relay Namespace) (Unit {0})) (w : Relay Namespace)
      → Ends (Follows w) m w
      → Ends (Follows w) (unless b m) w
  unless-Follows true m w ends = (tt, w, refl, Follows-refl w)
  unless-Follows false m w ends = ends

  if-Follows :
      (b : Bool) (m k : Action (Relay Namespace) (Unit {0})) (w : Relay Namespace)
      → Ends (Follows w) m w
      → Ends (Follows w) k w
      → Ends (Follows w) (if b then m else k) w
  if-Follows true m k w ends other = ends
  if-Follows false m k w ends other = other

  pub on_object-Follows :
      (object : ℕ) (f : SubscribeTrackHandler Namespace → SubscribeTrackHandler Namespace)
      (w : Relay Namespace)
      → Lives w object
      → Ends (Follows w) (on_object object f) w
  unfolding on_object
  on_object-Follows object f w live =
      let (h, e, known) = object_at-known object w live in
      (tt, put_object object (f h) w, rw (on_object, known) refl, put_object-Follows object (f h) w)

  fresh-Follows : (w : Relay Namespace) → Ends (Follows w) fresh w
  unfolding fresh
  fresh-Follows w = (
    w.next,
    record w { next = w.next + 1 },
    refl,
    record {
      subscribes = refl;
      aliases = refl;
      active = refl;
      publishers = refl;
      lives = λ o l. l;
    },
  )

  object_at-Follows :
      (object : ℕ) (w : Relay Namespace) → Lives w object → Ends (Follows w) (object_at object) w
  object_at-Follows object w live =
      let (h, e, known) = object_at-known object w live in (h, w, e, Follows-refl w)

module _ {Namespace : Type 0} ⦃key : Key Namespace⦄ (around : Environment Namespace) where
  pub add_subscriber_to-Follows :
      (object conn request_id priority timeout : ℕ) (start : Location) (w : Relay Namespace)
      → Lives w object
      → Ends (Follows w) (add_subscriber_to around object conn request_id priority timeout start) w
  unfolding add_subscriber_to
  add_subscriber_to-Follows object conn request_id priority timeout start w live =
      Follows->>= fresh
        (λ number. on_fan_out object (add_subscriber around.object_ttl (asked number))) w
        (fresh-Follows w)
        (λ number w' g.
          on_fan_out-Follows object (add_subscriber around.object_ttl (asked number)) w'
            (add_subscriber-done around.object_ttl (asked number)) (g.lives object live))
    where
      asked : ℕ → Request
      asked number = record {
        conn_handle = conn;
        request_id = request_id;
        priority = priority;
        delivery_timeout = timeout;
        start_location = start;
        object = number;
      }

  send_update-Follows :
      (object conn : ℕ) (new_group : Bool) (w : Relay Namespace)
      → Lives w object
      → Ends (Follows w) (send_update around object conn new_group) w
  unfolding send_update
  send_update-Follows object conn new_group w live = by_case new_group
    where
      stamp : SubscribeTrackHandler Namespace → SubscribeTrackHandler Namespace
      stamp h = record h { last_update = some around.now_ms }

      by_case : (new_group : Bool) → Ends (Follows w) (send_update around object conn new_group) w
      by_case true =
          Follows->>= (on_object object stamp)
            (λ u. call (request_new_group object) >> on_object object around.new_group_requested) w
            (on_object-Follows object stamp w live)
            (λ u w2 g2.
              Follows->>= (call (request_new_group object))
                (λ v. on_object object around.new_group_requested) w2
                (call-Follows (request_new_group object) w2)
                (λ v w3 g3.
                  on_object-Follows object around.new_group_requested w3
                    (g3.lives object (g2.lives object live))))
      by_case false =
          Follows->>= (on_object object stamp) (λ u. call (update_track_subscription conn object)) w
            (on_object-Follows object stamp w live)
            (λ u w2 g2. call-Follows (update_track_subscription conn object) w2)

  pub dampen_or_update-Follows :
      (object : ℕ) (new_group : Bool) (w : Relay Namespace)
      → Lives w object
      → Ends (Follows w) (dampen_or_update around object new_group) w
  unfolding dampen_or_update
  dampen_or_update-Follows object new_group w live =
      Follows->>= (object_at object) (λ h. guarded h >> pure false) w
        (object_at-Follows object w live)
        (λ h w1 g1.
          Follows->>= (guarded h) (λ u. pure false) w1
            (unless-Follows (leb h.fan_out.connection_id 1) (timed h) w1 (
              when-Follows (is_time h) (send_update around object h.fan_out.connection_id new_group)
                w1
                (send_update-Follows object h.fan_out.connection_id new_group w1
                  (g1.lives object live))))
            (λ u w2 g2. (false, w2, refl, Follows-refl w2)))
    where
      is_time : SubscribeTrackHandler Namespace → Bool
      is_time h = new_group || ltb around.sub_dampen_ms (elapsed_since around h.last_update)

      timed : SubscribeTrackHandler Namespace → Action (Relay Namespace) (Unit {0})
      timed h = when (is_time h) (send_update around object h.fan_out.connection_id new_group)

      guarded : SubscribeTrackHandler Namespace → Action (Relay Namespace) (Unit {0})
      guarded h = unless (leb h.fan_out.connection_id 1) (timed h)

  -- A publisher of the track that gets the subscriber.
  pub resume_publisher-Follows :
      (conn request_id : ℕ) (attrs : SubscribeAttributes) (at : ℕ × ℕ) (object : ℕ)
      (w : Relay Namespace)
      → Lives w object
      → Ends (Follows w) (resume_publisher around conn request_id attrs (at, object)) w
  unfolding resume_publisher
  resume_publisher-Follows conn request_id attrs at object w live =
      Follows->>= (object_at object) (λ h. wake h >> rest) w (object_at-Follows object w live)
        (λ h w1 g1.
          Follows->>= (wake h) (λ u. rest) w1
            (when-Follows h.is_publisher_initiated (on_fan_out object (handler_call resume)) w1 (
              on_fan_out-Follows object (handler_call resume) w1 (λ s. refl)
                (g1.lives object live)))
            (λ u w2 g2. rest_ends w2 (g2.lives object (g1.lives object live))))
    where
      wake : SubscribeTrackHandler Namespace → Action (Relay Namespace) (Unit {0})
      wake h = when h.is_publisher_initiated (on_fan_out object (handler_call resume))

      new_group : Bool
      new_group = is_some attrs.new_group_request_id

      update : Action (Relay Namespace) (Unit {0})
      update = dampen_or_update around object new_group >>= λ sent. pure tt

      add : Action (Relay Namespace) (Unit {0})
      add =
          add_subscriber_to around object conn request_id attrs.priority attrs.delivery_timeout
            attrs.start_location

      rest : Action (Relay Namespace) (Unit {0})
      rest = add >> update

      rest_ends : (w : Relay Namespace) → Lives w object → Ends (Follows w) rest w
      rest_ends w live =
          Follows->>= add (λ u. update) w
            (add_subscriber_to-Follows object conn request_id attrs.priority attrs.delivery_timeout
              attrs.start_location w live)
            (λ u w1 g1.
              Follows->>= (dampen_or_update around object new_group) (λ sent. pure tt) w1
                (dampen_or_update-Follows object new_group w1 (g1.lives object live))
                (λ sent w2 g2. (tt, w2, refl, Follows-refl w2)))
