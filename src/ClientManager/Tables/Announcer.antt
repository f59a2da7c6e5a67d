-- ===== src/ClientManager/Tables/Announcer.antt =====
-- A subscribe that is sent to an announcer: it ends, and the tables of subscribes stay.
use laps.Prelude.{
  ℕ, ◌+◌, ◌≡◌, refl, ap, ◌∙◌, Bool, true, false, [], ◌∷◌, Option, some, Bool-cases, Option-cases,
  inl, inr, is_some, All, ==-self,
}
use laps.Prelude.Outcome.{done}
use laps.Prelude.Action.{◌>>◌}
use laps.Prelude.Action.Ends.{Ends}
use laps.Prelude.SortedMap.{Key, ◌==◌ as ◌is◌, ◌<?◌, Map, lookup, insert, nat_key, lookup-insert}
use laps.Prelude.SortedMap.Order.{insert-IsSorted}
use laps.Prelude.SortedMap.Pairs.{lex_key}
use laps.SubscribeHandler.{Location, Request, add_subscriber}
use laps.ClientManager.{
  Relay, Environment, FullTrackName, SubscribeTrackHandler, SubscribeAttributes, call, put_object,
  object_at, on_object, on_fan_out, fresh, new_handler, request_new_group, subscribe_track,
}
use laps.ClientManager.Subscribes.{add_subscriber_to, subscribe_to_announcer}
use laps.ClientManager.Tables.{
  Lives, Follows, Follows-trans, put_object-Follows, object_at-known, logged, call-Follows,
}
use laps.ClientManager.Tables.Remove.{IsSound, Keeps, Follows-IsSound}
use laps.ClientManager.Tables.Calls.{
  Follows->>=, when-Follows, on_object-Follows, add_subscriber-done,
}

insert-All :
    (P : (ℕ × ℕ) × ℕ → Type 0) (at : ℕ × ℕ) (v : ℕ) (m : Map (ℕ × ℕ) ℕ)
    → P (at, v)
    → All P m
    → All P (insert at v m)
unfolding insert
insert-All P at v [] p ps = (p, tt)
insert-All P at v ((j, u) ∷ m) p ps = elim (Bool-cases (j is at)) [
  | inl same ↦ rw same (p, ps.1)
  | inr other ↦ elim (Bool-cases (at <? j)) [
    | inl before ↦ rw (other, before) (p, ps)
    | inr behind ↦ rw (other, behind) (ps.0, insert-All P at v m p ps.1)
  ]
]

module _ {Namespace : Type 0} where
  -- A handler that is alive and has a request id.
  pub record IsReady (object : ℕ) (w : Relay Namespace) : Type 0 where
    pub handler : SubscribeTrackHandler Namespace
    pub known : lookup object w.objects ≡ some handler
    pub has_request : is_some handler.request_id ≡ true

  lookup-put_object :
      (object : ℕ) (h : SubscribeTrackHandler Namespace) (w : Relay Namespace)
      → lookup object (put_object object h w).objects ≡ some h
  unfolding put_object
  lookup-put_object object h w = rw (lookup-insert, ==-self object) refl

  IsReady-Lives : (object : ℕ) (w : Relay Namespace) → IsReady object w → Lives w object
  IsReady-Lives object w r = ap is_some r.known

module _ {Namespace : Type 0} ⦃key : Key Namespace⦄ (around : Environment Namespace) where
  -- What `SubscribeTrack` promises: the handler has a request id.
  abbrev pub GivesRequests : Type 0
  GivesRequests =
      (conn : ℕ) (h : SubscribeTrackHandler Namespace)
      → is_some (around.subscribed conn h).request_id ≡ true

  new_handler-Follows :
      (name : FullTrackName Namespace) (order : Option ℕ) (initiated : Bool) (w : Relay Namespace)
      → (object : ℕ) × (w' : Relay Namespace) × (new_handler around name order initiated w
          ≡ (done object, w'))
        × Follows w w'
        × Lives w' object
  unfolding new_handler fresh put_object
  new_handler-Follows name order initiated w = (
    w.next,
    (new_handler around name order initiated w).1,
    refl,
    placed _,
    ap is_some (lookup-put_object w.next _ (record w { next = w.next + 1 })),
  )
    where
      placed :
          (h : SubscribeTrackHandler Namespace)
          → Follows w (put_object w.next h (record w { next = w.next + 1 }))
      placed h =
          let w1 : Relay Namespace = record w { next = w.next + 1 } in
          Follows-trans w w1 (put_object w.next h w1)
            (record {
              subscribes = refl;
              aliases = refl;
              active = refl;
              publishers = refl;
              lives = λ o l. l;
            })
            (put_object-Follows w.next h w1)

  subscribed-IsReady :
      (object announcer : ℕ) (w : Relay Namespace)
      → GivesRequests
      → Lives w object
      → Ends
          (λ w'. Follows w w' × IsReady object w')
          (on_object object (around.subscribed announcer))
          w
  unfolding on_object
  subscribed-IsReady object announcer w gives live =
      let (h, e, known) = object_at-known object w live in
      let new : SubscribeTrackHandler Namespace = around.subscribed announcer h in
      (
        tt,
        put_object object new w,
        rw (on_object, known) refl,
        (
          put_object-Follows object new w,
          record {
            handler = new;
            known = lookup-put_object object new w;
            has_request = gives announcer h;
          },
        ),
      )

  add_subscriber_to-IsReady :
      (object conn request_id priority timeout : ℕ) (start : Location) (w : Relay Namespace)
      → IsReady object w
      → Ends
          (λ w'. Follows w w' × IsReady object w')
          (add_subscriber_to around object conn request_id priority timeout start)
          w
  unfolding add_subscriber_to on_fan_out fresh
  add_subscriber_to-IsReady object conn request_id priority timeout start w ready =
      let r : Request = record {
        conn_handle = conn;
        request_id = request_id;
        priority = priority;
        delivery_timeout = timeout;
        start_location = start;
        object = w.next;
      } in
      let w1 : Relay Namespace = record w { next = w.next + 1 } in
      let h = ready.handler in
      let new : SubscribeTrackHandler Namespace = record h {
        fan_out = (add_subscriber around.object_ttl r h.fan_out).1;
      } in
      (
        tt,
        put_object object new w1,
        rw (on_fan_out, ready.known, add_subscriber-done around.object_ttl r h.fan_out) refl,
        (
          Follows-trans w w1 (put_object object new w1)
              (record {
                subscribes = refl;
                aliases = refl;
                active = refl;
                publishers = refl;
                lives = λ o l. l;
              })
              (put_object-Follows object new w1),
          record {
            handler = new;
            known = lookup-put_object object new w1;
            has_request = ready.has_request;
          },
        ),
      )

  -- The tables that then have the handler.
  abbrev placed : ℕ → ℕ → ℕ → ℕ → Relay Namespace → Relay Namespace
  placed alias own announcer object w =
      let by_request : ℕ × ℕ = (own, announcer) in
      let track : ℕ × ℕ = (alias, announcer) in
      record w {
        pub_subscribes_by_req_id = insert by_request object w.pub_subscribes_by_req_id;
        pub_subscribes = insert track object w.pub_subscribes;
      }

  placed-Keeps :
      (alias own announcer object : ℕ) (t w w' : Relay Namespace)
      → IsSound t
      → Follows t w
      → Lives w object
      → Follows (placed alias own announcer object w) w'
      → Keeps t w'
  placed-Keeps alias own announcer object t w w' sound f live g =
      let now = Follows-IsSound t w f sound in
      let track : ℕ × ℕ = (alias, announcer) in
      let put : Relay Namespace = placed alias own announcer object w in
      let sound_put : IsSound put = record {
        live = insert-All (λ row. Lives w row.1) track object w.pub_subscribes live now.live;
        sorted = insert-IsSorted track object w.pub_subscribes now.sorted;
      } in
      record {
        subscribes = g.subscribes ∙ f.subscribes;
        aliases = g.aliases ∙ f.aliases;
        active = g.active ∙ f.active;
        lives = λ o l. g.lives o (f.lives o l);
        sound = Follows-IsSound put w' g sound_put;
      }

  request_group-Follows :
      (object : ℕ) (w : Relay Namespace)
      → Lives w object
      → Ends
          (Follows w)
          (call (request_new_group object) >> on_object object around.new_group_requested)
          w
  request_group-Follows object w live =
      Follows->>= (call (request_new_group object))
        (λ u. on_object object around.new_group_requested) w
        (call-Follows (request_new_group object) w)
        (λ u w1 g1. on_object-Follows object around.new_group_requested w1 (g1.lives object live))

  pub subscribe_to_announcer-Keeps :
      (conn request_id : ℕ) (name : FullTrackName Namespace) (attrs : SubscribeAttributes)
      (announcer : ℕ) (w : Relay Namespace)
      → GivesRequests
      → IsSound w
      → Ends (Keeps w) (subscribe_to_announcer around conn request_id name attrs announcer) w
  unfolding subscribe_to_announcer object_at
  subscribe_to_announcer-Keeps conn request_id name attrs announcer w gives sound =
      let (object, w1, e1, f1, l1) = new_handler-Follows name (some around.ascending) false w in
      let w2 : Relay Namespace = record w1 { log = subscribe_track announcer object ∷ w1.log } in
      let f2 : Follows w1 w2 = logged (subscribe_track announcer object) w1 in
      let (u3, w3, e3, (f3, r3)) =
        subscribed-IsReady object announcer w2 gives (f2.lives object l1) in
      let (u4, w4, e4, (f4, r4)) =
        add_subscriber_to-IsReady object conn request_id attrs.priority attrs.delivery_timeout
          attrs.start_location w3 r3 in
      let f : Follows w w4 =
        Follows-trans w w2 w4 (Follows-trans w w1 w2 f1 f2) (Follows-trans w2 w3 w4 f3 f4) in
      let alias = (around.track_hash name).track_fullname_hash in
      elim (Option-cases r4.handler.request_id) [
        | inl no_request ↦ absurd (cc (rw no_request at r4.has_request))
        | inr (own, given) ↦
            let live4 = IsReady-Lives object w4 r4 in
            let w5 : Relay Namespace = placed alias own announcer object w4 in
            let (u6, w6, e6, f6) =
              when-Follows (is_some attrs.new_group_request_id)
                (call (request_new_group object) >> on_object object around.new_group_requested) w5
                (request_group-Follows object w5 live4) in
            (
              tt,
              w6,
              rw (subscribe_to_announcer, e1, e3, e4, object_at, r4.known, given, e6) refl,
              placed-Keeps alias own announcer object w w4 w6 sound f live4 f6,
            )
      ]
