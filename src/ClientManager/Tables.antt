-- ===== src/ClientManager/Tables.antt =====
-- What the calls of the handlers of tracks leave alone: the tables of subscribes and publishers.
use laps.Prelude.{
  ℕ, ◌≡◌, refl, ◌∙◌, Bool, true, false, List, [], ◌∷◌, Option, none, some, is_some, if◌then◌else◌,
  Bool-cases, Option-cases, inl, inr, All, ◌==◌,
}
use laps.Prelude.Outcome.{Outcome, done, fault}
use laps.Prelude.Action.{Action, ◌>>=◌, ◌>>◌, each, gets, pure}
use laps.Prelude.Action.Ends.{Ends, Ends->>=, each-Ends}
use laps.Prelude.SortedMap.{Key, Map, lookup, insert, nat_key, lookup-insert}
use laps.Prelude.SortedMap.Pairs.{lex_key}
use laps.SubscribeHandler.{SubscribeHandler}
use laps.ClientManager.{
  Relay, SubscribeTrackHandler, Call, call, put_object, object_at, on_object, on_fan_out,
  put_fan_out,
}
pub mod Rows
pub mod Settle
pub mod Remove
pub mod Purge
pub mod Calls
pub mod Announcer
pub mod Subscribe
pub mod Registered
pub mod Invariant
pub mod RoundTrip
pub mod Withdraw
pub mod Status
pub mod Closing
pub mod Unsubscribe

module _ {Namespace : Type 0} where
  -- A pointer whose object is alive.
  abbrev pub Lives : Relay Namespace → ℕ → Type 0
  Lives w object = is_some (lookup object w.objects) ≡ true

  -- The tables are those of `t`, and what was alive there is alive.
  pub record Follows (t w : Relay Namespace) : Type 0 where
    pub subscribes : w.subscribes ≡ t.subscribes
    pub aliases : w.subscribe_alias_req_id ≡ t.subscribe_alias_req_id
    pub active : w.subscribe_active ≡ t.subscribe_active
    pub publishers : w.pub_subscribes ≡ t.pub_subscribes
    pub lives : (object : ℕ) → Lives t object → Lives w object

  pub Follows-refl : (w : Relay Namespace) → Follows w w
  Follows-refl w = record {
    subscribes = refl;
    aliases = refl;
    active = refl;
    publishers = refl;
    lives = λ o h. h;
  }

  pub Follows-trans : (s t u : Relay Namespace) → Follows s t → Follows t u → Follows s u
  Follows-trans s t u f g = record {
    subscribes = g.subscribes ∙ f.subscribes;
    aliases = g.aliases ∙ f.aliases;
    active = g.active ∙ f.active;
    publishers = g.publishers ∙ f.publishers;
    lives = λ o h. g.lives o (f.lives o h);
  }

  pub put_object-Follows :
      (object : ℕ) (h : SubscribeTrackHandler Namespace) (w : Relay Namespace)
      → Follows w (put_object object h w)
  unfolding put_object
  put_object-Follows object h w = record {
    subscribes = refl;
    aliases = refl;
    active = refl;
    publishers = refl;
    lives = alive;
  }
    where
      alive : (o : ℕ) → Lives w o → is_some (lookup o (insert object h w.objects)) ≡ true
      alive o l = elim (Bool-cases (object == o)) [
        | inl same ↦ rw (lookup-insert, same) refl
        | inr other ↦ rw (lookup-insert, other) l
      ]

  pub logged : (c : Call Namespace) (w : Relay Namespace) → Follows w (record w { log = c ∷ w.log })
  logged c w = record {
    subscribes = refl;
    aliases = refl;
    active = refl;
    publishers = refl;
    lives = λ o h. h;
  }

  pub call-Follows : (c : Call Namespace) (w : Relay Namespace) → Ends (Follows w) (call c) w
  call-Follows c w = (tt, record w { log = c ∷ w.log }, refl, logged c w)

  -- A call of a handler that is alive, where the handler's part always ends.
  pub on_fan_out-Follows :
      (object : ℕ) (m : Action SubscribeHandler (Unit {0})) (w : Relay Namespace)
      → ((h : SubscribeHandler) → (m h).0 ≡ done tt)
      → Lives w object
      → Ends (Follows w) (on_fan_out object m) w
  unfolding on_fan_out
  on_fan_out-Follows object m w total live = elim (Option-cases (lookup object w.objects)) [
    | inl gone ↦ absurd (cc (rw gone at live))
    | inr (h, known) ↦ (
      tt,
      put_object object (record h { fan_out = (m h.fan_out).1 }) w,
      rw (on_fan_out, known, total h.fan_out) refl,
      put_object-Follows object (record h { fan_out = (m h.fan_out).1 }) w,
    )
  ]

  pub object_at-known :
      (object : ℕ) (w : Relay Namespace)
      → Lives w object
      → (h : SubscribeTrackHandler Namespace) × (object_at object w ≡ (done h, w))
        × (lookup object w.objects ≡ some h)
  unfolding object_at
  object_at-known object w live = elim (Option-cases (lookup object w.objects)) [
    | inl gone ↦ absurd (cc (rw gone at live))
    | inr (h, known) ↦ (h, rw (object_at, known) refl, known)
  ]
