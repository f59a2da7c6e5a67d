-- ===== src/ClientManager/Tables/Subscribe.antt =====
-- A subscribe is recorded, also where publishers and announcers are called for it.
use laps.Prelude.{
  ℕ, ◌≡◌, refl, ◌∙◌, not, ◌||◌, ◌&&◌, List, [], ◌∷◌, some, Bool-cases, Option-cases, inl, inr, ◌==◌,
  is_some, All, if◌then◌else◌,
}
use laps.Prelude.Outcome.{done}
use laps.Prelude.Action.{each}
use laps.Prelude.Action.Ends.{Ends, each-Ends}
use laps.Prelude.SortedMap.{Key, ◌==◌ as ◌is◌, Map, lookup, insert, nat_key}
use laps.Prelude.SortedMap.Pairs.{lex_key, lex_beq_iff}
use laps.Prelude.SortedSet.{emplace}
use laps.ClientManager.{
  Relay, Environment, FullTrackName, SubscribeAttributes, rows_of, client_subscribe,
}
use laps.ClientManager.Subscribes.{
  record_subscribe, resume_publisher, match_announcer, process_subscribe,
}
use laps.ClientManager.Tables.{Lives, Follows, Follows-refl, Follows-trans}
use laps.ClientManager.Tables.Rows.{rows_of-All}
use laps.ClientManager.Tables.Remove.{IsSound, Keeps, Follows-IsSound}
use laps.ClientManager.Tables.Calls.{dampen_or_update-Follows, resume_publisher-Follows}
use laps.ClientManager.Tables.Announcer.{GivesRequests, subscribe_to_announcer-Keeps}

lookup-All :
    (P : (ℕ × ℕ) × ℕ → Type 0) (at : ℕ × ℕ) (v : ℕ) (m : Map (ℕ × ℕ) ℕ)
    → All P m
    → lookup at m ≡ some v
    → P (at, v)
unfolding lookup
lookup-All P at v [] ps found = absurd (cc found)
lookup-All P at v ((j, u) ∷ m) ps found = elim (Bool-cases (j is at)) [
  | inl same ↦
      let e : j ≡ at = (lex_beq_iff j at).0 same in
      let e' : some u ≡ some v = rw same at found in at_entry e (cc e') ps.0
  | inr other ↦ lookup-All P at v m ps.1 (rw other at found)
]
  where
    at_entry : {i k : ℕ × ℕ} {a b : ℕ} → i ≡ k → a ≡ b → P (i, a) → P (k, b)
    at_entry ei ea p = rw⁻¹ (ei, ea) p

module _ {Namespace : Type 0} where
  pub Keeps-refl : (w : Relay Namespace) → IsSound w → Keeps w w
  Keeps-refl w sound = record {
    subscribes = refl;
    aliases = refl;
    active = refl;
    lives = λ o l. l;
    sound = sound;
  }

  Keeps-trans : (s t u : Relay Namespace) → Keeps s t → Keeps t u → Keeps s u
  Keeps-trans s t u f g = record {
    subscribes = g.subscribes ∙ f.subscribes;
    aliases = g.aliases ∙ f.aliases;
    active = g.active ∙ f.active;
    lives = λ o l. g.lives o (f.lives o l);
    sound = g.sound;
  }

  Follows-Keeps : (t w : Relay Namespace) → IsSound t → Follows t w → Keeps t w
  Follows-Keeps t w sound f = record {
    subscribes = f.subscribes;
    aliases = f.aliases;
    active = f.active;
    lives = f.lives;
    sound = Follows-IsSound t w f sound;
  }

module _ {Namespace : Type 0} ⦃key : Key Namespace⦄ (around : Environment Namespace) where
  abbrev announcing : Namespace → ℕ → List ℕ → ℕ → Relay Namespace → Relay Namespace
  announcing ns announcer aliases alias w =
      let announced : Namespace × ℕ = (ns, announcer) in
      record w {
        pub_namespace_active = insert announced (emplace alias aliases) w.pub_namespace_active;
      }

  match_announcer-Keeps :
      (conn request_id : ℕ) (name : FullTrackName Namespace) (attrs : SubscribeAttributes)
      (row : (Namespace × ℕ) × List ℕ) (w : Relay Namespace)
      → GivesRequests around
      → IsSound w
      → Ends (Keeps w) (match_announcer around conn request_id name attrs row) w
  unfolding match_announcer
  match_announcer-Keeps conn request_id name attrs ((ns, announcer), aliases) w gives sound =
      let alias = (around.track_hash name).track_fullname_hash in
      let track : ℕ × ℕ = (alias, announcer) in
      elim (Bool-cases (not (around.has_same_prefix ns name.name_space) || announcer == 0)) [
        | inl skipped ↦ (tt, w, rw (match_announcer, skipped) refl, Keeps-refl w sound)
        | inr matches ↦ elim (Option-cases (lookup track w.pub_subscribes)) [
          | inl new ↦
              let w1 : Relay Namespace = announcing ns announcer aliases alias w in
              let sound1 : IsSound w1 = record { live = sound.live; sorted = sound.sorted } in
              let (u, w2, e, k) =
                subscribe_to_announcer-Keeps around conn request_id name attrs announcer w1 gives
                  sound1 in
              (
                tt,
                w2,
                rw (match_announcer, matches, new, e) refl,
                record {
                  subscribes = k.subscribes;
                  aliases = k.aliases;
                  active = k.active;
                  lives = k.lives;
                  sound = k.sound;
                },
              )
          | inr (object, known) ↦
              let live =
                lookup-All (λ row. Lives w row.1) track object w.pub_subscribes sound.live known in
              let (sent, w1, e, f) =
                dampen_or_update-Follows around object (is_some attrs.new_group_request_id) w
                  live in
              (tt, w1, rw (match_announcer, matches, known, e) refl, Follows-Keeps w w1 sound f)
        ]
      ]

  -- The walks over the publishers and the announcers.
  process_rows :
      (conn request_id : ℕ) (name : FullTrackName Namespace) (attrs : SubscribeAttributes)
      (w : Relay Namespace)
      → GivesRequests around
      → IsSound w
      → (w1 w2 : Relay Namespace) × (each
            (resume_publisher around conn request_id attrs)
            (rows_of (around.track_hash name).track_fullname_hash w.pub_subscribes)
            w
          ≡ (done tt, w1))
        × (each (match_announcer around conn request_id name attrs) w1.pub_namespace_active w1
            ≡ (done tt, w2))
        × Keeps w w2
  process_rows conn request_id name attrs w gives sound =
      let hash = (around.track_hash name).track_fullname_hash in
      let (u1, w1, e1, f1) =
        each-Ends (λ row. Lives w row.1) (Follows w) (resume_publisher around conn request_id attrs)
          (rows_of hash w.pub_subscribes) w
          (λ row w' l f.
            let (u, w'', e, g) =
              resume_publisher-Follows around conn request_id attrs row.0 row.1 w'
                (f.lives row.1 l) in
            (u, w'', e, Follows-trans w w' w'' f g))
          (rows_of-All (λ row. Lives w row.1) hash w.pub_subscribes sound.live) (Follows-refl w) in
      let k1 = Follows-Keeps w w1 sound f1 in
      let (u2, w2, e2, k2) =
        each-Ends (λ row. Unit {0}) (Keeps w) (match_announcer around conn request_id name attrs)
          w1.pub_namespace_active w1
          (λ row w' l k.
            let (u, w'', e, k') =
              match_announcer-Keeps conn request_id name attrs row w' gives k.sound in
            (u, w'', e, Keeps-trans w w' w'' k k'))
          (anything w1.pub_namespace_active) k1 in
      (w1, w2, e1, e2, k2)
    where
      anything : (m : Map (Namespace × ℕ) (List ℕ)) → All (λ row. Unit {0}) m
      anything [] = tt
      anything (row ∷ m) = (tt, anything m)

  -- What the tables are to be: with the subscribe, but for one of the peers.
  abbrev pub recorded :
      ℕ → ℕ → FullTrackName Namespace → SubscribeAttributes → Relay Namespace → Relay Namespace
  recorded conn request_id name attrs w =
      if conn == 0 && request_id == 0
      then w
      else record_subscribe around conn request_id name attrs w

  -- A subscribe that is processed ends, and the tables are those with it.
  pub process_subscribe-Keeps :
      (conn request_id : ℕ) (name : FullTrackName Namespace) (attrs : SubscribeAttributes)
      (w : Relay Namespace)
      → GivesRequests around
      → IsSound w
      → Ends
          (Keeps (recorded conn request_id name attrs w))
          (process_subscribe around conn request_id name attrs)
          w
  unfolding process_subscribe record_subscribe
  process_subscribe-Keeps conn request_id name attrs w gives sound =
      elim (Bool-cases (conn == 0 && request_id == 0)) [
        | inl peer ↦
            let (w1, w2, e1, e2, k) = process_rows conn request_id name attrs w gives sound in
            (tt, w2, rw (process_subscribe, peer, e1, e2) refl, rw peer k)
        | inr client ↦
            let w0 : Relay Namespace = record_subscribe around conn request_id name attrs w in
            let wl : Relay Namespace = record w0 {
              log = client_subscribe name attrs request_id ∷ w0.log;
            } in
            let sound_l : IsSound wl = record { live = sound.live; sorted = sound.sorted } in
            let (w1, w2, e1, e2, k) = process_rows conn request_id name attrs wl gives sound_l in
            (
              tt,
              w2,
              rw (process_subscribe, client, e1, e2) refl,
              rw client (record {
                subscribes = k.subscribes;
                aliases = k.aliases;
                active = k.active;
                lives = k.lives;
                sound = k.sound;
              }),
            )
      ]
