-- ===== src/ClientManager/Tables/Settle.antt =====
-- What becomes of the publishers of a track that nobody listens to.
use laps.Prelude.{
  ℕ, ◌≡◌, refl, ◌∙◌, sym, ap, Bool, false, not, ◌&&◌, ◌||◌, List, [], ◌∷◌, Option, none, some,
  if◌then◌else◌, Bool-cases, inl, inr, All, ◌==◌, ==_iff,
}
use laps.Prelude.Outcome.{done}
use laps.Prelude.SortedMap.{Map, lookup, insert, nat_key, lookup-insert}
use laps.Prelude.SortedMap.Pairs.{lex_key}
use laps.SubscribeHandler.{pause, call as handler_call}
use laps.ClientManager.{
  Relay, SubscribeTrackHandler, Call, unsubscribe_track, put_object, on_fan_out,
}
use laps.ClientManager.Unsubscribes.{track_has_subscribers, settle_rows}
use laps.ClientManager.Tables.{
  Lives, put_object-Follows, Follows, Follows-refl, Follows-trans, object_at-known,
}

abbrev pub is_busy : Option (Bool × Bool) → Bool
is_busy none = false
is_busy (some (busy, initiated)) = busy

abbrev pub is_dropped : Option (Bool × Bool) → Bool
is_dropped none = false
is_dropped (some (busy, initiated)) = not busy && not initiated

module _ {Namespace : Type 0} where
  -- Whether a handler has subscribers, and whether its publisher began by itself.
  abbrev pub standing : Option (SubscribeTrackHandler Namespace) → Option (Bool × Bool)
  standing none = none
  standing (some h) = some (track_has_subscribers h.fan_out, h.is_publisher_initiated)

  abbrev pub standing_of : Relay Namespace → ℕ → Option (Bool × Bool)
  standing_of w object = standing (lookup object w.objects)

  -- Of the rows: whether one has subscribers, which are dropped, and what is told of these.
  unfoldable pub some_busy : Relay Namespace → Map (ℕ × ℕ) ℕ → Bool
  some_busy w [] = false
  some_busy w ((at, object) ∷ rest) = is_busy (standing_of w object) || some_busy w rest

  unfoldable pub dropped : Relay Namespace → Map (ℕ × ℕ) ℕ → List (ℕ × ℕ)
  dropped w [] = []
  dropped w ((at, object) ∷ rest) =
      let more = dropped w rest in if is_dropped (standing_of w object) then at ∷ more else more

  unfoldable pub told :
      Relay Namespace → Map (ℕ × ℕ) ℕ → List (Call Namespace) → List (Call Namespace)
  told w [] log = log
  told w ((at, object) ∷ rest) log =
      told w rest
        (if is_dropped (standing_of w object) then unsubscribe_track at.1 object ∷ log else log)

  -- Neither the tables nor what the handlers stand at changed.
  pub record Quiet (t w : Relay Namespace) : Type 0 where
    pub follows : Follows t w
    pub standings : (object : ℕ) → standing_of w object ≡ standing_of t object

  pub Quiet-refl : (w : Relay Namespace) → Quiet w w
  Quiet-refl w = record { follows = Follows-refl w; standings = λ o. refl }

  Quiet-call :
      (t w : Relay Namespace) (c : Call Namespace)
      → Quiet t w
      → Quiet t (record w { log = c ∷ w.log })
  Quiet-call t w c q = record {
    follows = record {
      subscribes = q.follows.subscribes;
      aliases = q.follows.aliases;
      active = q.follows.active;
      publishers = q.follows.publishers;
      lives = q.follows.lives;
    };
    standings = q.standings;
  }

  -- A handler that is replaced by one of the same standing.
  Quiet-put :
      (t w : Relay Namespace) (object : ℕ) (old new : SubscribeTrackHandler Namespace)
      → lookup object w.objects ≡ some old
      → standing (some new) ≡ standing (some old)
      → Quiet t w
      → Quiet t (put_object object new w)
  unfolding put_object
  Quiet-put t w object old new known same_standing q = record {
    follows =
        Follows-trans t w (put_object object new w) q.follows (put_object-Follows object new w);
    standings = λ o. after o ∙ q.standings o;
  }
    where
      after : (o : ℕ) → standing (lookup o (insert object new w.objects)) ≡ standing_of w o
      after o = elim (Bool-cases (object == o)) [
        | inl same ↦
            rw (lookup-insert, same)
              (same_standing
                ∙ ap standing (sym known)
                ∙ ap (standing_of w) ((==_iff object o).0 same))
        | inr other ↦ rw (lookup-insert, other) refl
      ]

  -- A pause of a handler that is alive.
  paused :
      (t w : Relay Namespace) (object : ℕ)
      → Lives t object
      → Quiet t w
      → (w' : Relay Namespace) × (on_fan_out object (handler_call pause) w ≡ (done tt, w'))
        × Quiet t w'
        × (w'.log ≡ w.log)
  unfolding on_fan_out put_object
  paused t w object live q =
      let (h, e, known) = object_at-known object w (q.follows.lives object live) in
      let new : SubscribeTrackHandler Namespace = record h {
        fan_out = (handler_call pause h.fan_out).1;
      } in
      (
        put_object object new w,
        rw (on_fan_out, known) refl,
        Quiet-put t w object h new known refl q,
        refl,
      )

  pub settle_rows_lem :
      (t : Relay Namespace) (rows : Map (ℕ × ℕ) ℕ) (w : Relay Namespace)
      → All (λ row. Lives t row.1) rows
      → Quiet t w
      → (w' : Relay Namespace) × (settle_rows rows w
          ≡ (done (some_busy t rows, dropped t rows), w'))
        × Quiet t w'
        × (w'.log ≡ told t rows w.log)
  unfolding settle_rows some_busy dropped told
  settle_rows_lem t [] w live q = (w, refl, q, refl)
  settle_rows_lem t ((at, object) ∷ rest) w live q =
      let (h, here, known) = object_at-known object w (q.follows.lives object live.0) in
      let stands : standing_of t object
          ≡ some (track_has_subscribers h.fan_out, h.is_publisher_initiated) =
        sym (q.standings object) ∙ ap standing known in
      elim (Bool-cases (track_has_subscribers h.fan_out)) [
        | inl busy ↦
            let (w', e, q', log) = settle_rows_lem t rest w live.1 q in
            (w', rw (here, stands, busy, e) refl, q', rw (stands, busy) log)
        | inr idle ↦ elim (Bool-cases h.is_publisher_initiated) [
          | inl initiated ↦
              let (w1, e1, q1, log1) = paused t w object live.0 q in
              let (w', e, q', log) = settle_rows_lem t rest w1 live.1 q1 in
              (
                w',
                rw (here, stands, idle, initiated, e1, e) refl,
                q',
                rw (stands, idle, initiated) (log ∙ ap (told t rest) log1),
              )
          | inr ours ↦
              let w1 : Relay Namespace = record w { log = unsubscribe_track at.1 object ∷ w.log } in
              let (w', e, q', log) =
                settle_rows_lem t rest w1 live.1
                  (Quiet-call t w (unsubscribe_track at.1 object) q) in
              (w', rw (here, stands, idle, ours, e) refl, q', rw (stands, idle, ours) log)
        ]
      ]
