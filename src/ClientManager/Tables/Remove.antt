-- ===== src/ClientManager/Tables/Remove.antt =====
-- `RemoveOrPausePublisherSubscribe` of src/client_manager.cc.
use laps.Prelude.{
  ℕ, ◌≡◌, refl, ◌∙◌, sym, ap, Bool, true, false, ◌&&◌, List, [], ◌∷◌, Option, none, some,
  if◌then◌else◌, Bool-cases, Option-cases, inl, inr, All, ◌==◌,
}
use laps.Prelude.Outcome.{done}
use laps.Prelude.Action.Ends.{Ends}
use laps.Prelude.SortedMap.{Key, ◌==◌ as ◌is◌, Map, lookup, erase, Above, IsSorted, nat_key}
use laps.Prelude.SortedMap.Order.{lookup-Above, Above-IsSorted, erase-IsSorted}
use laps.Prelude.SortedMap.Pairs.{lex_key, lex_beq_iff, lex_irrefl}
use laps.ClientManager.{Relay, Environment, client_unsubscribe, rows_of, erase_all}
use laps.ClientManager.Unsubscribes.{settle_rows, remove_or_pause}
use laps.ClientManager.Tables.{Lives, Follows}
use laps.ClientManager.Tables.Rows.{
  is_among, lookup-rows_of, rows_of-IsSorted, rows_of-All, lookup-erase_all,
}
use laps.ClientManager.Tables.Settle.{
  is_dropped, standing_of, some_busy, dropped, told, Quiet-refl, settle_rows_lem,
}

lookup_self : (j at : ℕ × ℕ) (m : Map (ℕ × ℕ) ℕ) → Above j m → (j is at) ≡ true → lookup at m ≡ none
lookup_self j at m up same = elim (Option-cases (lookup at m)) [
  | inl missing ↦ missing
  | inr (v, found) ↦
      absurd (cc (lex_irrefl j, (lex_beq_iff j at).0 same, lookup-Above j at v m up found))
]

erase-All :
    (P : (ℕ × ℕ) × ℕ → Type 0) (at : ℕ × ℕ) (m : Map (ℕ × ℕ) ℕ) → All P m → All P (erase at m)
unfolding erase
erase-All P at [] ps = tt
erase-All P at ((j, v) ∷ m) ps = elim (Bool-cases (j is at)) [
  | inl same ↦ rw same (erase-All P at m ps.1)
  | inr other ↦ rw other (ps.0, erase-All P at m ps.1)
]

erase_all-All :
    (P : (ℕ × ℕ) × ℕ → Type 0) (ks : List (ℕ × ℕ)) (m : Map (ℕ × ℕ) ℕ)
    → All P m
    → All P (erase_all ks m)
unfolding erase_all
erase_all-All P [] m ps = ps
erase_all-All P (k ∷ ks) m ps = erase_all-All P ks (erase k m) (erase-All P k m ps)

erase_all-IsSorted :
    (ks : List (ℕ × ℕ)) (m : Map (ℕ × ℕ) ℕ) → IsSorted m → IsSorted (erase_all ks m)
unfolding erase_all
erase_all-IsSorted [] m s = s
erase_all-IsSorted (k ∷ ks) m s = erase_all-IsSorted ks (erase k m) (erase-IsSorted k m s)

All-imp :
    (P Q : (ℕ × ℕ) × ℕ → Type 0) (m : Map (ℕ × ℕ) ℕ)
    → ((row : (ℕ × ℕ) × ℕ) → P row → Q row)
    → All P m
    → All Q m
All-imp P Q [] f ps = tt
All-imp P Q (row ∷ m) f ps = (f row ps.0, All-imp P Q m f ps.1)

module _ {Namespace : Type 0} where
  -- What a pointer of a table leads to.
  abbrev pub standing_at : Relay Namespace → Option ℕ → Option (Bool × Bool)
  standing_at w none = none
  standing_at w (some object) = standing_of w object

  is_among-dropped :
      (w : Relay Namespace) (at : ℕ × ℕ) (rows : Map (ℕ × ℕ) ℕ)
      → IsSorted rows
      → is_among at (dropped w rows) ≡ is_dropped (standing_at w (lookup at rows))
  unfolding dropped lookup
  is_among-dropped w at [] s = refl
  is_among-dropped w at ((j, object) ∷ rows) s =
      let more = is_among-dropped w at rows (Above-IsSorted j rows s) in
      elim (Bool-cases (j is at)) [
        | inl this ↦
            let none_behind = lookup_self j at rows s this in
            elim (Bool-cases (is_dropped (standing_of w object))) [
              | inl goes ↦ rw (goes, this) (sym goes)
              | inr stays ↦
                  rw (stays, this)
                    (more ∙ ap (λ o. is_dropped (standing_at w o)) none_behind ∙ sym stays)
            ]
        | inr other ↦ elim (Bool-cases (is_dropped (standing_of w object))) [
          | inl goes ↦ rw (goes, other) more
          | inr stays ↦ rw (stays, other) more
        ]
      ]

  -- All pointers of the table of publishers lead to handlers that are alive, and it is in order.
  pub record IsSound (w : Relay Namespace) : Type 0 where
    pub live : All (λ row. Lives w row.1) w.pub_subscribes
    pub sorted : IsSorted w.pub_subscribes

  -- The same, but for publishers that are gone.
  pub record Keeps (t w : Relay Namespace) : Type 0 where
    pub subscribes : w.subscribes ≡ t.subscribes
    pub aliases : w.subscribe_alias_req_id ≡ t.subscribe_alias_req_id
    pub active : w.subscribe_active ≡ t.subscribe_active
    pub lives : (object : ℕ) → Lives t object → Lives w object
    pub sound : IsSound w

  pub Follows-IsSound : (t w : Relay Namespace) → Follows t w → IsSound t → IsSound w
  Follows-IsSound t w f sound = record {
    live = rw f.publishers (
        All-imp (λ row. Lives t row.1) (λ row. Lives w row.1) t.pub_subscribes
          (λ row l. f.lives row.1 l) sound.live);
    sorted = rw f.publishers sound.sorted;
  }

module _ {Namespace : Type 0} ⦃key : Key Namespace⦄ where
  -- After the walk: the rows go, and the peers are told.
  abbrev pub settled : ℕ → Bool → List (ℕ × ℕ) → Relay Namespace → Relay Namespace
  settled hash true ks w = record w { pub_subscribes = erase_all ks w.pub_subscribes }
  settled hash false ks w = record w {
    pub_subscribes = erase_all ks w.pub_subscribes;
    log = client_unsubscribe hash ∷ w.log;
  }

  settled-pub_subscribes :
      (hash : ℕ) (busy : Bool) (ks : List (ℕ × ℕ)) (w : Relay Namespace)
      → (settled hash busy ks w).pub_subscribes ≡ erase_all ks w.pub_subscribes
  settled-pub_subscribes hash true ks w = refl
  settled-pub_subscribes hash false ks w = refl

  settled-log :
      (hash : ℕ) (busy : Bool) (ks : List (ℕ × ℕ)) (w : Relay Namespace)
      → (settled hash busy ks w).log ≡ (if busy then w.log else client_unsubscribe hash ∷ w.log)
  settled-log hash true ks w = refl
  settled-log hash false ks w = refl

  settled-Keeps :
      (hash : ℕ) (busy : Bool) (ks : List (ℕ × ℕ)) (t w : Relay Namespace)
      → IsSound t
      → Follows t w
      → Keeps t (settled hash busy ks w)
  settled-Keeps hash busy ks t w sound f = by_case busy
    where
      live : All (λ row. Lives w row.1) (erase_all ks w.pub_subscribes)
      live =
          erase_all-All (λ row. Lives w row.1) ks w.pub_subscribes
            (Follows-IsSound t w f sound).live

      sorted : IsSorted (erase_all ks w.pub_subscribes)
      sorted = erase_all-IsSorted ks w.pub_subscribes (Follows-IsSound t w f sound).sorted

      by_case : (busy : Bool) → Keeps t (settled hash busy ks w)
      by_case true = record {
        subscribes = f.subscribes;
        aliases = f.aliases;
        active = f.active;
        lives = f.lives;
        sound = record { live = live; sorted = sorted };
      }
      by_case false = record {
        subscribes = f.subscribes;
        aliases = f.aliases;
        active = f.active;
        lives = f.lives;
        sound = record { live = live; sorted = sorted };
      }

  -- The rows that go, as they are looked up.
  lookup-dropped :
      (hash alias conn : ℕ) (w : Relay Namespace)
      → IsSorted w.pub_subscribes
      → is_among (alias, conn) (dropped w (rows_of hash w.pub_subscribes))
        ≡ (alias == hash && is_dropped (standing_at w (lookup (alias, conn) w.pub_subscribes)))
  lookup-dropped hash alias conn w sorted =
      is_among-dropped w (alias, conn) (rows_of hash w.pub_subscribes)
        (rows_of-IsSorted hash w.pub_subscribes sorted)
      ∙ ap (λ o. is_dropped (standing_at w o))
          (lookup-rows_of hash alias conn w.pub_subscribes sorted)
      ∙ by_case (alias == hash)
    where
      by_case :
          (b : Bool)
          → is_dropped (standing_at w (if b then lookup (alias, conn) w.pub_subscribes else none))
            ≡ (b && is_dropped (standing_at w (lookup (alias, conn) w.pub_subscribes)))
      by_case true = refl
      by_case false = refl

  remove_or_pause-settled :
      (around : Environment Namespace) (hash : ℕ) (busy : Bool) (ks : List (ℕ × ℕ))
      (w w1 : Relay Namespace)
      → around.peers_subscribed hash ≡ false
      → settle_rows (rows_of hash w.pub_subscribes) w ≡ (done (busy, ks), w1)
      → remove_or_pause around hash w ≡ (done tt, settled hash busy ks w1)
  unfolding remove_or_pause
  remove_or_pause-settled around hash true ks w w1 alone e = rw (alone, e) refl
  remove_or_pause-settled around hash false ks w w1 alone e = rw (alone, e) refl

  -- Where no peer listens, a publisher row goes just if it is of the track, its handler has no
  -- subscribers, and its publisher did not begin by itself; every other row stays. The peers are
  -- told of the end of the track just if none of its handlers has subscribers.
  pub remove_or_pause_lem :
      (around : Environment Namespace) (hash : ℕ) (w : Relay Namespace)
      → IsSound w
      → around.peers_subscribed hash ≡ false
      → (w' : Relay Namespace) × (remove_or_pause around hash w ≡ (done tt, w'))
        × ((alias conn : ℕ)
            → lookup (alias, conn) w'.pub_subscribes ≡ (
                if alias == hash
                  && is_dropped (standing_at w (lookup (alias, conn) w.pub_subscribes))
                then none
                else lookup (alias, conn) w.pub_subscribes))
        × (w'.log ≡ (
            if some_busy w (rows_of hash w.pub_subscribes)
            then told w (rows_of hash w.pub_subscribes) w.log
            else client_unsubscribe hash ∷ told w (rows_of hash w.pub_subscribes) w.log))
        × Keeps w w'
  remove_or_pause_lem around hash w sound alone =
      let rows = rows_of hash w.pub_subscribes in
      let (w1, e, q, log) =
        settle_rows_lem w rows w
          (rows_of-All (λ row. Lives w row.1) hash w.pub_subscribes sound.live) (Quiet-refl w) in
      let busy = some_busy w rows in
      let ks = dropped w rows in
      (
        settled hash busy ks w1,
        remove_or_pause-settled around hash busy ks w w1 alone e,
        (λ alias conn.
            ap (lookup (alias, conn))
              (settled-pub_subscribes hash busy ks w1 ∙ ap (erase_all ks) q.follows.publishers)
            ∙ lookup-erase_all (alias, conn) ks w.pub_subscribes
            ∙ ap (λ b. if b then none else lookup (alias, conn) w.pub_subscribes)
                (lookup-dropped hash alias conn w sound.sorted)),
        settled-log hash busy ks w1 ∙ ap (λ l. if busy then l else client_unsubscribe hash ∷ l) log,
        settled-Keeps hash busy ks w w1 sound q.follows,
      )

  -- It ends, whether a peer listens or not.
  pub remove_or_pause-Keeps :
      (around : Environment Namespace) (hash : ℕ) (w : Relay Namespace)
      → IsSound w
      → Ends (Keeps w) (remove_or_pause around hash) w
  unfolding remove_or_pause
  remove_or_pause-Keeps around hash w sound = elim (Bool-cases (around.peers_subscribed hash)) [
    | inl listens ↦ (
      tt,
      w,
      rw listens refl,
      record { subscribes = refl; aliases = refl; active = refl; lives = λ o l. l; sound = sound },
    )
    | inr alone ↦
        let (w', e, rows, log, keeps) = remove_or_pause_lem around hash w sound alone in
        (tt, w', e, keeps)
  ]
