-- ===== src/Peer/Lifecycle/Renewal.antt =====
-- A session of src/peering/peer_manager.cc that `CheckThread` connects again.
use laps.Prelude.{
  ℕ, ◌≡◌, ◌<◌, ◌≤◌, refl, true, false, List, ◌∷◌, Option, none, some, ◌==◌, length, ==_iff, arith,
}
use laps.Prelude.Outcome.{done}
use laps.Prelude.SortedMap.{Map, lookup, insert, nat_key, lookup-insert}
use laps.Peer.Event.{Event, start_client}
use laps.Peer.Session.{Session, Line, disconnected, open_connection}
use laps.Peer.World.{Transport, World}
use laps.Peer.World.Alive.{session_of_alive, on_session_alive}
use laps.Peer.Lifecycle.{keep_client, reconnect}
use laps.Peer.Lifecycle.Entries.{is_up, IsEntry}

module _ {Namespace : Type 0} (q : Transport Namespace) where
  -- Connections that the transport starts at different times have different numbers.
  abbrev pub NumbersApart : Type 0
  NumbersApart =
      (a b : List (Event Namespace))
      → length a < length b
      → (q.answers (start_client ∷ a) == q.answers (start_client ∷ b)) ≡ false

  -- The numbers that the transport gives from here on are not in the table.
  abbrev pub IsFresh : World Namespace → Type 0
  IsFresh w =
      (log : List (Event Namespace))
      → length w.log ≤ length log
      → lookup (q.answers (start_client ∷ log)) w.client_peer_sessions ≡ none

  open_connection-up :
      (line : Line Namespace)
      → line.session.is_inbound ≡ false
      → (line' : Line Namespace) × (open_connection q.answers line ≡ (done tt, line'))
        × (is_up line'.session.status ≡ true)
        × (line'.session.t_conn_id ≡ q.answers (start_client ∷ line.log))
        × (length line.log < length line'.log)
  unfolding open_connection
  open_connection-up line outbound = (
    (open_connection q.answers line).1,
    rw (open_connection, outbound) refl,
    rw (open_connection, outbound) refl,
    rw (open_connection, outbound) refl,
    rw (open_connection, outbound) (ground arith),
  )

  keep_client-free :
      (object : ℕ) (s : Session) (w : World Namespace)
      → lookup object w.objects ≡ some s
      → lookup s.t_conn_id w.client_peer_sessions ≡ none
      → keep_client q object w ≡ (
        done true,
        record w { client_peer_sessions = insert s.t_conn_id object w.client_peer_sessions },
      )
  unfolding keep_client
  keep_client-free object s w here free =
      rw (keep_client, session_of_alive object s w here, free) refl

  -- A session that is connected again, under a new number.
  pub record Renewed (id object : ℕ) (w : World Namespace) : Type 0 where
    pub next : World Namespace
    pub session : Session
    pub step :
        (m : Map ℕ ℕ) (old : Map ℕ (Option ℕ)) (w' : World Namespace)
        → reconnect q m next ≡ (done old, w')
        → reconnect q ((id, object) ∷ m) w ≡ (done ((id, none) ∷ old), w')
    pub up : is_up session.status ≡ true
    pub objects : next.objects ≡ insert object session w.objects
    pub free : lookup session.t_conn_id w.client_peer_sessions ≡ none
    pub table : next.client_peer_sessions ≡ insert session.t_conn_id object w.client_peer_sessions
    pub fresh : IsFresh next

  pub reconnect-Renewed :
      (id object : ℕ) (w : World Namespace)
      → NumbersApart
      → IsFresh w
      → (entry : IsEntry w id object) → entry.session.status ≡ disconnected
      → Renewed id object w
  unfolding reconnect
  reconnect-Renewed id object w numbers fresh entry down =
      let s = entry.session in
      let (line, opened, up, number, longer) =
        open_connection-up (record { session = s; log = w.log }) entry.outbound in
      let w1 = record w { objects = insert object line.session w.objects; log = line.log } in
      let here : lookup object w1.objects ≡ some line.session =
        rw (lookup-insert, (==_iff object object).1 refl) refl in
      let free : lookup line.session.t_conn_id w.client_peer_sessions ≡ none =
        rw number (fresh w.log (omega arith)) in
      let kept = keep_client-free object line.session w1 here free in
      record {
        next = record w1 {
          client_peer_sessions = insert line.session.t_conn_id object w.client_peer_sessions;
        };
        session = line.session;
        step = λ m old w' run.
            rw
              (
                reconnect,
                session_of_alive object s w entry.there,
                down,
                on_session_alive object s w,
                entry.there,
                opened,
                kept,
                run,
              )
              refl;
        up = up;
        objects = refl;
        free = free;
        table = refl;
        fresh = λ log long.
            let other = numbers w.log log (omega (arith, longer, long)) in
            rw (lookup-insert, number, other) (fresh log (omega (arith, longer, long)));
      }
