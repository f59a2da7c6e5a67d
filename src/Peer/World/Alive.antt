-- ===== src/Peer/World/Alive.antt =====
-- Calls of a session object that is alive.
use laps.Prelude.{ℕ, ◌≡◌, ◌⊎◌, refl, some, inl, inr, Option-cases}
use laps.Prelude.Outcome.{done, thrown, invalid_argument}
use laps.Prelude.Action.{Action}
use laps.Prelude.SortedMap.{lookup, nat_key}
use laps.Peer.Session.{Session, Line}
use laps.Peer.World.{World, put_line, on_session, session_of, get_peer_session}

module _ {Namespace : Type 0} (object : ℕ) (s : Session) (w : World Namespace) where
  pub session_of_alive : lookup object w.objects ≡ some s → session_of object w ≡ (done s, w)
  unfolding session_of
  session_of_alive here = rw (session_of, here) refl

  pub on_session_alive :
      {A : Type 0} (m : Action (Line Namespace) A)
      → lookup object w.objects ≡ some s
      → on_session object m w ≡ put_line w object (m (record { session = s; log = w.log }))
  unfolding on_session
  on_session_alive m here = rw (on_session, here) refl

-- Whether a session is known by a number or not, nothing changes.
pub get_peer_session-cases :
    {Namespace : Type 0} (id : ℕ) (w : World Namespace)
    → ((object : ℕ) × (get_peer_session id w ≡ (done object, w)))
      ⊎ (get_peer_session id w ≡ (thrown invalid_argument, w))
unfolding get_peer_session
get_peer_session-cases id w = elim (Option-cases (lookup id w.server_peer_sessions)) [
  | inr (object, there) ↦ inl (object, rw (get_peer_session, there) refl)
  | inl not_server ↦ elim (Option-cases (lookup id w.client_peer_sessions)) [
    | inr (object, there) ↦ inl (object, rw (get_peer_session, not_server, there) refl)
    | inl not_client ↦ inr (rw (get_peer_session, not_server, not_client) refl)
  ]
]
