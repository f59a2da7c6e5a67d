-- ===== src/Peer/Lifecycle/Check.antt =====
-- What a round of `CheckThread` of src/peering/peer_manager.cc does to the sessions of this side.
use laps.Prelude.{ℕ, ◌≡◌, refl, ◌∙◌, [], ◌∷◌, Option, none}
use laps.Prelude.Outcome.{done}
use laps.Prelude.Action.{each}
use laps.Prelude.SortedMap.{Map, lookup, erase, nat_key, lookup-erase}
use laps.Peer.World.{Transport, World}
use laps.Peer.Lifecycle.{free_session, erase_client, check_round}
use laps.Peer.Lifecycle.Entries.{AllDistinct, AllMoved, AllEntries, AllHeld, AllStand, lookup-tail}
use laps.Peer.Lifecycle.Renewal.{NumbersApart, IsFresh}
use laps.Peer.Lifecycle.Walk.{reconnect-Walked}

module _ {Namespace : Type 0} (q : Transport Namespace) where
  erased_others :
      (old : Map ℕ (Option ℕ)) (w : World Namespace)
      → AllMoved old
      → (w' : World Namespace) × (each (erase_client q) old w ≡ (done tt, w'))
        × (w'.objects ≡ w.objects)
        × ((n : ℕ)
            → lookup n old ≡ none
            → lookup n w'.client_peer_sessions ≡ lookup n w.client_peer_sessions)
  unfolding each erase_client free_session
  erased_others [] w moved = (w, refl, refl, λ n e. refl)
  erased_others ((id, left) ∷ old) w (gone, moved) =
      let w1 = record w { client_peer_sessions = erase id w.client_peer_sessions } in
      let (w', run, same, table) = erased_others old w1 moved in
      (
        w',
        rw (gone, run) refl,
        same,
        λ n e.
            let (other, later) = lookup-tail n id left old e in
            table n later ∙ rw (lookup-erase, other) refl,
      )

  AllStand-AllHeld :
      (w w1 w' : World Namespace) (m rest : Map ℕ ℕ) (old : Map ℕ (Option ℕ))
      → w'.objects ≡ w1.objects
      → ((n : ℕ)
          → lookup n old ≡ none
          → lookup n w'.client_peer_sessions ≡ lookup n w1.client_peer_sessions)
      → AllStand w w1 m old rest
      → AllHeld w' rest
  AllStand-AllHeld w w1 w' m [] old objects table all = tt
  AllStand-AllHeld w w1 w' m (_ ∷ rest) old objects table (one, all) = (
    record {
      session = one.held.session;
      there = rw objects one.held.there;
      up = one.held.up;
      found = table one.held.session.t_conn_id one.stays ∙ one.held.found;
    },
    AllStand-AllHeld w w1 w' m rest old objects table all,
  )

  -- A round of CheckThread, where the table of the sessions that this side opened has no number
  -- twice, each of them is alive under its number, and the numbers that the transport gives are new
  -- and differ: the round returns, and each of these sessions is then alive, connected or
  -- connecting, and in the table under its number. None stays disconnected and none is lost.
  pub check_round-AllHeld :
      (w : World Namespace)
      → NumbersApart q
      → IsFresh q w
      → AllDistinct w.client_peer_sessions
      → AllEntries w w.client_peer_sessions
      → (w' : World Namespace) × (check_round q w ≡ (done tt, w'))
        × AllHeld w' w.client_peer_sessions
  unfolding check_round
  check_round-AllHeld w numbers fresh distinct all =
      let r = reconnect-Walked q w.client_peer_sessions w numbers fresh distinct all in
      let (w', erased, objects, table) = erased_others r.old r.last r.moved in
      (
        w',
        rw (check_round, r.run, erased) refl,
        AllStand-AllHeld w r.last w' w.client_peer_sessions w.client_peer_sessions r.old objects
            table r.stand,
      )
