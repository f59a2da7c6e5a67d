-- ===== src/Peer/Announces/Once.antt =====
-- How far an announce goes that `AnnounceInfoReceived` of src/peering/peer_manager.cc gets: the
-- relays may be connected in a circle.
use laps.Prelude.{
  ℕ, ◌≡◌, refl, ap, ◌∙◌, Bool, false, List, [], ◌∷◌, Option, none, some, ◌==◌, inl, inr, Bool-cases,
  Option-cases, ==_iff,
}
use laps.Prelude.Outcome.{Outcome, done, thrown, fault, stuck}
use laps.Prelude.Action.{Action, after, ◌>>◌, each, caught}
use laps.Prelude.SortedMap.{lookup, nat_key}
use laps.Messages.AnnounceInfo.{AnnounceInfo}
use laps.InfoBase.State.{InfoBase}
use laps.InfoBase.Announces.{add_announce}
use laps.InfoBase.Announces.Table.{announced, add_announce-find}
use laps.Peer.World.{Transport, World, on_session, get_peer_session, call_client, each_session}
use laps.Peer.World.Alive.{get_peer_session-cases}
use laps.Peer.Announces.{
  offer_announce, announce_event, process_announce_info, announce_info_received,
}

module _ {Namespace : Type 0} where
  -- A call that leaves the info base as it is.
  abbrev Keeps : {A : Type 0} → Action (World Namespace) A → Type 0
  Keeps m = (w : World Namespace) → (m w).1.info_base ≡ w.info_base

  after-Keeps :
      {A B : Type 0} (f : A → Action (World Namespace) B) (ib : InfoBase Namespace)
      → ((a : A) → Keeps (f a))
      → (r : Outcome A × World Namespace) → r.1.info_base ≡ ib
      → (after f r).1.info_base ≡ ib
  after-Keeps f ib keeps (done a, w) e = keeps a w ∙ e
  after-Keeps f ib keeps (thrown x, w) e = e
  after-Keeps f ib keeps (fault, w) e = e
  after-Keeps f ib keeps (stuck, w) e = e

  each-Keeps :
      (f : ℕ × ℕ → Action (World Namespace) (Unit {0}))
      → ((row : ℕ × ℕ) → Keeps (f row))
      → (m : List (ℕ × ℕ)) → Keeps (each f m)
  unfolding each
  each-Keeps f keeps [] w = refl
  each-Keeps f keeps (row ∷ m) w =
      after-Keeps (λ _. each f m) w.info_base (λ _. each-Keeps f keeps m) (f row w) (keeps row w)

  each_session-Keeps :
      (f : ℕ × ℕ → Action (World Namespace) (Unit {0}))
      → ((row : ℕ × ℕ) → Keeps (f row))
      → Keeps (each_session f)
  unfolding each_session
  each_session-Keeps f keeps w =
      after-Keeps (λ _ w'. each f w'.server_peer_sessions w') w.info_base
        (λ _ w'. each-Keeps f keeps w'.server_peer_sessions w') (each f w.client_peer_sessions w)
        (each-Keeps f keeps w.client_peer_sessions w)

  call_client-Keeps : (event : _) → Keeps (call_client event)
  unfolding call_client
  call_client-Keeps event w = elim (Bool-cases w.has_client_manager) [
    | inl there ↦ rw (call_client, there) refl
    | inr missing ↦ rw (call_client, missing) refl
  ]

  on_session-Keeps : {A : Type 0} (object : ℕ) (m : _) → Keeps {A = A} (on_session object m)
  unfolding on_session
  on_session-Keeps object m w = elim (Option-cases (lookup object w.objects)) [
    | inl gone ↦ rw (on_session, gone) refl
    | inr (s, there) ↦ rw (on_session, there) refl
  ]

module _ {Namespace : Type 0} (q : Transport Namespace) (a : AnnounceInfo Namespace) where
  offer_announce-Keeps :
      (but : Option ℕ) (withdraw : Bool) (row : ℕ × ℕ) → Keeps (offer_announce q but a withdraw row)
  unfolding offer_announce
  offer_announce-Keeps none withdraw row w = on_session-Keeps row.1 _ w
  offer_announce-Keeps (some skipped) withdraw row w = elim (Bool-cases (skipped == row.0)) [
    | inl skip ↦ rw skip refl
    | inr send ↦ rw send (on_session-Keeps row.1 _ w)
  ]

  flood-Keeps :
      (id : ℕ) (withdraw : Bool)
      → Keeps (
          each_session (offer_announce q (some id) a withdraw)
          >> call_client (announce_event q a withdraw))
  flood-Keeps id withdraw w =
      after-Keeps (λ _. call_client (announce_event q a withdraw)) w.info_base
        (λ _. call_client-Keeps (announce_event q a withdraw))
        (each_session (offer_announce q (some id) a withdraw) w)
        (each_session-Keeps (offer_announce q (some id) a withdraw)
          (offer_announce-Keeps (some id) withdraw) w)

  caught_world : (r : Outcome (Unit {0}) × World Namespace) → (caught (λ w. (done tt, w)) r).1 ≡ r.1
  caught_world (done x, w) = refl
  caught_world (thrown x, w) = refl
  caught_world (fault, w) = refl
  caught_world (stuck, w) = refl

  -- The table of announces after the call is the one that AddAnnounce makes.
  announce_info_received-table :
      (id object : ℕ) (w : World Namespace)
      → get_peer_session id w ≡ (done object, w)
      → (announce_info_received q id a false w).1.info_base
        ≡ (add_announce q.hashes w.info_base a).0
  unfolding announce_info_received process_announce_info
  announce_info_received-table id object w found =
      let after_add = record w { info_base = (add_announce q.hashes w.info_base a).0 } in
      ap (λ w'. w'.info_base) (caught_world (process_announce_info q id a false w))
      ∙ (rw (process_announce_info, found)
          (elim (Bool-cases (add_announce q.hashes w.info_base a).1) [
            | inl is_new ↦ rw is_new (flood-Keeps id false after_add)
            | inr known ↦ rw known refl
          ]))

  -- An announce that its source made before goes no further: no call is made.
  known_silent :
      (id : ℕ) (old : AnnounceInfo Namespace) (w : World Namespace)
      → announced w.info_base a.fullname_hash a.source_node_id ≡ some old
      → (announce_info_received q id a false w).1.log ≡ w.log
  unfolding announce_info_received process_announce_info
  known_silent id old w known =
      let is_new : (add_announce q.hashes w.info_base a).1 ≡ false =
        (add_announce-find q.hashes w.info_base a).0 ∙ rw known refl in
      ap (λ w'. w'.log) (caught_world (process_announce_info q id a false w))
      ∙ elim (get_peer_session-cases id w) [
        | inl (object, found) ↦ rw (process_announce_info, found, is_new) refl
        | inr absent ↦ rw (process_announce_info, absent) refl
      ]

  now_announced :
      (ib : InfoBase Namespace)
      → (old : AnnounceInfo Namespace) × (announced
            (add_announce q.hashes ib a).0
            a.fullname_hash
            a.source_node_id
          ≡ some old)
  now_announced ib =
      let found = add_announce-find q.hashes ib a in
      let here = found.1 a.fullname_hash a.source_node_id in
      let hash_same = (==_iff a.fullname_hash a.fullname_hash).1 refl in
      let id_same = (==_iff a.source_node_id a.source_node_id).1 refl in
      elim (Option-cases (announced ib a.fullname_hash a.source_node_id)) [
        | inl absent ↦ (a, rw (found.0, absent, hash_same, id_same) at here)
        | inr (old, present) ↦ (old, rw (found.0, present) at here)
      ]

  -- An announce floods a network at most once per relay: after AnnounceInfoReceived got it from a
  -- peer that is known, the same announce from any peer makes no call at all.
  pub announce_once :
      (id again object : ℕ) (w : World Namespace)
      → get_peer_session id w ≡ (done object, w)
      → let heard = (announce_info_received q id a false w).1 in
        (announce_info_received q again a false heard).1.log ≡ heard.log
  announce_once id again object w found =
      let heard = (announce_info_received q id a false w).1 in
      let (old, there) = now_announced w.info_base in
      known_silent again old heard (
        ap (λ ib. announced ib a.fullname_hash a.source_node_id)
          (announce_info_received-table id object w found)
        ∙ there)
