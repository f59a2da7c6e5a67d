-- ===== src/Peer/World.antt =====
-- The state of the class `PeerManager` of src/peering/peer_manager.h, with the sessions and the
-- info base that it holds.
use laps.Prelude.{
  ℕ, ◌+◌, Bool, true, false, List, [], ◌∷◌, ◌++◌, Option, none, some, ◌||◌, ◌==◌, if◌then◌else◌,
}
use laps.Prelude.Outcome.{Outcome, done, thrown, fault, stuck, invalid_argument}
use laps.Prelude.Action.{Action, pure, after, ◌>>=◌, ◌>>◌, gets, outcome, when, each}
use laps.Prelude.SortedMap.{Map, lookup, insert, nat_key, pair_key}
use laps.Messages.UintVar.{UintVar}
use laps.Messages.TrackNamespace.{TrackNamespaces}
use laps.Messages.NodeInfo.{NodeInfo, NodePathItem}
use laps.Messages.SubscribeInfo.{SubscribeInfo, TrackHash}
use laps.Messages.AnnounceInfo.{AnnounceInfo}
use laps.InfoBase.State.{InfoBase, Sessions}
use laps.InfoBase.Announces.{Hashes}
use laps.Peer.Event.{Event, Answers}
use laps.Peer.Session.{Session, Line}
pub mod Alive

-- What the subscribe message of the transport library says, as far as the manager reads it. The
-- priority is an exception where the message has none.
pub record ParsedSubscribe (Namespace : Type 0) : Type 0 where
  pub track_namespace : Namespace
  pub track_name : List ℕ
  pub priority : Outcome ℕ
  pub new_group_request : Option ℕ
  -- Whether there is a parameter of that type, the message without it, and with one more.
  pub has_request : Bool
  pub without_request : List ℕ
  pub with_request : ℕ → List ℕ

-- The transport library: its encodings, its hashes, its parser, and what it answers.
pub record Transport (Namespace : Type 0) : Type 0 where
  pub uint_var : UintVar
  pub namespaces : TrackNamespaces Namespace
  pub hashes : Hashes Namespace
  pub track_hash : Namespace → List ℕ → TrackHash
  pub has_same_prefix : Namespace → Namespace → Bool
  pub parse_subscribe : List ℕ → Outcome (ParsedSubscribe Namespace)
  pub answers : Answers Namespace
  -- `EnqueueFlags{}.use_reliable`.
  pub default_reliable : Bool

pub record World (Namespace : Type 0) : Type 0 where
  pub info_base : InfoBase Namespace
  -- The session objects that are alive.
  pub objects : Map ℕ Session
  -- Key: peer session id. Value: session object.
  pub server_peer_sessions : Map ℕ ℕ
  pub client_peer_sessions : Map ℕ ℕ
  pub node_info : NodeInfo
  pub stop : Bool
  -- Whether `SetClientManager` was called.
  pub has_client_manager : Bool
  -- The keys of `pub_subscribes` and the namespaces of `pub_namespace_active` of src/state.h.
  pub pub_subscribes : List (ℕ × ℕ)
  pub pub_namespace_active : List Namespace
  pub log : List (Event Namespace)

abbrev pub conn_of : Option Session → Option ℕ
conn_of none = none
conn_of (some s) = some s.t_conn_id

abbrev pub values {ℓ κ} : {K : Type ℓ} {A : Type κ} → List (K × A) → List A
values [] = []
values ((_, a) ∷ m) = a ∷ values m

module _ {Namespace : Type 0} where
  -- `lock()` and then `GetSessionId()`.
  abbrev pub sessions : World Namespace → Sessions
  sessions w object = conn_of (lookup object w.objects)

  -- `lock()` of a weak pointer, which may be empty.
  abbrev pub locked : World Namespace → Option ℕ → Option ℕ
  locked w none = none
  locked w (some object) = elim (lookup object w.objects) [ none ↦ none | some _ ↦ some object ]

  abbrev pub put_line :
      {A : Type 0} → World Namespace → ℕ → Outcome A × Line Namespace → Outcome A × World Namespace
  put_line w object (r, line) =
      (r, record w { objects = insert object line.session w.objects; log = line.log })

  -- A call of a method of a session object. To follow a pointer to none is undefined.
  unfoldable pub on_session :
      {A : Type 0} → ℕ → Action (Line Namespace) A → Action (World Namespace) A
  on_session object m w = elim (lookup object w.objects) [
    | none ↦ (fault, w)
    | some s ↦ put_line w object (m (record { session = s; log = w.log }))
  ]

  -- A field of a session object.
  unfoldable pub session_of : ℕ → Action (World Namespace) Session
  session_of object w = elim (lookup object w.objects) [ none ↦ (fault, w) | some s ↦ (done s, w) ]

  -- A function of the info base that does not fail.
  abbrev pub on_base :
      {A : Type 0} → (InfoBase Namespace → InfoBase Namespace × A) → Action (World Namespace) A
  on_base f w = let (ib, a) = f w.info_base in (done a, record w { info_base = ib })

  abbrev pub put_base :
      {A : Type 0}
      → World Namespace
      → Outcome (InfoBase Namespace × A)
      → Outcome A × World Namespace
  put_base w (done (ib, a)) = (done a, record w { info_base = ib })
  put_base w (thrown e) = (thrown e, w)
  put_base w fault = (fault, w)
  put_base w stuck = (stuck, w)

  -- A function that may fail: on tables that are kept together it does not.
  abbrev pub try_base :
      {A : Type 0}
      → (Sessions → InfoBase Namespace → Outcome (InfoBase Namespace × A))
      → Action (World Namespace) A
  try_base f w = put_base w (f (sessions w) w.info_base)

  -- A call of the client manager, which is undefined where it is not set.
  unfoldable pub call_client : Event Namespace → Action (World Namespace) (Unit {0})
  call_client event w =
      if w.has_client_manager then (done tt, record w { log = event ∷ w.log }) else (fault, w)

  unfoldable pub get_peer_session : ℕ → Action (World Namespace) ℕ
  get_peer_session peer_session_id w = elim (lookup peer_session_id w.server_peer_sessions) [
    | some object ↦ (done object, w)
    | none ↦ elim (lookup peer_session_id w.client_peer_sessions) [
      | some object ↦ (done object, w)
      | none ↦ (thrown invalid_argument, w)
    ]
  ]

  -- The two loops over all sessions, the client's first.
  unfoldable pub each_session :
      (ℕ × ℕ → Action (World Namespace) (Unit {0})) → Action (World Namespace) (Unit {0})
  each_session f w = (each f w.client_peer_sessions >> (λ w'. each f w'.server_peer_sessions w')) w
