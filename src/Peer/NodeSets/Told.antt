-- ===== src/Peer/NodeSets/Told.antt =====
-- What the functions on node sets call, and the invariant of the node sets.
use laps.Prelude.{
  Bool, ℕ, ◌%◌, ◌^◌, ◌≡◌, refl, ap, true, false, not, List, ◌∷◌, none, ◌==◌, if◌then◌else◌, inl,
  inr, Bool-cases,
}
use laps.Prelude.Outcome.{done}
use laps.Prelude.SortedSet.{contains, emplace}
use laps.Prelude.SortedMap.{nat_key, pair_key}
use laps.Messages.SubscribeNodeSet
use laps.Messages.SubscribeNodeSet.{SubscribeNodeSet, default_sns}
use laps.Peer.Event.{Event, Answers, create_data_context, delete_data_context, enqueue}
use laps.Peer.Session.{Session, Line, is_connected, enqueue_control, send_control, send_sns}
use laps.Peer.NodeSets.Tables.{AllFull}
use laps.Peer.NodeSets.{ensure_id, add_to_sns, withdraw_sns}

pub record IsTidy (s : Session) : Type 0 where
  pub sub_sns : AllFull s.sub_sns
  pub peer_sns : AllFull s.peer_sns

module _ {Namespace : Type 0} where
  -- The calls after a control message: one more where the session is connected.
  abbrev pub told : List ℕ → Line Namespace → List (Event Namespace)
  told bytes line =
      if is_connected line.session.status
      then enqueue line.session.t_conn_id line.session.control_data_ctx_id
          line.session.control_stream_id bytes 0 1000 none
        ∷ line.log
      else line.log

  pub send_control-told :
      (bytes : List ℕ) (line : Line Namespace)
      → send_control bytes line ≡ (done tt, record line { log = told bytes line })
  unfolding send_control enqueue_control
  send_control-told bytes line = elim (Bool-cases (is_connected line.session.status)) [
    | inl up ↦ rw (send_control, up) refl
    | inr down ↦ rw (send_control, down) refl
  ]

  pub send_sns-told :
      (sns : SubscribeNodeSet) (withdraw : Bool) (line : Line Namespace)
      → send_sns sns withdraw line
        ≡ (done tt, record line { log = told (SubscribeNodeSet.serialize true withdraw sns) line })
  unfolding send_sns
  send_sns-told sns withdraw line =
      send_control-told (SubscribeNodeSet.serialize true withdraw sns) line

  -- The node set with an identifier, and the calls after it.
  abbrev with_id :
      Answers Namespace
      → ℕ
      → SubscribeNodeSet
      → Line Namespace
      → SubscribeNodeSet × List (Event Namespace)
  with_id answers priority sns line =
      let log' = create_data_context line.session.t_conn_id priority false ∷ line.log in
      if sns.id == 0 then (record sns { id = answers log' % 2 ^ 32 }, log') else (sns, line.log)

  ensure_id-with_id :
      (answers : Answers Namespace) (priority : ℕ) (sns : SubscribeNodeSet) (line : Line Namespace)
      → let (sns', log') = with_id answers priority sns line in
        (ensure_id answers priority sns line ≡ (done sns', record line { log = log' }))
        × (sns'.nodes ≡ sns.nodes)
  unfolding ensure_id
  ensure_id-with_id answers priority sns line = elim (Bool-cases (sns.id == 0)) [
    | inl unset ↦ (rw (ensure_id, unset) refl, rw unset refl)
    | inr set ↦ (rw (ensure_id, set) refl, rw set refl)
  ]

  -- Adding a node to a set: it is there afterwards, and where it is new, the peer is told the whole
  -- set.
  pub add_to_sns-nodes :
      (answers : Answers Namespace) (node priority : ℕ) (sns : SubscribeNodeSet)
      (line : Line Namespace)
      → (sns' : SubscribeNodeSet) × (before : List (Event Namespace)) × (log' : List
          (Event Namespace))
        × (add_to_sns answers node priority sns line
            ≡ (done (sns', not (contains node sns.nodes)), record line { log = log' }))
        × (sns'.nodes ≡ emplace node sns.nodes)
        × (contains node sns.nodes ≡ false
            → log'
              ≡ told (SubscribeNodeSet.serialize true false sns') (record line { log = before }))
  unfolding add_to_sns send_sns
  add_to_sns-nodes answers node priority sns line =
      let (sns₁, log₁) = with_id answers priority sns line in
      let (run₁, same) = ensure_id-with_id answers priority sns line in
      let added : SubscribeNodeSet = record sns₁ { nodes = emplace node sns₁.nodes } in
      let bytes = SubscribeNodeSet.serialize true false added in
      elim (Bool-cases (contains node sns.nodes)) [
        | inl old ↦ (
          added,
          log₁,
          log₁,
          rw (add_to_sns, run₁, same, old) refl,
          ap (emplace node) same,
          λ new. absurd (cc),
        )
        | inr new ↦ (
          added,
          log₁,
          told bytes (record line { log = log₁ }),
          rw (add_to_sns, run₁, same, new, send_sns, send_control-told) refl,
          ap (emplace node) same,
          λ _. refl,
        )
      ]

  -- What the deletion of an empty set calls.
  unfoldable pub withdraw_log : SubscribeNodeSet → Line Namespace → List (Event Namespace)
  withdraw_log sns line =
      told (SubscribeNodeSet.serialize true true sns)
        (record line { log = delete_data_context line.session.t_conn_id sns.id ∷ line.log })

  pub withdraw_sns-log :
      (sns : SubscribeNodeSet) (line : Line Namespace)
      → withdraw_sns sns line ≡ (done tt, record line { log = withdraw_log sns line })
  unfolding withdraw_sns send_sns withdraw_log
  withdraw_sns-log sns line = rw (withdraw_sns, send_sns, send_control-told) refl
