-- ===== src/Peer/NodeSets.antt =====
-- The node sets of a session: the four functions of src/peering/peer_session.cc that add a source
-- node to a set or take it out.
use laps.Prelude.{ℕ, ◌%◌, ◌^◌, Bool, true, false, not, Option, none, some, ◌==◌, if◌then◌else◌}
use laps.Prelude.Outcome.{done}
use laps.Prelude.Action.{Action, pure, ◌>>=◌, ◌>>◌, gets, when}
use laps.Prelude.SortedSet
use laps.Prelude.SortedSet.{contains, is_empty}
use laps.Prelude.SortedMap.{lookup, insert, erase, nat_key, pair_key}
use laps.Messages.SubscribeNodeSet.{SubscribeNodeSet, default_sns}
use laps.Peer.Event.{Answers, create_data_context, delete_data_context}
use laps.Peer.Session.{Line, tell, ask, update, send_sns}
pub mod Tables
pub mod Told
pub mod Subscribed
pub mod Ingress

-- The node set under a key, and the one that `try_emplace` makes for a missing key.
abbrev pub sns_at : Option SubscribeNodeSet → SubscribeNodeSet
sns_at none = default_sns
sns_at (some sns) = sns

abbrev pub sns_key : ℕ → ℕ → ℕ × ℕ
sns_key in_peer_session_id in_sns_id = (in_peer_session_id, in_sns_id)

module _ {Namespace : Type 0} where
  -- The identifier of a node set, which is the data context that is made for it the first time. It
  -- is cut off to 32 bits.
  unfoldable pub ensure_id :
      Answers Namespace → ℕ → SubscribeNodeSet → Action (Line Namespace) SubscribeNodeSet
  ensure_id answers priority sns line =
      if sns.id == 0
      then (do
        ctx ← ask answers (create_data_context line.session.t_conn_id priority false)
        pure (record sns { id = ctx % 2 ^ 32 }))
          line
      else (done sns, line)

  -- The body that the two functions that add a node share: the node set after it, and whether the
  -- node is new.
  unfoldable pub add_to_sns :
      Answers Namespace
      → ℕ
      → ℕ
      → SubscribeNodeSet
      → Action (Line Namespace) (SubscribeNodeSet × Bool)
  add_to_sns answers sub_node_id priority sns = do
    with_id ← ensure_id answers priority sns
    let is_new = not (contains sub_node_id with_id.nodes)
    let added = record with_id { nodes = SortedSet.emplace sub_node_id with_id.nodes }
    when is_new (send_sns added false)
    pure (added, is_new)

  unfoldable pub add_peer_sns_source_node :
      Answers Namespace → ℕ → ℕ → ℕ → ℕ → Action (Line Namespace) (ℕ × Bool)
  add_peer_sns_source_node answers in_peer_session_id in_sns_id sub_node_id priority = do
    let key = sns_key in_peer_session_id in_sns_id
    old ← gets (λ line. sns_at (lookup key line.session.peer_sns))
    (sns, is_new) ← add_to_sns answers sub_node_id priority old
    update (λ s. record s { peer_sns = insert key sns s.peer_sns })
    pure (sns.id, is_new)

  unfoldable pub add_subscribe_source_node :
      Answers Namespace → ℕ → ℕ → ℕ → Action (Line Namespace) (ℕ × Bool)
  add_subscribe_source_node answers full_name_hash sub_node_id priority = do
    old ← gets (λ line. sns_at (lookup full_name_hash line.session.sub_sns))
    (sns, is_new) ← add_to_sns answers sub_node_id priority old
    update (λ s. record s { sub_sns = insert full_name_hash sns s.sub_sns })
    pure (sns.id, is_new)

  -- A node set that became empty: its data context is deleted, and the peer is told.
  unfoldable pub withdraw_sns : SubscribeNodeSet → Action (Line Namespace) (Unit {0})
  withdraw_sns sns = do
    conn ← gets (λ line. line.session.t_conn_id)
    tell (delete_data_context conn sns.id)
    send_sns sns true

  -- Whether the node was removed, and whether the node set was.
  unfoldable pub remove_subscribe_source_node : ℕ → ℕ → Action (Line Namespace) (Bool × Bool)
  remove_subscribe_source_node full_name_hash sub_node_id line =
      elim (lookup full_name_hash line.session.sub_sns) [
        | none ↦ (done (false, false), line)
        | some old ↦
            let removed = contains sub_node_id old.nodes in
            let sns = record old { nodes = SortedSet.erase sub_node_id old.nodes } in
            if is_empty sns.nodes
            then (do
              withdraw_sns sns
              update (λ s. record s { sub_sns = erase full_name_hash s.sub_sns })
              pure (removed, true))
                line
            else (do
              update (λ s. record s { sub_sns = insert full_name_hash sns s.sub_sns })
              pure (removed, false))
                line
      ]

  -- Node 0 stands for all nodes. Then the data context is not deleted, and both results are false.
  unfoldable pub remove_peer_sns_source_node : ℕ → ℕ → ℕ → Action (Line Namespace) (Bool × Bool)
  remove_peer_sns_source_node in_peer_session_id in_sns_id sub_node_id line =
      let key = sns_key in_peer_session_id in_sns_id in
      elim (lookup key line.session.peer_sns) [
        | none ↦ (done (false, false), line)
        | some old ↦
            let removed = contains sub_node_id old.nodes in
            let sns = record old { nodes = SortedSet.erase sub_node_id old.nodes } in
            if sub_node_id == 0
            then (do
              send_sns old true
              update (λ s. record s { peer_sns = erase key s.peer_sns })
              pure (false, false))
                line
            else if is_empty sns.nodes
            then (do
              withdraw_sns sns
              update (λ s. record s { peer_sns = erase key s.peer_sns })
              pure (removed, true))
                line
            else (do
              update (λ s. record s { peer_sns = insert key sns s.peer_sns })
              pure (removed, false))
                line
      ]
