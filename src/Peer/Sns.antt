-- ===== src/Peer/Sns.antt =====
-- `SnsReceived` of src/peering/peer_manager.cc: the node set of an ingress session becomes entries
-- of the forwarding table of the peers.
use laps.Prelude.{ℕ, Bool, [], ◌∷◌, Option, none, some, ◌==◌, if◌then◌else◌}
use laps.Prelude.Outcome.{done}
use laps.Prelude.Action.{Action, pure, ◌>>=◌, ◌>>◌, gets, modify, unless, each}
use laps.Prelude.SortedMap.{Map, lookup, insert, erase, nat_key, pair_key}
use laps.Messages.SubscribeNodeSet.{SubscribeNodeSet}
use laps.InfoBase.State.{FibEntry}
use laps.InfoBase.Nested.{map_at}
use laps.InfoBase.Nodes.{get_best_peer_session}
use laps.Peer.NodeSets.{add_peer_sns_source_node, remove_peer_sns_source_node}
use laps.Peer.Forward.{through, put_peer_entry}
use laps.Peer.World.{Transport, World, on_session, session_of, locked}

abbrev pub fib_entry : ℕ → ℕ → Option ℕ → FibEntry
fib_entry update_ref out_sns_id peer_session = record {
  update_ref = update_ref;
  streams = [];
  out_sns_id = out_sns_id;
  peer_session = peer_session;
  track_fullname_hash = 0;
}

-- The entries that another update than this one wrote.
unfoldable pub stale : ℕ → Map ℕ FibEntry → Map ℕ FibEntry
stale update_ref [] = []
stale update_ref ((id, entry) ∷ m) =
    if entry.update_ref == update_ref then stale update_ref m else (id, entry) ∷ stale update_ref m

module _ {Namespace : Type 0} where
  unfoldable pub put_row : ℕ × ℕ → Map ℕ FibEntry → Action (World Namespace) (Unit {0})
  put_row key row = modify (λ w. record w {
    info_base = record w.info_base { peer_fib = insert key row w.info_base.peer_fib };
  })

  -- The node set of the session is left through the session itself, with node 0 for all nodes.
  unfoldable pub leave_egress : ℕ → ℕ → ℕ × FibEntry → Action (World Namespace) (Unit {0})
  leave_egress in_id sns_id (out, entry) = unless (out == 0) (do
    removed ← through entry.peer_session (remove_peer_sns_source_node in_id sns_id 0)
    pure tt)

  unfoldable pub sns_withdrawn : ℕ → ℕ → Action (World Namespace) (Unit {0})
  sns_withdrawn in_id sns_id w =
      let key : ℕ × ℕ = (in_id, sns_id) in
      elim (lookup key w.info_base.peer_fib) [
        | none ↦ (done tt, w)
        | some row ↦
            (do
              each (leave_egress in_id sns_id) row
              modify (λ w. record w {
                info_base = record w.info_base { peer_fib = erase key w.info_base.peer_fib };
              }))
              w
      ]

  -- An entry that the update left. The session is asked for a node set of its own number, not of
  -- the ingress session's.
  unfoldable pub leave_stale : ℕ × ℕ → ℕ × FibEntry → Action (World Namespace) (Unit {0})
  leave_stale key (out, entry) w =
      ((elim (locked w entry.peer_session) [
        | none ↦ pure tt
        | some object ↦ (do
          s ← session_of object
          removed ← on_session object (remove_peer_sns_source_node s.t_conn_id key.1 0)
          pure tt)
      ])
          >> modify (λ w. record w {
            info_base = record w.info_base {
              peer_fib =
                  insert key (erase out (map_at (lookup key w.info_base.peer_fib)))
                    w.info_base.peer_fib;
            };
          }))
        w

module _ {Namespace : Type 0} (q : Transport Namespace) where
  -- One node of the set. The branches of the code for a new set, for a new entry and for one that is
  -- there do the same: the entry is written anew, with no streams.
  unfoldable pub sns_node : ℕ → ℕ × ℕ → ℕ → ℕ → Action (World Namespace) (Unit {0})
  sns_node update_ref key priority node_id w =
      if node_id == w.node_info.id
      then put_peer_entry key 0 (fib_entry update_ref 0 none) w
      else elim (locked w (get_best_peer_session w.info_base node_id)) [
        | none ↦ (done tt, w)
        | some object ↦
            (do
              added ←
                  on_session object
                    (add_peer_sns_source_node q.answers key.0 key.1 node_id priority)
              s ← session_of object
              put_peer_entry key s.t_conn_id (fib_entry update_ref added.0 (some object)))
              w
      ]

  unfoldable pub sns_advertised : ℕ → ℕ → SubscribeNodeSet → Action (World Namespace) (Unit {0})
  sns_advertised update_ref in_id sns = do
    let key : ℕ × ℕ = (in_id, sns.id)
    old ← gets (λ w. lookup key w.info_base.peer_fib)
    put_row key (map_at old)
    each (sns_node update_ref key sns.priority) sns.nodes
    elim old [
      | none ↦ pure tt
      | some _ ↦ (do
        row ← gets (λ w. map_at (lookup key w.info_base.peer_fib))
        each (leave_stale key) (stale update_ref row))
    ]

  -- `update_ref` is what `rand()` returns, and `in_id` the number of the ingress session.
  unfoldable pub sns_received :
      ℕ → ℕ → SubscribeNodeSet → Bool → Action (World Namespace) (Unit {0})
  sns_received update_ref in_id sns withdraw =
      if withdraw then sns_withdrawn in_id sns.id else sns_advertised update_ref in_id sns
