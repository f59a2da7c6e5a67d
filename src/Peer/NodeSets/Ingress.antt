-- ===== src/Peer/NodeSets/Ingress.antt =====
-- The node sets of ingress sets, as a relation of ingress and source node.
use laps.Prelude.{
  ℕ, ◌≡◌, refl, ap, ◌∙◌, true, false, not, ◌&&◌, ◌||◌, ◌==◌, if◌then◌else◌, inl, inr, Bool-cases,
  Option-cases, is_some,
}
use laps.Prelude.Outcome.{done}
use laps.Prelude.SortedSet
use laps.Prelude.SortedSet.{contains, is_empty, emplace, contains-emplace, contains-erase}
use laps.Prelude.SortedMap.{
  pair_beq_iff, lookup, insert, erase, nat_key, pair_key, pair_beq, lookup-erase_self,
  lookup-insert,
}
use laps.Messages.SubscribeNodeSet
use laps.Messages.SubscribeNodeSet.{SubscribeNodeSet, default_sns}
use laps.Peer.Event.{Answers}
use laps.Peer.Session.{Session, Line}
use laps.Peer.NodeSets.Tables.{
  no_set, dropped-is_member, is_member, added-is_member, kept-is_member, erased-is_member,
  insert-AllFull, erase-AllFull, emplace-is_empty,
}
use laps.Peer.NodeSets.{sns_at, sns_key, add_peer_sns_source_node, remove_peer_sns_source_node}
use laps.Peer.NodeSets.Told.{
  IsTidy, told, send_sns-told, add_to_sns-nodes, withdraw_log, withdraw_sns-log,
}

module _ {Namespace : Type 0} where
  -- `AddPeerSnsSourceNode` returns, and tells whether the node was not in the set of the ingress
  -- set. Afterwards it is, and every other membership is as before. No set becomes empty.
  pub add_peer_sns_source_node-is_member :
      (answers : Answers Namespace) (peer in_sns node priority : ℕ) (line : Line Namespace)
      → IsTidy line.session
      → let key = sns_key peer in_sns in
        (id : ℕ) × (line' : Line Namespace) × (add_peer_sns_source_node answers peer in_sns node
            priority line
          ≡ (done (id, not (is_member key node line.session.peer_sns)), line'))
        × ((j : ℕ × ℕ) (n : ℕ)
            → is_member j n line'.session.peer_sns
              ≡ ((pair_beq key j && node == n) || is_member j n line.session.peer_sns))
        × IsTidy line'.session
  unfolding add_peer_sns_source_node
  add_peer_sns_source_node-is_member answers peer in_sns node priority line tidy =
      let key = sns_key peer in_sns in
      let old = sns_at (lookup key line.session.peer_sns) in
      let (sns, before, log', run, nodes, told_new) =
        add_to_sns-nodes answers node priority old line in
      let s' : Session = record line.session { peer_sns = insert key sns line.session.peer_sns } in
      (
        sns.id,
        record { session = s'; log = log' },
        rw (add_peer_sns_source_node, run) refl,
        λ j n. added-is_member key j node n sns line.session.peer_sns nodes,
        record {
          sub_sns = tidy.sub_sns;
          peer_sns =
              insert-AllFull key sns line.session.peer_sns
                (ap is_empty nodes ∙ emplace-is_empty node old.nodes) tidy.peer_sns;
        },
      )

  -- `RemovePeerSnsSourceNode`: with a node other than 0 it returns whether the node was in
  -- the set of the ingress set and whether the set is gone with it, and the node is not in it
  -- afterwards. With node 0 the whole set goes,
  -- and the results are false.
  pub remove_peer_sns_source_node-is_member :
      (peer in_sns node : ℕ) (line : Line Namespace)
      → IsTidy line.session
      → let key = sns_key peer in_sns in
        (line' : Line Namespace) × (remove_peer_sns_source_node peer in_sns node line ≡ (
          done (
            not (node == 0) && is_member key node line.session.peer_sns,
            not (node == 0)
                && (is_some (lookup key line.session.peer_sns)
                    && not (is_some (lookup key line'.session.peer_sns))),
          ),
          line',
        ))
        × ((j : ℕ × ℕ) (n : ℕ)
            → is_member j n line'.session.peer_sns ≡ (
                if pair_beq key j && (node == 0 || node == n)
                then false
                else is_member j n line.session.peer_sns))
        × IsTidy line'.session
  unfolding remove_peer_sns_source_node
  remove_peer_sns_source_node-is_member peer in_sns node line tidy =
      let key = sns_key peer in_sns in
      let m = line.session.peer_sns in
      elim (Option-cases (lookup key m)) [
        | inl absent ↦ (
          line,
          elim (Bool-cases (node == 0)) [
            | inl all ↦ rw (remove_peer_sns_source_node, absent, all) (unfold contains in refl)
            | inr one ↦ rw (remove_peer_sns_source_node, absent, one) (unfold contains in refl)
          ],
          λ j n. no_set key j node n m absent,
          tidy,
        )
        | inr (old, there) ↦
            let left : SubscribeNodeSet = record old { nodes = SortedSet.erase node old.nodes } in
            elim (Bool-cases (node == 0)) [
              | inl all ↦ (
                record {
                  session = record line.session { peer_sns = erase key m };
                  log = told (SubscribeNodeSet.serialize true true old) line;
                },
                rw (remove_peer_sns_source_node, there, all, send_sns-told) refl,
                λ j n. rw all (dropped-is_member key j n m),
                record { sub_sns = tidy.sub_sns; peer_sns = erase-AllFull key m tidy.peer_sns },
              )
              | inr one ↦ elim (Bool-cases (is_empty left.nodes)) [
                | inl gone ↦ (
                  record {
                    session = record line.session { peer_sns = erase key m };
                    log = withdraw_log left line;
                  },
                  rw
                      (
                        remove_peer_sns_source_node, there, one, gone, withdraw_sns-log,
                        lookup-erase_self,
                      )
                      refl,
                  λ j n. rw one (erased-is_member key j node n old m there gone),
                  record { sub_sns = tidy.sub_sns; peer_sns = erase-AllFull key m tidy.peer_sns },
                )
                | inr kept ↦ (
                  record line { session = record line.session { peer_sns = insert key left m } },
                  rw
                      (
                        remove_peer_sns_source_node,
                        there,
                        one,
                        kept,
                        lookup-insert,
                        (pair_beq_iff key key).1 refl,
                      )
                      refl,
                  λ j n. rw one (kept-is_member key j node n old m there),
                  record {
                    sub_sns = tidy.sub_sns;
                    peer_sns = insert-AllFull key left m kept tidy.peer_sns;
                  },
                )
              ]
            ]
      ]
