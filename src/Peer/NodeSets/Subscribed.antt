-- ===== src/Peer/NodeSets/Subscribed.antt =====
-- The node sets of tracks, as a relation of track and source node.
use laps.Prelude.{
  ℕ, ◌≡◌, refl, ap, ◌∙◌, true, false, not, List, some, ◌&&◌, ◌||◌, ◌==◌, if◌then◌else◌, inl, inr,
  Bool-cases, Option-cases, ==-self, is_some,
}
use laps.Prelude.Outcome.{done}
use laps.Prelude.SortedSet
use laps.Prelude.SortedSet.{contains, is_empty, emplace, contains-emplace, contains-erase}
use laps.Prelude.SortedMap.{
  lookup, insert, erase, nat_key, pair_key, lookup-erase_self, lookup-insert,
}
use laps.Messages.SubscribeNodeSet
use laps.Messages.SubscribeNodeSet.{SubscribeNodeSet, default_sns}
use laps.Peer.Event.{Event, Answers}
use laps.Peer.Session.{Session, Line}
use laps.Peer.NodeSets.Tables.{
  is_member, added-is_member, kept-is_member, erased-is_member, absent-is_member, insert-AllFull,
  erase-AllFull, emplace-is_empty,
}
use laps.Peer.NodeSets.{sns_at, add_subscribe_source_node, remove_subscribe_source_node}
use laps.Peer.NodeSets.Told.{IsTidy, told, add_to_sns-nodes, withdraw_log, withdraw_sns-log}

module _ {Namespace : Type 0} where
  -- `AddSubscribeSourceNode` returns, and tells whether the node was not in the set of the track.
  -- Afterwards it is, and every other membership is as before. No set becomes empty. Where the
  -- node is new and the session is connected, the last call sends the set that the table now has.
  pub add_subscribe_source_node-is_member :
      (answers : Answers Namespace) (full node priority : ℕ) (line : Line Namespace)
      → IsTidy line.session
      → (id : ℕ) × (line' : Line Namespace) × (add_subscribe_source_node answers full node priority
            line
          ≡ (done (id, not (is_member full node line.session.sub_sns)), line'))
        × ((h n : ℕ)
            → is_member h n line'.session.sub_sns
              ≡ ((full == h && node == n) || is_member h n line.session.sub_sns))
        × IsTidy line'.session
        × (before : List (Event Namespace)) × (line'.log ≡ (
            if is_member full node line.session.sub_sns
            then before
            else told
                (SubscribeNodeSet.serialize true false (sns_at (lookup full line'.session.sub_sns)))
                (record line { log = before })))
  unfolding add_subscribe_source_node
  add_subscribe_source_node-is_member answers full node priority line tidy =
      let old = sns_at (lookup full line.session.sub_sns) in
      let (sns, before, log', run, nodes, told_new) =
        add_to_sns-nodes answers node priority old line in
      let s' : Session = record line.session { sub_sns = insert full sns line.session.sub_sns } in
      let put : lookup full s'.sub_sns ≡ some sns = rw (lookup-insert, ==-self full) refl in
      let last : (told_before : List (Event Namespace)) × (log' ≡ (
            if is_member full node line.session.sub_sns
            then told_before
            else told (SubscribeNodeSet.serialize true false (sns_at (lookup full s'.sub_sns)))
                (record line { log = told_before }))) =
        elim (Bool-cases (is_member full node line.session.sub_sns)) [
          | inl old_node ↦ (log', rw old_node refl)
          | inr new ↦ (before, rw (new, put) (told_new new))
        ] in
      (
        sns.id,
        record { session = s'; log = log' },
        rw (add_subscribe_source_node, run) refl,
        λ h n. added-is_member full h node n sns line.session.sub_sns nodes,
        record {
          sub_sns =
              insert-AllFull full sns line.session.sub_sns
                (ap is_empty nodes ∙ emplace-is_empty node old.nodes) tidy.sub_sns;
          peer_sns = tidy.peer_sns;
        },
        last.0,
        last.1,
      )

  -- `RemoveSubscribeSourceNode` returns whether the node was in the set of the track, and whether
  -- the set is gone with it. Afterwards the node is not in the set, and every other membership is
  -- as before. No set is left empty.
  pub remove_subscribe_source_node-is_member :
      (full node : ℕ) (line : Line Namespace)
      → IsTidy line.session
      → (line' : Line Namespace) × (remove_subscribe_source_node full node line ≡ (
        done (
          is_member full node line.session.sub_sns,
          is_some (lookup full line.session.sub_sns)
              && not (is_some (lookup full line'.session.sub_sns)),
        ),
        line',
      ))
        × ((h n : ℕ)
            → is_member h n line'.session.sub_sns
              ≡ (if full == h && node == n then false else is_member h n line.session.sub_sns))
        × IsTidy line'.session
  unfolding remove_subscribe_source_node
  remove_subscribe_source_node-is_member full node line tidy =
      elim (Option-cases (lookup full line.session.sub_sns)) [
        | inl absent ↦ (
          line,
          rw (remove_subscribe_source_node, absent) (unfold contains in refl),
          λ h n.
              absent-is_member full h node n line.session.sub_sns
                (rw absent (unfold contains in refl)),
          tidy,
        )
        | inr (old, there) ↦
            let left : SubscribeNodeSet = record old { nodes = SortedSet.erase node old.nodes } in
            elim (Bool-cases (is_empty left.nodes)) [
              | inl gone ↦ (
                record {
                  session = record line.session { sub_sns = erase full line.session.sub_sns };
                  log = withdraw_log left line;
                },
                rw (remove_subscribe_source_node, there, gone, withdraw_sns-log, lookup-erase_self)
                    refl,
                λ h n. erased-is_member full h node n old line.session.sub_sns there gone,
                record {
                  sub_sns = erase-AllFull full line.session.sub_sns tidy.sub_sns;
                  peer_sns = tidy.peer_sns;
                },
              )
              | inr kept ↦ (
                record line {
                  session = record line.session { sub_sns = insert full left line.session.sub_sns };
                },
                rw (remove_subscribe_source_node, there, kept, lookup-insert, ==-self full) refl,
                λ h n. kept-is_member full h node n old line.session.sub_sns there,
                record {
                  sub_sns = insert-AllFull full left line.session.sub_sns kept tidy.sub_sns;
                  peer_sns = tidy.peer_sns;
                },
              )
            ]
      ]
