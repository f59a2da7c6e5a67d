-- ===== src/Peer/SessionTests.antt =====
-- A session on connection 5 with two node sets, and control messages that arrive for it.
use laps.Prelude.{
  ℕ, ◌+◌, ◌*◌, ◌^◌, ◌%◌, ◌≡◌, ◌<◌, refl, Bool, true, false, not, List, [], ◌∷◌, ◌++◌, Option, none,
  some, ◌&&◌, ◌||◌, ◌==◌, if◌then◌else◌, is_some, arith, inl, inr, Bool-cases, ◌-◌,
}
use laps.Prelude.Outcome.{done}
use laps.Prelude.SortedMap.{lookup, nat_key, pair_key, pair_beq}
use laps.Messages.Types.{
  common_headers, msg_type_code, node_info_advertise, announce_info_withdrawn,
}
use laps.Messages.SubscribeNodeSet.{SubscribeNodeSet}
use laps.Peer.Event.{Answers}
use laps.Peer.Session.{Session, Line, connected, no_node_info, new_session}
use laps.Peer.NodeSets.{remove_peer_sns_source_node}
use laps.Peer.NodeSets.Tables.{is_member}
use laps.Peer.NodeSets.Told.{IsTidy}
use laps.Peer.NodeSets.Ingress.{remove_peer_sns_source_node-is_member}
use laps.Peer.Frame.{overrun, message, next_frame, feed}
use laps.Peer.Frame.Whole.{on_stream, next_frame_wrapped}
use laps.Peer.Frame.Chunks.{feed-on_stream, feed_behind}

abbrev answers : Answers (List ℕ)
answers log = 7

abbrev on_connection_5 : Session
on_connection_5 = record (new_session false 5 (record no_node_info { id = 1 })) {
  status = connected;
}

-- The body of a message in two chunks.
feed-on_stream_example :
    feed [] ((1 ∷ 0 ∷ 4 ∷ []) ∷ (0 ∷ 0 ∷ 0 ∷ 2 ∷ 8 ∷ 9 ∷ []) ∷ []) ≡ ((4, 8 ∷ 9 ∷ []) ∷ [], [])
unfolding laps.Wire.net laps.Wire.bytes_of msg_type_code common_headers
feed-on_stream_example =
    feed-on_stream node_info_advertise (8 ∷ 9 ∷ [])
      ((1 ∷ 0 ∷ 4 ∷ []) ∷ (0 ∷ 0 ∷ 0 ∷ 2 ∷ 8 ∷ 9 ∷ []) ∷ []) (omega arith, omega arith)
      (omega arith, (omega arith, tt)) refl

feed_behind_example :
    (feed [] (
        (on_stream node_info_advertise (8 ∷ [])
          ++ (on_stream announce_info_withdrawn (7 ∷ []) ++ (1 ∷ [])))
        ∷ [])
      ≡ (
        (msg_type_code node_info_advertise, 8 ∷ []) ∷ [],
        on_stream announce_info_withdrawn (7 ∷ []) ++ (1 ∷ []),
      ))
    × (next_frame (on_stream announce_info_withdrawn (7 ∷ []) ++ (1 ∷ []))
        ≡ message (msg_type_code announce_info_withdrawn) (7 ∷ []) (1 ∷ []))
unfolding msg_type_code
feed_behind_example =
    feed_behind node_info_advertise announce_info_withdrawn (8 ∷ []) (7 ∷ []) (1 ∷ [])
      (omega arith, omega arith) (omega arith, omega arith)

-- The largest length that the headers can say.
next_frame_wrapped_example :
    next_frame (common_headers node_info_advertise (2 ^ 32 - 1) ++ (8 ∷ [])) ≡ overrun
unfolding msg_type_code
next_frame_wrapped_example =
    next_frame_wrapped node_info_advertise (2 ^ 32 - 1) (8 ∷ []) (omega arith) (omega arith)
      (omega arith) (omega arith)

-- The node set 6 of track 77 has node 3, and so has the set of the ingress set 8 of connection 5.
abbrev nodes_of : List ℕ → SubscribeNodeSet
nodes_of nodes = record { id = 6; priority = 1; nodes = nodes }

abbrev line : Line (List ℕ)
line = record {
  session = record (on_connection_5) {
    sub_sns = (77, nodes_of (3 ∷ [])) ∷ [];
    peer_sns = ((5, 8), nodes_of (3 ∷ [])) ∷ [];
  };
  log = [];
}

line-IsTidy : IsTidy line.session
unfolding lookup
line-IsTidy = record {
  sub_sns = λ key sns e. elim (Bool-cases (77 == key)) [
    | inl same ↦ cc (rw same at e)
    | inr other ↦ absurd (cc (rw other at e))
  ];
  peer_sns = λ key sns e. elim (Bool-cases (pair_beq (5, 8) key)) [
    | inl same ↦ cc (rw same at e)
    | inr other ↦ absurd (cc (rw other at e))
  ];
}

-- All nodes of the set.
remove_peer_sns_source_node-is_member_example :
    (line' : Line (List ℕ)) × (remove_peer_sns_source_node 5 8 0 line
      ≡ (done (false, false), line'))
    × ((j : ℕ × ℕ) (n : ℕ)
        → is_member j n line'.session.peer_sns
          ≡ (if pair_beq (5, 8) j && true then false else is_member j n line.session.peer_sns))
    × IsTidy line'.session
unfolding lookup laps.Prelude.SortedSet.contains
remove_peer_sns_source_node-is_member_example =
    remove_peer_sns_source_node-is_member 5 8 0 line line-IsTidy
