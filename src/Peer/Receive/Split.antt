-- ===== src/Peer/Receive/Split.antt =====
-- A header that arrives in two pieces at `ProcessReceivedData` of src/peering/peer_session.cc.
use laps.Prelude.{ℕ, ◌≡◌, ◌<◌, true, List, [], ◌∷◌, length, ltb, none, some, refl, arith}
use laps.Prelude.Outcome.{done}
use laps.Prelude.SortedMap.{lookup, pair_key}
use laps.Messages.DataHeader.{default_header}
use laps.Peer.World.{Transport, World}
use laps.Peer.Forward.{forward_rows, forward_peer_data}
use laps.Peer.Receive.{begin_stream, process_received_data, receive_pieces}

module _ {Namespace : Type 0} (q : Transport Namespace) where
  -- Pieces under the default header, whose node set is 0.
  pieces_dropped :
      (id stream_id : ℕ) (pieces : List (List ℕ)) (w : World Namespace)
      → lookup (id, 0) w.info_base.peer_fib ≡ none
      → receive_pieces q id stream_id (some default_header) pieces w
        ≡ (done (some default_header), w)
  unfolding receive_pieces process_received_data forward_peer_data forward_rows
  pieces_dropped id stream_id [] w absent = refl
  pieces_dropped id stream_id (piece ∷ pieces) w absent =
      rw (receive_pieces, process_received_data, forward_peer_data, absent)
        (pieces_dropped id stream_id pieces w absent)

  -- A stream whose first piece is shorter than the header that it begins is lost: where no peer is
  -- there for the node set 0, no call is made and nothing changes, whatever follows.
  pub split_header_lost :
      (id stream_id hdr_len : ℕ) (piece : List ℕ) (pieces : List (List ℕ)) (w : World Namespace)
      → length (hdr_len ∷ piece) < hdr_len
      → lookup (id, 0) w.info_base.peer_fib ≡ none
      → receive_pieces q id stream_id none ((hdr_len ∷ piece) ∷ pieces) w
        ≡ (done (some default_header), w)
  unfolding receive_pieces process_received_data begin_stream
  split_header_lost id stream_id hdr_len piece pieces w short absent =
      let below : ltb (length (hdr_len ∷ piece)) hdr_len ≡ true = ground arith in
      rw below (pieces_dropped id stream_id pieces w absent)
