-- ===== src/Peer/Forward/Skips.antt =====
-- `ForwardPeerData` of src/peering/peer_manager.cc and the peer that the data came from.
use laps.Prelude.{ℕ, ◌≡◌, List, [], ◌∷◌, refl, true, ◌==◌, inl, inr, Bool-cases}
use laps.Prelude.Outcome.{done}
use laps.Prelude.Action.{after_same}
use laps.Prelude.SortedMap.{Map, lookup, erase, nat_key, pair_key}
use laps.InfoBase.State.{FibEntry}
use laps.InfoBase.Nested.{map_at}
use laps.Peer.World.{Transport, World}
use laps.Peer.Forward.{Arrival, forward_entry, forward_rows, forward_peer_data}

module _ {Namespace : Type 0} (q : Transport Namespace) (a : Arrival) where
  forward_entry_back :
      (key : ℕ × ℕ) (out : ℕ) (entry : FibEntry) (data_out : List ℕ) (w : World Namespace)
      → (out == a.peer_session_id) ≡ true
      → forward_entry q a key out entry data_out w ≡ (done data_out, w)
  unfolding forward_entry
  forward_entry_back key out entry data_out w same = rw (forward_entry, same) refl

  forward_rows-erase :
      (key : ℕ × ℕ) (m : Map ℕ FibEntry) (data_out : List ℕ) (w : World Namespace)
      → forward_rows q a key m data_out w
        ≡ forward_rows q a key (erase a.peer_session_id m) data_out w
  unfolding forward_rows erase
  forward_rows-erase key [] data_out w = refl
  forward_rows-erase key ((out, entry) ∷ m) data_out w =
      let rest = forward_rows-erase key m in
      elim (Bool-cases (out == a.peer_session_id)) [
        | inl same ↦ rw (same, forward_entry_back key out entry data_out w same) (rest data_out w)
        | inr other ↦ rw other (
            after_same (forward_rows q a key m) (forward_rows q a key (erase a.peer_session_id m))
              rest (forward_entry q a key out entry data_out w))
      ]

  -- ForwardPeerData does the same as if the row of the node set that stands under the number of
  -- the session that the data came from were not there: that row is never followed.
  pub forward_peer_data-erase :
      (w : World Namespace)
      → forward_peer_data q a w
        ≡ forward_rows q a
            (a.peer_session_id, a.header.sns_id)
            (erase a.peer_session_id
              (map_at (lookup (a.peer_session_id, a.header.sns_id) w.info_base.peer_fib)))
            a.bytes
            w
  unfolding forward_peer_data
  forward_peer_data-erase w =
      let key : ℕ × ℕ = (a.peer_session_id, a.header.sns_id) in
      forward_rows-erase key (map_at (lookup key w.info_base.peer_fib)) a.bytes w
