-- ===== src/Peer/Forward.antt =====
-- The data plane of src/peering/peer_manager.cc: `ForwardPeerData`, `ClientDataRecv`,
-- `EndSubgroup` and `CloseStream`.
use laps.Prelude.{
  ℕ, zero, suc, ◌+◌, ◌*◌, ◌%◌, ◌^◌, Bool, true, false, List, [], ◌∷◌, ◌++◌, length, Option, none,
  some, ltb, not, ◌==◌, ◌||◌, if◌then◌else◌,
}
use laps.Prelude.Outcome.{Outcome, done, fault}
use laps.Prelude.Action.{
  Action, pure, after, ◌>>=◌, ◌>>◌, gets, modify, outcome, when, unless, each,
}
use laps.Prelude.SortedMap.{Map, lookup, insert, erase, lower_bound, nat_key, pair_key}
use laps.Wire.{net}
use laps.Messages.DataHeader
use laps.Messages.DataHeader.{DataHeader, DataType, datagram, existing_stream, new_stream}
use laps.InfoBase.State.{InfoBase, FibEntry}
use laps.InfoBase.Nested.{map_at}
use laps.Peer.Event.{peer_data_received, peer_stream_closed}
use laps.Peer.Session.{Line, send_data, open_stream, end_stream}
use laps.Peer.World.{Transport, World, locked, on_session, call_client}
pub mod Skips
pub mod Header

-- What the transport gives to the manager.
pub record Arrival : Type 0 where
  pub peer_session_id : ℕ
  pub is_new_stream : Bool
  pub stream_id : ℕ
  pub header : DataHeader
  pub bytes : List ℕ
  pub data_offset : ℕ
  pub use_reliable : Bool

-- The copy of four bytes to `data_out.begin() + 2`. A copy past the end is undefined.
unfoldable pub replace_sns_id : ℕ → List ℕ → Outcome (List ℕ)
replace_sns_id id (a ∷ b ∷ _ ∷ _ ∷ _ ∷ _ ∷ rest) = done (a ∷ b ∷ (net 4 id ++ rest))
replace_sns_id id _ = fault

-- What is left behind the first `n` elements.
unfoldable pub drop : ℕ → List ℕ → List ℕ
drop zero bytes = bytes
drop (suc n) [] = []
drop (suc n) (_ ∷ bytes) = drop n bytes

-- `data->begin() + data_offset`.
unfoldable pub payload : ℕ → List ℕ → Outcome (List ℕ)
payload offset bytes = if ltb (length bytes) offset then fault else done (drop offset bytes)

-- `group_id << 16 | static_cast<uint16_t>(subgroup_id)`.
unfoldable pub in_stream_id : ℕ → ℕ → ℕ
in_stream_id group_id subgroup_id = (group_id * 2 ^ 16) % 2 ^ 64 + subgroup_id % 2 ^ 16

-- The entries of one track, which stand together.
unfoldable pub track_rows : ℕ → Map (ℕ × ℕ) FibEntry → Map (ℕ × ℕ) FibEntry
track_rows hash [] = []
track_rows hash ((key, entry) ∷ m) = if key.0 == hash then (key, entry) ∷ track_rows hash m else []

abbrev pub client_rows : {Namespace : Type 0} → ℕ → InfoBase Namespace → Map (ℕ × ℕ) FibEntry
client_rows hash ib = track_rows hash (lower_bound (hash, 0) ib.client_fib)

-- The first stream of the table whose egress stream it is.
unfoldable pub has_out_stream : ℕ → Map ℕ ℕ → Bool
has_out_stream stream_id [] = false
has_out_stream stream_id ((_, out) ∷ m) = out == stream_id || has_out_stream stream_id m

module _ {Namespace : Type 0} where
  -- A call through a weak pointer.
  unfoldable pub through :
      {A : Type 0} → Option ℕ → Action (Line Namespace) A → Action (World Namespace) A
  through none m w = (fault, w)
  through (some object) m w = on_session object m w

  abbrev pub is_alive : World Namespace → FibEntry → Bool
  is_alive w entry = elim (locked w entry.peer_session) [ none ↦ false | some _ ↦ true ]

  -- One entry of the two tables, which the loops over them change in place.
  unfoldable pub put_peer_entry : ℕ × ℕ → ℕ → FibEntry → Action (World Namespace) (Unit {0})
  put_peer_entry key out entry = modify (λ w. record w {
    info_base = record w.info_base {
      peer_fib =
          insert key (insert out entry (map_at (lookup key w.info_base.peer_fib)))
            w.info_base.peer_fib;
    };
  })

  unfoldable pub put_client_entry : ℕ × ℕ → FibEntry → Action (World Namespace) (Unit {0})
  put_client_entry key entry = modify (λ w. record w {
    info_base = record w.info_base { client_fib = insert key entry w.info_base.client_fib };
  })

module _ {Namespace : Type 0} (q : Transport Namespace) where
  -- The egress stream of an ingress stream, and the entry with it. Data of a stream that is not
  -- known opens one only where the stream begins.
  unfoldable pub stream_for :
      FibEntry → ℕ → Bool → ℕ → Action (World Namespace) (Option (ℕ × FibEntry))
  stream_for entry stream_id begins priority w = elim (lookup stream_id entry.streams) [
    | some out ↦ (done (some (out, entry)), w)
    | none ↦
        if begins
        then (do
          out ← through entry.peer_session (open_stream q.answers entry.out_sns_id priority)
          pure (some (out, record entry { streams = insert stream_id out entry.streams })))
            w
        else (done none, w)
  ]

  -- The client manager of this relay is asked for data of the tracks that the relay subscribes.
  unfoldable pub forward_to_client : Arrival → Action (World Namespace) (Unit {0})
  forward_to_client a w =
      elim (lookup w.node_info.id
        (map_at (lookup a.header.track_full_name_hash w.info_base.subscribes))) [
          | none ↦ (done tt, w)
          | some si ↦
              (do
                bytes ← outcome (payload a.data_offset a.bytes)
                call_client (
                    if a.use_reliable
                    then peer_data_received si.track_hash.track_fullname_hash a.is_new_stream
                        (some a.stream_id) bytes
                    else peer_data_received si.track_hash.track_fullname_hash false none bytes))
                w
        ]

  unfoldable pub send_on : Arrival → FibEntry → ℕ → List ℕ → Action (World Namespace) (Unit {0})
  send_on a entry out_stream_id data_out = through entry.peer_session (
      send_data a.header.priority a.header.ttl entry.out_sns_id out_stream_id a.use_reliable
        data_out)

  -- Where the stream is known or begins here, the bytes are sent on it.
  unfoldable pub send_on_stream :
      Arrival → ℕ × ℕ → ℕ → List ℕ → Option (ℕ × FibEntry) → Action (World Namespace) (Unit {0})
  send_on_stream a key out data_out none = pure tt
  send_on_stream a key out data_out (some (out_stream_id, entry)) = do
    put_peer_entry key out entry
    send_on a entry out_stream_id data_out

  -- To one egress peer. `data_out` is one buffer for all of them.
  unfoldable pub forward_to_peer :
      Arrival → ℕ × ℕ → ℕ → FibEntry → List ℕ → Action (World Namespace) (List ℕ)
  forward_to_peer a key out entry old = do
    data_out ← outcome (
        if a.is_new_stream || not a.use_reliable
        then replace_sns_id entry.out_sns_id old
        else done old)
    if a.use_reliable
        then (do
          found ← stream_for entry a.stream_id a.is_new_stream a.header.priority
          send_on_stream a key out data_out found)
        else send_on a entry 0 data_out
    pure data_out

  unfoldable pub forward_entry :
      Arrival → ℕ × ℕ → ℕ → FibEntry → List ℕ → Action (World Namespace) (List ℕ)
  forward_entry a key out entry data_out =
      if out == a.peer_session_id
      then pure data_out
      else if out == 0
      then (forward_to_client a >> pure data_out)
      else forward_to_peer a key out entry data_out

  unfoldable pub forward_rows :
      Arrival → ℕ × ℕ → Map ℕ FibEntry → List ℕ → Action (World Namespace) (Unit {0})
  forward_rows a key [] data_out = pure tt
  forward_rows a key ((out, entry) ∷ m) data_out = do
    next ← forward_entry a key out entry data_out
    forward_rows a key m next

  unfoldable pub forward_peer_data : Arrival → Action (World Namespace) (Unit {0})
  forward_peer_data a w =
      let key : ℕ × ℕ = (a.peer_session_id, a.header.sns_id) in
      forward_rows a key (map_at (lookup key w.info_base.peer_fib)) a.bytes w
