-- ===== src/Messages/SubscribeInfo.antt =====
-- src/peering/messages/subscribe_info.h and subscribe_info.cc.
use laps.Prelude.{
  ℕ, ◌+◌, ◌%◌, ◌^◌, Bool, true, false, List, [], ◌∷◌, ◌++◌, length, ltb, ◌==◌, if◌then◌else◌,
}
use laps.Prelude.Outcome.{done, thrown, fault, stuck, out_of_range}
use laps.Wire.{Reader, pure, ◌>>=◌, net, read_bytes, read_value}
use laps.Messages.Types.{
  MsgType, subscribe_info_advertised, subscribe_info_withdrawn, common_headers,
}
pub mod RoundTrip

-- `quicr::TrackHash`: the hashes of a namespace, of a name, and of both.
pub record TrackHash : Type 0 where
  pub track_namespace_hash : ℕ
  pub track_name_hash : ℕ
  pub track_fullname_hash : ℕ

pub record SubscribeInfo : Type 0 where
  pub seq : ℕ
  pub source_node_id : ℕ
  pub track_hash : TrackHash
  pub subscribe_data : List ℕ

unfoldable pub size_bytes : SubscribeInfo → ℕ
size_bytes s = (2 + 8 + 24 + 4 + length s.subscribe_data) % 2 ^ 32

-- `operator<<`.
unfoldable pub append_subscribe_info : List ℕ → SubscribeInfo → List ℕ
append_subscribe_info bytes s =
    bytes
    ++ (net 2 s.seq
        ++ (net 8 s.source_node_id
            ++ (net 8 s.track_hash.track_namespace_hash
                ++ (net 8 s.track_hash.track_name_hash
                    ++ (net 8 s.track_hash.track_fullname_hash
                        ++ (net 4 (length s.subscribe_data % 2 ^ 32) ++ s.subscribe_data))))))

-- The sequence number of a message from its origin: it starts again after 0xFFFF.
unfoldable pub bump : Bool → SubscribeInfo → SubscribeInfo
bump is_origin s =
    if is_origin then record s { seq = if ltb s.seq 0xFFFF then s.seq + 1 else 0 } else s

-- `Serialize` changes the object too.
unfoldable pub serialize : Bool → Bool → Bool → SubscribeInfo → SubscribeInfo × List ℕ
serialize include_common_header withdraw is_origin s =
    let s' = bump is_origin s in
    (
      s',
      append_subscribe_info
          (if include_common_header
            then common_headers
                (if withdraw then subscribe_info_withdrawn else subscribe_info_advertised)
                (size_bytes s')
            else [])
          s',
    )

-- The subscribe data behind its length. The code leaves the cursor where it is.
unfoldable pub read_subscribe_data : ℕ → Reader (List ℕ)
read_subscribe_data sub_size bytes =
    if sub_size == 0
    then done ([], bytes)
    else if ltb (length bytes) sub_size
    then thrown out_of_range
    else elim (read_bytes sub_size bytes) [
      | done (xs, _) ↦ done (xs, bytes)
      | thrown e ↦ thrown e
      | fault ↦ fault
      | stuck ↦ stuck
    ]

unfoldable pub read_subscribe_info : Reader SubscribeInfo
read_subscribe_info = do
  seq ← read_value 2
  source_node_id ← read_value 8
  namespace ← read_value 8
  name ← read_value 8
  fullname ← read_value 8
  sub_size ← read_value 4
  subscribe_data ← read_subscribe_data sub_size
  pure (record {
    seq = seq;
    source_node_id = source_node_id;
    track_hash = record {
      track_namespace_hash = namespace;
      track_name_hash = name;
      track_fullname_hash = fullname;
    };
    subscribe_data = subscribe_data;
  })
