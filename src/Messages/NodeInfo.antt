-- ===== src/Messages/NodeInfo.antt =====
-- src/peering/messages/node_info.h and node_info.cc. Latitude and longitude are the bit patterns
-- of the two doubles: the code moves them and does not compute with them.
use laps.Prelude.{
  ℕ, zero, suc, ◌+◌, ◌*◌, ◌%◌, ◌^◌, ◌≡◌, ◌<◌, ◌≤◌, Bool, true, false, List, [], ◌∷◌, ◌++◌, length,
  ◌==◌, if◌then◌else◌,
}
use laps.Prelude.Outcome.{Outcome, done, thrown, fault, stuck}
use laps.Wire.{bytes_of, net, le_value, Reader, pure, ◌>>=◌, read_bytes, read_byte, read_value}
use laps.Messages.Types.{MsgType, node_info_advertise, node_info_withdrawn, common_headers}
use laps.Messages.UintVar.{UintVar, read_uint_var}
pub mod RoundTrip

pub data NodeType : Type 0 where
  via edge stub : NodeType
  other : ℕ → NodeType

unfoldable pub node_type_byte : NodeType → ℕ
node_type_byte via = 0
node_type_byte edge = 1
node_type_byte stub = 2
node_type_byte (other n) = n

unfoldable pub node_type_of : ℕ → NodeType
node_type_of b = if b == 0 then via else if b == 1 then edge else if b == 2 then stub else other b

pub record NodePathItem : Type 0 where
  pub id : ℕ
  pub srtt_us : ℕ

pub record NodeInfo : Type 0 where
  pub id : ℕ
  pub type : NodeType
  pub contact : List ℕ
  pub longitude : ℕ
  pub latitude : ℕ
  pub path : List NodePathItem

unfoldable pub sum_srtt_loop : ℕ → List NodePathItem → ℕ
sum_srtt_loop sum [] = sum
sum_srtt_loop sum (item ∷ path) = sum_srtt_loop ((sum + item.srtt_us) % 2 ^ 64) path

-- `SumSrtt`, a 64-bit sum that wraps.
unfoldable pub sum_srtt : NodeInfo → ℕ
sum_srtt n = sum_srtt_loop 0 n.path

unfoldable pub write_path : List NodePathItem → List ℕ
write_path [] = []
write_path (item ∷ path) = bytes_of 8 item.id ++ (bytes_of 8 item.srtt_us ++ write_path path)

module _ (u : UintVar) where
  unfoldable pub size_bytes : NodeInfo → ℕ
  size_bytes n =
      (8 + 1 + length (u.encode (length n.contact)) + length n.contact + 8 + 8 + length n.path * 16)
      % 2 ^ 32

  -- `operator<<`.
  unfoldable pub append_node_info : List ℕ → NodeInfo → List ℕ
  append_node_info bytes n =
      bytes
      ++ (net 8 n.id
          ++ (node_type_byte n.type
              ∷ (u.encode (length n.contact)
                  ++ (n.contact
                      ++ (net 8 n.longitude ++ (net 8 n.latitude ++ write_path n.path))))))

  unfoldable pub serialize : Bool → Bool → NodeInfo → List ℕ
  serialize include_common_header withdraw n =
      append_node_info
        (if include_common_header
          then common_headers (if withdraw then node_info_withdrawn else node_info_advertise)
              (size_bytes n)
          else [])
        n

-- `memcpy` of one path item, in host order.
unfoldable pub read_path_item : Reader NodePathItem
read_path_item = do
  id ← read_bytes 8
  srtt ← read_bytes 8
  pure (record { id = le_value id; srtt_us = le_value srtt })

-- `for (; it < serialized_data.end(); it += sizeof(NodePathItem))`, on fuel.
unfoldable pub read_path_loop : ℕ → Reader (List NodePathItem)
read_path_loop fuel [] = done ([], [])
read_path_loop zero (b ∷ bs) = stuck
read_path_loop (suc fuel) (b ∷ bs) =
    (do item ← read_path_item; path ← read_path_loop fuel; pure (item ∷ path)) (b ∷ bs)

-- Each round takes sixteen bytes, so as many rounds as there are bytes are enough.
unfoldable pub read_path : Reader (List NodePathItem)
read_path bytes = read_path_loop (length bytes) bytes

-- The constructor from serialized data.
unfoldable pub read_node_info : UintVar → Reader NodeInfo
read_node_info u = do
  id ← read_value 8
  type ← read_byte
  contact_len ← read_uint_var u
  contact ← read_bytes contact_len
  longitude ← read_value 8
  latitude ← read_value 8
  path ← read_path
  pure (record {
    id = id;
    type = node_type_of type;
    contact = contact;
    longitude = longitude;
    latitude = latitude;
    path = path;
  })
