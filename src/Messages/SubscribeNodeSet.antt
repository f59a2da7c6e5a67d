-- ===== src/Messages/SubscribeNodeSet.antt =====
-- src/peering/messages/subscribe_node_set.h and subscribe_node_set.cc.
use laps.Prelude.{
  ℕ, zero, suc, ◌+◌, ◌*◌, ◌%◌, ◌^◌, Bool, true, false, List, [], ◌∷◌, ◌++◌, length, ◌==◌,
  if◌then◌else◌,
}
use laps.Prelude.SortedSet.{emplace}
use laps.Wire.{Reader, pure, ◌>>=◌, net, read_byte, read_value}
use laps.Messages.Types.{
  MsgType, subscribe_node_set_advertised, subscribe_node_set_withdrawn, common_headers,
}
pub mod RoundTrip

pub record SubscribeNodeSet : Type 0 where
  pub id : ℕ
  pub priority : ℕ
  pub nodes : List ℕ

-- The object that `SubscribeNodeSet()` makes.
abbrev pub default_sns : SubscribeNodeSet
default_sns = record { id = 0; priority = 2; nodes = [] }

unfoldable pub size_bytes : Bool → SubscribeNodeSet → ℕ
size_bytes withdraw s = if withdraw then 4 else (7 + length s.nodes * 8) % 2 ^ 32

unfoldable pub write_nodes : List ℕ → List ℕ
write_nodes [] = []
write_nodes (n ∷ ns) = net 8 n ++ write_nodes ns

-- `operator<<`.
unfoldable pub append_sns : List ℕ → SubscribeNodeSet → List ℕ
append_sns bytes s =
    bytes ++ (net 4 s.id ++ (s.priority ∷ (net 2 (length s.nodes % 2 ^ 16) ++ write_nodes s.nodes)))

-- What follows the common headers.
unfoldable pub append_body : Bool → List ℕ → SubscribeNodeSet → List ℕ
append_body withdraw bytes s = if withdraw then bytes ++ net 4 s.id else append_sns bytes s

unfoldable pub serialize : Bool → Bool → SubscribeNodeSet → List ℕ
serialize include_common_header withdraw s =
    append_body withdraw
      (if include_common_header
        then common_headers
            (if withdraw then subscribe_node_set_withdrawn else subscribe_node_set_advertised)
            (size_bytes withdraw s)
        else [])
      s

-- `for (uint16_t i = 0; i < num_nodes; i++) nodes.emplace(...)`.
unfoldable pub read_nodes : ℕ → List ℕ → Reader (List ℕ)
read_nodes zero nodes bytes = pure nodes bytes
read_nodes (suc n) nodes bytes = (do id ← read_value 8; read_nodes n (emplace id nodes)) bytes

-- A withdraw holds the id alone.
unfoldable pub read_sns : Bool → Reader SubscribeNodeSet
read_sns true = do id ← read_value 4; pure (record default_sns { id = id })
read_sns false = do
  id ← read_value 4
  priority ← read_byte
  num_nodes ← read_value 2
  nodes ← read_nodes num_nodes []
  pure (record { id = id; priority = priority; nodes = nodes })
