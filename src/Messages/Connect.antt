-- ===== src/Messages/Connect.antt =====
-- src/peering/messages/connect.h and connect.cc.
use laps.Prelude.{ℕ, ◌+◌, ◌%◌, ◌^◌, List, [], ◌∷◌, ◌++◌}
use laps.Wire.{Reader, pure, ◌>>=◌, read_byte}
use laps.Messages.Types.{PeerMode, peer_mode_byte, peer_mode_of, MsgType, common_headers}
use laps.Messages.UintVar.{UintVar}
use laps.Messages.NodeInfo
use laps.Messages.NodeInfo.{NodeInfo, append_node_info, read_node_info}
pub mod RoundTrip

pub record Connect : Type 0 where
  pub mode : PeerMode
  pub node_info : NodeInfo

module _ (u : UintVar) where
  unfoldable pub size_bytes : Connect → ℕ
  size_bytes c = (1 + NodeInfo.size_bytes u c.node_info) % 2 ^ 32

  -- What follows the common headers.
  unfoldable pub body : Connect → List ℕ
  body c = peer_mode_byte c.mode ∷ append_node_info u [] c.node_info

  unfoldable pub serialize : Connect → List ℕ
  serialize c = common_headers MsgType.connect (size_bytes c) ++ body c

  unfoldable pub read_connect : Reader Connect
  read_connect = do
    mode ← read_byte
    node_info ← read_node_info u
    pure (record { mode = peer_mode_of mode; node_info = node_info })
