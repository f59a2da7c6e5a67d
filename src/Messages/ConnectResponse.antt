-- ===== src/Messages/ConnectResponse.antt =====
-- src/peering/messages/connect_response.h and connect_response.cc.
use laps.Prelude.{ℕ, ◌+◌, ◌%◌, ◌^◌, List, [], ◌∷◌, ◌++◌, Option, none, some}
use laps.Prelude.Outcome.{Outcome, done, thrown, runtime_error, deref, ◌>>=◌}
use laps.Wire
use laps.Wire.{Reader, net, read_value}
use laps.Messages.Types.{
  ProtocolError, no_error, protocol_error_code, protocol_error_of, MsgType, common_headers,
}
use laps.Messages.UintVar.{UintVar}
use laps.Messages.NodeInfo
use laps.Messages.NodeInfo.{NodeInfo, append_node_info, read_node_info}
pub mod RoundTrip

pub record ConnectResponse : Type 0 where
  pub error : ProtocolError
  pub node_info : Option NodeInfo

module _ (u : UintVar) where
  -- `node_info->SizeBytes()` follows the optional without a test.
  unfoldable pub size_bytes : ConnectResponse → Outcome ℕ
  size_bytes r = elim r.error [
    | no_error ↦ do n ← deref r.node_info; done ((2 + NodeInfo.size_bytes u n) % 2 ^ 32)
    | _ ↦ done 2
  ]

  -- The node info that follows the error code, or the exception for a missing one.
  unfoldable pub tail : ConnectResponse → Outcome (List ℕ)
  tail r = elim r.error [
    | no_error ↦ elim r.node_info [
      | none ↦ thrown runtime_error
      | some n ↦ done (append_node_info u [] n)
    ]
    | _ ↦ done []
  ]

  -- `reserve` asks for the size before anything is written.
  unfoldable pub serialize : ConnectResponse → Outcome (List ℕ)
  serialize r = do
    size ← size_bytes r
    rest ← tail r
    done (
        common_headers MsgType.connect_response size
        ++ (net 2 (protocol_error_code r.error) ++ rest))

  -- The optional node info behind an error code.
  unfoldable pub read_tail : ProtocolError → Reader (Option NodeInfo)
  read_tail no_error = Wire.◌>>=◌ (read_node_info u) (λ n. Wire.pure (some n))
  read_tail _ = Wire.pure none

  unfoldable pub read_connect_response : Reader ConnectResponse
  read_connect_response = Wire.◌>>=◌ (read_value 2) (λ c.
      let error = protocol_error_of c in
      Wire.◌>>=◌ (read_tail error) (λ n. Wire.pure (record { error = error; node_info = n })))
