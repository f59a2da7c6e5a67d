-- ===== src/Messages/ConnectResponse/RoundTrip.antt =====
-- The connect response: which objects can be written, and reading them back.
use mathlib.Core.List.{append-nil}
use laps.Prelude.{
  ℕ, ◌+◌, ◌%◌, ◌^◌, ◌≡◌, ◌<◌, length, length-append, refl, ◌∙◌, List, [], ◌++◌, Option, none, some,
  arith,
}
use laps.Prelude.Outcome.{done}
use laps.Wire.{net, read_value}
use laps.Wire.Reads.{read_step, read_value-net, length-net}
use laps.Messages.Types.{
  ProtocolError, no_error, connect_error, connect_not_authorized, protocol_error_code,
  IsProtocolError, protocol_error_of-code, MsgType, common_headers,
}
use laps.Messages.UintVar.{UintVar, UintVarLaws}
use laps.Messages.NodeInfo
use laps.Messages.NodeInfo.{NodeInfo, append_node_info, read_node_info}
use laps.Messages.NodeInfo.RoundTrip.{IsNodeInfo, read_node_info-append, length-append_node_info}
use laps.Messages.ConnectResponse.{
  ConnectResponse, size_bytes, tail, serialize, read_tail, read_connect_response,
}

-- An accepting response carries the node info, and an error carries none.
abbrev IsTail : ProtocolError → Option NodeInfo → Type 0
IsTail no_error none = ⊥
IsTail no_error (some n) = IsNodeInfo n
IsTail _ none = Unit {0}
IsTail _ (some n) = ⊥

pub record IsConnectResponse (r : ConnectResponse) : Type 0 where
  pub error : IsProtocolError r.error
  pub node_info : IsTail r.error r.node_info

-- What a response is written to, and what that is read as.
abbrev pub Written : UintVar → ConnectResponse → Type 0
Written u r =
    (size : ℕ) × (body : List ℕ) × (serialize u r
      ≡ done (common_headers MsgType.connect_response size ++ body))
    × (length body % 2 ^ 32 ≡ size)
    × (read_connect_response u body ≡ done (r, []))

module _ (u : UintVar) where
  read_body :
      (error : ProtocolError) (node_info : Option NodeInfo) (rest : List ℕ)
      → protocol_error_code error < 2 ^ 16
      → IsProtocolError error
      → read_tail u error rest ≡ done (node_info, [])
      → read_connect_response u (net 2 (protocol_error_code error) ++ rest)
        ≡ done (record { error = error; node_info = node_info }, [])
  unfolding read_connect_response
  read_body error node_info rest fits code e =
      read_step (read_value 2) _ (read_value-net 2 (protocol_error_code error) rest fits)
      ∙ rw (protocol_error_of-code error code) (read_step (read_tail u error) _ e)

  length_refused : (code : ℕ) → length (net 2 code ++ []) % 2 ^ 32 ≡ 2
  length_refused code = rw (append-nil, length-net)

  length_accepted :
      (n : NodeInfo)
      → length (net 2 (protocol_error_code no_error) ++ append_node_info u [] n) % 2 ^ 32
        ≡ (2 + NodeInfo.size_bytes u n) % 2 ^ 32
  unfolding NodeInfo.size_bytes
  length_accepted n = omega (
    arith,
    length-append (net 2 (protocol_error_code no_error)) (append_node_info u [] n),
    length-net 2 (protocol_error_code no_error),
    length-append_node_info u [] n,
  )

  written :
      (error : ProtocolError) (node_info : Option NodeInfo)
      → UintVarLaws u
      → IsProtocolError error
      → IsTail error node_info
      → Written u (record { error = error; node_info = node_info })
  unfolding serialize size_bytes tail protocol_error_code read_tail
  written no_error none laws code h = elim h [ ]
  written no_error (some n) laws code h = (
    _,
    _,
    refl,
    length_accepted n,
    read_body no_error (some n) _ (omega arith) code
        (read_step (read_node_info u) _ (read_node_info-append u n laws h)),
  )
  written connect_error none laws code h =
      (_, _, refl, length_refused _, read_body connect_error none [] (omega arith) code refl)
  written connect_not_authorized none laws code h = (
    _,
    _,
    refl,
    length_refused _,
    read_body connect_not_authorized none [] (omega arith) code refl,
  )
  written (ProtocolError.other c) none laws code h =
      (_, _, refl, length_refused c, read_body (ProtocolError.other c) none [] code.1 code refl)
  written connect_error (some n) laws code h = elim h [ ]
  written connect_not_authorized (some n) laws code h = elim h [ ]
  written (ProtocolError.other c) (some n) laws code h = elim h [ ]

  -- A response whose fields fit is written behind headers with the length of the body, and the
  -- body is read back as the response.
  pub serialize-Written : (r : ConnectResponse) → UintVarLaws u → IsConnectResponse r → Written u r
  serialize-Written r laws h = written r.error r.node_info laws h.error h.node_info
