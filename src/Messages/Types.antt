-- ===== src/Messages/Types.antt =====
-- The enumerations of src/peering/common.h and src/peering/errors.h, and the common headers.
-- A C++ enumeration with a fixed underlying type holds any value of that type; the values that
-- have no name are `other`.
use laps.Prelude.{ℕ, ◌<◌, ◌≤◌, ◌^◌, ◌≡◌, ◌⊎◌, List, ◌∷◌, ◌++◌, ◌==◌, if◌then◌else◌, arith}
use laps.Wire.{net}

abbrev pub protocol_version : ℕ
protocol_version = 1

abbrev pub common_headers_size : ℕ
common_headers_size = 7

pub data PeerMode : Type 0 where
  ibp data_plane both : PeerMode
  other : ℕ → PeerMode

unfoldable pub peer_mode_byte : PeerMode → ℕ
peer_mode_byte ibp = 0
peer_mode_byte data_plane = 1
peer_mode_byte both = 2
peer_mode_byte (other n) = n

unfoldable pub peer_mode_of : ℕ → PeerMode
peer_mode_of b =
    if b == 0 then ibp else if b == 1 then data_plane else if b == 2 then both else other b

abbrev pub IsPeerMode : PeerMode → Type 0
IsPeerMode (other n) = (3 ≤ n) × (n < 256)
IsPeerMode _ = Unit {0}

pub peer_mode_of-byte : (m : PeerMode) → IsPeerMode m → peer_mode_of (peer_mode_byte m) ≡ m
unfolding peer_mode_of peer_mode_byte
peer_mode_of-byte (other n) h = ground arith
peer_mode_of-byte _ h = ground arith

pub data ProtocolError : Type 0 where
  no_error connect_error connect_not_authorized : ProtocolError
  other : ℕ → ProtocolError

unfoldable pub protocol_error_code : ProtocolError → ℕ
protocol_error_code no_error = 0
protocol_error_code connect_error = 1
protocol_error_code connect_not_authorized = 2
protocol_error_code (other n) = n

unfoldable pub protocol_error_of : ℕ → ProtocolError
protocol_error_of c =
    if c == 0
    then no_error
    else if c == 1
    then connect_error
    else if c == 2
    then connect_not_authorized
    else other c

abbrev pub IsProtocolError : ProtocolError → Type 0
IsProtocolError (other n) = (3 ≤ n) × (n < 2 ^ 16)
IsProtocolError _ = Unit {0}

pub protocol_error_of-code :
    (e : ProtocolError) → IsProtocolError e → protocol_error_of (protocol_error_code e) ≡ e
unfolding protocol_error_of protocol_error_code
protocol_error_of-code (other n) h = ground arith
protocol_error_of-code _ h = ground arith

pub data MsgType : Type 0 where
  connect connect_response data_object node_info_advertise node_info_withdrawn : MsgType
  subscribe_info_advertised subscribe_info_withdrawn : MsgType
  announce_info_advertised announce_info_withdrawn : MsgType
  subscribe_node_set_advertised subscribe_node_set_withdrawn : MsgType
  other : ℕ → MsgType

unfoldable pub msg_type_code : MsgType → ℕ
msg_type_code connect = 1
msg_type_code connect_response = 2
msg_type_code data_object = 3
msg_type_code node_info_advertise = 4
msg_type_code node_info_withdrawn = 5
msg_type_code subscribe_info_advertised = 6
msg_type_code subscribe_info_withdrawn = 7
msg_type_code announce_info_advertised = 8
msg_type_code announce_info_withdrawn = 9
msg_type_code subscribe_node_set_advertised = 10
msg_type_code subscribe_node_set_withdrawn = 11
msg_type_code (other n) = n

unfoldable pub msg_type_of : ℕ → MsgType
msg_type_of c =
    if c == 1
    then connect
    else if c == 2
    then connect_response
    else if c == 3
    then data_object
    else if c == 4
    then node_info_advertise
    else if c == 5
    then node_info_withdrawn
    else if c == 6
    then subscribe_info_advertised
    else if c == 7
    then subscribe_info_withdrawn
    else if c == 8
    then announce_info_advertised
    else if c == 9
    then announce_info_withdrawn
    else if c == 10
    then subscribe_node_set_advertised
    else if c == 11
    then subscribe_node_set_withdrawn
    else other c

abbrev pub IsMsgType : MsgType → Type 0
IsMsgType (other n) = (n < 2 ^ 16) × ((n ≡ 0) ⊎ (12 ≤ n))
IsMsgType _ = Unit {0}

pub msg_type_of-code : (t : MsgType) → IsMsgType t → msg_type_of (msg_type_code t) ≡ t
unfolding msg_type_of msg_type_code
msg_type_of-code (other n) h = ground arith
msg_type_of-code _ h = ground arith

-- The seven bytes that every control message begins with: version, type, length of the body.
unfoldable pub common_headers : MsgType → ℕ → List ℕ
common_headers type data_length =
    protocol_version ∷ (net 2 (msg_type_code type) ++ net 4 data_length)
