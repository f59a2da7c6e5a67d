-- ===== src/Peer/Frame.antt =====
-- The control stream: `ProcessControlMessage` of src/peering/peer_session.cc up to the switch over
-- the types, and the buffer that `OnRecvStream` fills.
use laps.Prelude.{ℕ, ◌+◌, ◌%◌, ◌^◌, List, [], ◌∷◌, ◌++◌, length, ltb, if◌then◌else◌}
use laps.Prelude.Outcome.{Outcome, done, thrown, fault, stuck}
use laps.Wire.{Reader, pure, ◌>>=◌, read_bytes, read_byte, read_value}
use laps.Messages.Types.{common_headers_size}
pub mod Whole
pub mod Chunks

-- What the buffer begins with: too few bytes, a length that reaches past the end of the buffer, or
-- a message and the bytes behind it.
pub data Frame : Type 0 where
  waiting overrun : Frame
  message : ℕ → List ℕ → List ℕ → Frame

-- Version, type and length of the body.
unfoldable pub read_headers : Reader (ℕ × ℕ)
read_headers = do
  version ← read_byte
  type ← read_value 2
  data_len ← read_value 4
  pure (type, data_len)

abbrev pub frame_of : ℕ → Outcome (List ℕ × List ℕ) → Frame
frame_of type (done (body, rest)) = message type body rest
frame_of type _ = overrun

-- `kCommonHeadersSize + data_len` is a sum of 32 bits.
unfoldable pub cut : List ℕ → Outcome ((ℕ × ℕ) × List ℕ) → Frame
cut buffer (done ((type, data_len), rest)) =
    if ltb (length buffer) ((common_headers_size + data_len) % 2 ^ 32)
    then waiting
    else frame_of type (read_bytes data_len rest)
cut buffer _ = overrun

unfoldable pub next_frame : List ℕ → Frame
next_frame buffer =
    if ltb (length buffer) common_headers_size then waiting else cut buffer (read_headers buffer)

-- The messages that are passed to the switch while chunks arrive, and the buffer after them. After
-- each chunk the buffer is looked at once. The switch is taken to handle each message: where it
-- throws, which is not in this function, the source clears the buffer.
unfoldable pub feed : List ℕ → List (List ℕ) → List (ℕ × List ℕ) × List ℕ
feed buffer [] = ([], buffer)
feed buffer (chunk ∷ chunks) = elim (next_frame (buffer ++ chunk)) [
  | waiting ↦ feed (buffer ++ chunk) chunks
  | overrun ↦ ([], buffer ++ chunk)
  | message type body rest ↦
      let (messages, left) = feed rest chunks in ((type, body) ∷ messages, left)
]
