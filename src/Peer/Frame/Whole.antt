-- ===== src/Peer/Frame/Whole.antt =====
-- What a buffer with a message, with a part of one, or with a wrapped length begins with.
use mathlib.Core.List.{append_assoc}
use laps.Prelude.{
  ℕ, ◌+◌, ◌%◌, ◌^◌, ◌≡◌, ◌<◌, ◌≤◌, refl, ap, ◌∙◌, true, false, List, [], ◌∷◌, ◌++◌, length,
  length-append, arith, inl, inr, Bool-cases, ltb, if◌then◌else◌,
}
use laps.Prelude.Outcome.{done}
use laps.Wire.{net, read_bytes, read_byte, read_value}
use laps.Wire.Reads.{length-net, read_step, read_bytes-append, read_value-net, read_bytes_short}
use laps.Messages.Types.{MsgType, msg_type_code, common_headers}
use laps.Peer.Frame.{waiting, overrun, message, read_headers, frame_of, cut, next_frame}

-- A message on the stream: the headers with the length of the body, and the body.
abbrev pub on_stream : MsgType → List ℕ → List ℕ
on_stream type body = common_headers type (length body) ++ body

length-headers : (type : MsgType) (n : ℕ) → length (common_headers type n) ≡ 7
unfolding common_headers
length-headers type n = omega (
  arith,
  length-append (net 2 (msg_type_code type)) (net 4 n),
  length-net 2 (msg_type_code type),
  length-net 4 n,
)

length-common_headers :
    (type : MsgType) (n : ℕ) (rest : List ℕ)
    → length (common_headers type n ++ rest) ≡ 7 + length rest
length-common_headers type n rest =
    omega (arith, length-append (common_headers type n) rest, length-headers type n)

read_headers-common_headers :
    (type : MsgType) (n : ℕ) (rest : List ℕ)
    → msg_type_code type < 2 ^ 16
    → n < 2 ^ 32
    → read_headers (common_headers type n ++ rest) ≡ done ((msg_type_code type, n), rest)
unfolding read_headers common_headers read_byte
read_headers-common_headers type n rest t h = rw append_assoc (
    read_step (read_value 2) _ (read_value-net 2 (msg_type_code type) (net 4 n ++ rest) t)
    ∙ read_step (read_value 4) _ (read_value-net 4 n rest h))

-- A buffer that begins with headers.
next_frame-common_headers :
    (type : MsgType) (n : ℕ) (rest : List ℕ)
    → msg_type_code type < 2 ^ 16
    → n < 2 ^ 32
    → next_frame (common_headers type n ++ rest) ≡ (
        if ltb (7 + length rest) ((7 + n) % 2 ^ 32)
        then waiting
        else frame_of (msg_type_code type) (read_bytes n rest))
unfolding next_frame cut
next_frame-common_headers type n rest t h =
    let enough : ltb (7 + length rest) 7 ≡ false = ground arith in
    rw
      (
        next_frame,
        length-common_headers type n rest,
        enough,
        read_headers-common_headers type n rest t h,
        cut,
        length-common_headers type n rest,
      )
      refl

-- A buffer that begins with a message whose body is shorter than 2 ^ 32 - 7 bytes begins with that
-- message for `ProcessControlMessage`, and what follows stays.
pub next_frame-whole :
    (type : MsgType) (body rest : List ℕ)
    → msg_type_code type < 2 ^ 16
    → length body + 7 < 2 ^ 32
    → next_frame (on_stream type body ++ rest) ≡ message (msg_type_code type) body rest
next_frame-whole type body rest t small =
    let enough : ltb (7 + length (body ++ rest)) ((7 + length body) % 2 ^ 32) ≡ false =
      ground (arith, length-append body rest) in
    rw append_assoc (
      next_frame-common_headers type (length body) (body ++ rest) t (omega arith)
      ∙ rw (enough, read_bytes-append body rest) refl)

-- The rest of a list behind a part that two lists begin with.
pub behind :
    (front p q back : List ℕ)
    → p ++ q ≡ front ++ back
    → length front ≤ length p
    → (p' : List ℕ) × (p ≡ front ++ p') × (p' ++ q ≡ back)
behind [] p q back e h = (p, refl, e)
behind (x ∷ front) [] q back e h = absurd (omega arith)
behind (x ∷ front) (y ∷ p) q back e h =
    let (p', a, b) = behind front p q back (cc) (omega arith) in (p', cc, b)

-- With only a part of the message the code waits for more.
pub next_frame-part :
    (type : MsgType) (body part missing : List ℕ)
    → msg_type_code type < 2 ^ 16
    → length body + 7 < 2 ^ 32
    → part ++ missing ≡ on_stream type body
    → 1 ≤ length missing
    → next_frame part ≡ waiting
unfolding next_frame
next_frame-part type body part missing t small e short = elim (Bool-cases (ltb (length part) 7)) [
  | inl little ↦ rw (next_frame, little) refl
  | inr much ↦
      let (p', front, back) =
        behind (common_headers type (length body)) part missing body e
          (ground (arith, length-headers type (length body))) in
      let more : ltb (7 + length p') ((7 + length body) % 2 ^ 32) ≡ true =
        ground (arith, ap (λ xs. length xs) back, length-append p' missing) in
      ap next_frame front
      ∙ (next_frame-common_headers type (length body) p' t (omega arith) ∙ rw more refl)
]

-- The sum of the sizes wraps: for a length of 2 ^ 32 - 7 or more the test passes as soon as the
-- headers are there, and the span of the body reaches past the end of the buffer.
pub next_frame_wrapped :
    (type : MsgType) (n : ℕ) (rest : List ℕ)
    → msg_type_code type < 2 ^ 16
    → 2 ^ 32 ≤ n + 7
    → n < 2 ^ 32
    → length rest < n
    → next_frame (common_headers type n ++ rest) ≡ overrun
next_frame_wrapped type n rest t large h short =
    let passes : ltb (7 + length rest) ((7 + n) % 2 ^ 32) ≡ false = ground arith in
    next_frame-common_headers type n rest t h ∙ rw (passes, read_bytes_short n rest short) refl

pub length-on_stream :
    (type : MsgType) (body : List ℕ) → length (on_stream type body) ≡ 7 + length body
length-on_stream type body = length-common_headers type (length body) body
