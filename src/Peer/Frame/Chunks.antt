-- ===== src/Peer/Frame/Chunks.antt =====
-- Messages that arrive in chunks.
use mathlib.Core.List.{append_assoc, append-nil}
use laps.Prelude.{
  ℕ, ◌+◌, ◌^◌, ◌≡◌, ◌<◌, ◌≤◌, refl, sym, ap, ◌∙◌, List, [], ◌∷◌, ◌++◌, length, length-append, All,
  arith,
}
use laps.Messages.Types.{MsgType, msg_type_code}
use laps.Peer.Frame.{message, next_frame, feed}
use laps.Peer.Frame.Whole.{on_stream, length-on_stream, next_frame-whole, next_frame-part}

abbrev pub concat : List (List ℕ) → List ℕ
concat [] = []
concat (c ∷ cs) = c ++ concat cs

abbrev IsChunk : List ℕ → Type 0
IsChunk c = 1 ≤ length c

abbrev pub IsMessage : MsgType × List ℕ → Type 0
IsMessage (type, body) = (msg_type_code type < 2 ^ 16) × (length body + 7 < 2 ^ 32)

feed_rest :
    (type : MsgType) (body buffer : List ℕ) (chunks : List (List ℕ))
    → IsMessage (type, body)
    → All IsChunk chunks
    → buffer ++ concat chunks ≡ on_stream type body
    → 1 ≤ length chunks
    → feed buffer chunks ≡ ((msg_type_code type, body) ∷ [], [])
unfolding feed
feed_rest type body buffer [] m all e h = absurd (omega arith)
feed_rest type body buffer (chunk ∷ []) m all e h =
    let whole : buffer ++ chunk ≡ on_stream type body ++ [] =
      ap (λ c. buffer ++ c) (sym (append-nil chunk))
      ∙ (e ∙ sym (append-nil (on_stream type body))) in
    rw (feed, whole, next_frame-whole type body [] m.0 m.1) refl
feed_rest type body buffer (chunk ∷ next ∷ chunks) m all e h =
    let joined : (buffer ++ chunk) ++ concat (next ∷ chunks) ≡ on_stream type body =
      append_assoc buffer chunk (concat (next ∷ chunks)) ∙ e in
    let missing : 1 ≤ length (concat (next ∷ chunks)) =
      ground (arith, length-append next (concat chunks), all.1.0) in
    rw (feed, next_frame-part type body (buffer ++ chunk) _ m.0 m.1 joined missing)
      (feed_rest type body (buffer ++ chunk) (next ∷ chunks) m all.1 joined (omega arith))

-- A message that arrives alone, cut into chunks at any places, is passed to the switch once, with
-- its last chunk, and leaves the buffer empty.
pub feed-on_stream :
    (type : MsgType) (body : List ℕ) (chunks : List (List ℕ))
    → IsMessage (type, body)
    → All IsChunk chunks
    → concat chunks ≡ on_stream type body
    → feed [] chunks ≡ ((msg_type_code type, body) ∷ [], [])
feed-on_stream type body [] m all e =
    absurd (ground (arith, ap (λ xs. length xs) e, length-on_stream type body))
feed-on_stream type body (chunk ∷ chunks) m all e =
    feed_rest type body [] (chunk ∷ chunks) m all e (omega arith)

-- Two messages in one chunk: the first is passed to the switch, and the second stays in the buffer
-- whole, whatever there is behind it.
pub feed_behind :
    (type next : MsgType) (body body' rest : List ℕ)
    → IsMessage (type, body)
    → IsMessage (next, body')
    → (feed [] ((on_stream type body ++ (on_stream next body' ++ rest)) ∷ [])
        ≡ ((msg_type_code type, body) ∷ [], on_stream next body' ++ rest))
      × (next_frame (on_stream next body' ++ rest) ≡ message (msg_type_code next) body' rest)
unfolding feed
feed_behind type next body body' rest m m' = (
  rw (feed, next_frame-whole type body (on_stream next body' ++ rest) m.0 m.1) refl,
  next_frame-whole next body' rest m'.0 m'.1,
)
