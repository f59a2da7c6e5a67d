-- ===== src/Messages/SubscribeInfo/RoundTrip.antt =====
-- What `read_subscribe_info` makes of the bytes of a subscribe info, and of any bytes.
use mathlib.Core.List.{append-nil}
use laps.Prelude.{ℕ, ◌+◌, ◌^◌, ◌≡◌, ◌<◌, refl, ◌∙◌, List, [], ◌∷◌, length, length-append, arith}
use laps.Prelude.Outcome.{done}
use laps.Wire.{read_bytes, read_value}
use laps.Wire.Reads.{length-net, read_step, read_bytes-append, read_value-net, read_value-wrapped}
use laps.Messages.SubscribeInfo.{
  SubscribeInfo, append_subscribe_info, read_subscribe_data, read_subscribe_info,
}

pub record IsSubscribeInfo (s : SubscribeInfo) : Type 0 where
  pub seq : s.seq < 2 ^ 16
  pub source_node_id : s.source_node_id < 2 ^ 64
  pub track_namespace_hash : s.track_hash.track_namespace_hash < 2 ^ 64
  pub track_name_hash : s.track_hash.track_name_hash < 2 ^ 64
  pub track_fullname_hash : s.track_hash.track_fullname_hash < 2 ^ 64
  pub subscribe_data : length s.subscribe_data < 2 ^ 32

read_bytes_self : (xs : List ℕ) → read_bytes (length xs) xs ≡ done (xs, [])
read_bytes_self xs = rw append-nil at (read_bytes-append xs [])

read_subscribe_data_self : (xs : List ℕ) → read_subscribe_data (length xs) xs ≡ done (xs, xs)
unfolding read_subscribe_data
read_subscribe_data_self [] = refl
read_subscribe_data_self (x ∷ xs) = ground (arith, read_bytes_self (x ∷ xs))

-- Reading the bytes of a subscribe info whose fields fit their types gives it back. The cursor
-- stays before the subscribe data.
pub read_subscribe_info-append :
    (s : SubscribeInfo)
    → IsSubscribeInfo s
    → read_subscribe_info (append_subscribe_info [] s) ≡ done (s, s.subscribe_data)
unfolding read_subscribe_info append_subscribe_info
read_subscribe_info-append s h =
    read_step (read_value 2) _ (read_value-net 2 s.seq _ h.seq)
    ∙ read_step (read_value 8) _ (read_value-net 8 s.source_node_id _ h.source_node_id)
    ∙ read_step (read_value 8) _ (read_value-net 8 _ _ h.track_namespace_hash)
    ∙ read_step (read_value 8) _ (read_value-net 8 _ _ h.track_name_hash)
    ∙ read_step (read_value 8) _ (read_value-net 8 _ _ h.track_fullname_hash)
    ∙ read_step (read_value 4) _ (read_value-wrapped 4 (length s.subscribe_data) _ h.subscribe_data)
    ∙ read_step (read_subscribe_data (length s.subscribe_data)) _
        (read_subscribe_data_self s.subscribe_data)

-- The length in the common headers is the length of the body.
pub length-append_subscribe_info :
    (bytes : List ℕ) (s : SubscribeInfo)
    → length (append_subscribe_info bytes s) ≡ length bytes + (38 + length s.subscribe_data)
unfolding append_subscribe_info
length-append_subscribe_info bytes s = simp (length-append, length-net) (omega arith)
