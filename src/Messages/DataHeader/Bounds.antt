-- ===== src/Messages/DataHeader/Bounds.antt =====
-- Which data `deserialize` reads past the end of.
use laps.Prelude.{ℕ, suc, ◌+◌, ◌≡◌, ◌<◌, ◌≤◌, inl, inr, List, ◌∷◌, length, arith, ltb, Bool-cases}
use laps.Prelude.Outcome.{fault}
use laps.Wire.{read_byte, read_value, ◌>>=◌}
use laps.Wire.Reads.{read_byte-cons}
use laps.Wire.Exact.{Exact, Exact-pure, Exact-bind, Exact-read_byte, Exact-read_value}
use laps.Messages.DataHeader.{
  DataType, datagram, existing_stream, new_stream, control_signaling, fetch_new_stream,
  fetch_existing_stream, data_type_of, DataHeader, type_size, read_fields, deserialize,
}

fields-Exact :
    (t : DataType) (h : DataHeader) → Exact (type_size t) (read_fields (record h { type = t }))
unfolding type_size read_fields
fields-Exact datagram h =
    Exact-bind 4 8 (read_value 4) _ (Exact-read_value 4)
      λ v. Exact-bind 8 0 (read_value 8) _ (Exact-read_value 8) λ w. Exact-pure _
fields-Exact new_stream h = Exact-bind 4 13 (read_value 4) _ (Exact-read_value 4) λ v.
    Exact-bind 8 5 (read_value 8) _ (Exact-read_value 8) λ w.
      Exact-bind 1 4 read_byte _ Exact-read_byte
        λ p. Exact-bind 4 0 (read_value 4) _ (Exact-read_value 4) λ t. Exact-pure _
fields-Exact existing_stream h = Exact-pure _
fields-Exact control_signaling h = Exact-pure _
fields-Exact fetch_new_stream h = Exact-pure _
fields-Exact fetch_existing_stream h = Exact-pure _
fields-Exact (DataType.other n) h = Exact-pure _

-- The length byte is held against the size of the data, and not against the fields of the type:
-- data that is as long as its length byte says, and too short for its type, is read past its end.
pub deserialize_overread :
    (h : DataHeader) (len b : ℕ) (bytes : List ℕ)
    → len ≤ length bytes + 2
    → length bytes < type_size (data_type_of b)
    → deserialize h (len ∷ b ∷ bytes) ≡ fault
unfolding deserialize
deserialize_overread h len b bytes fits few =
    elim (Bool-cases (ltb (suc (suc (length bytes))) len)) [
      | inl long ↦ absurd (ground arith)
      | inr short ↦
          let e = (fields-Exact (data_type_of b) (record h { header_len = len })).short bytes few in
          rw (short, read_byte-cons b bytes, ◌>>=◌, e)
    ]
