-- ===== src/Messages/DataHeader/RoundTrip.antt =====
-- What `deserialize` makes of the bytes of a data header, and of any bytes.
use mathlib.Core.List.{append_assoc}
use laps.Prelude.{
  ℕ, suc, ◌+◌, ◌^◌, ◌≡◌, ◌<◌, ◌≤◌, inl, inr, refl, ◌∙◌, true, List, ◌∷◌, ◌++◌, length,
  length-append, arith, ltb, Bool-cases,
}
use laps.Prelude.Outcome.{done}
use laps.Wire.{net, read_byte, read_value, ◌>>=◌}
use laps.Wire.Reads.{length-net, read_step, read_value-net, read_byte-cons}
use laps.Messages.DataHeader.{
  datagram, new_stream, data_type_byte, data_type_of, DataHeader, type_size, fields, append_header,
  serialize, read_fields, deserialize,
}

pub record IsDataHeader (h : DataHeader) : Type 0 where
  pub sns_id : h.sns_id < 2 ^ 32
  pub track_full_name_hash : h.track_full_name_hash < 2 ^ 64
  pub priority : h.priority < 256
  pub ttl : h.ttl < 2 ^ 32

read_fields-datagram :
    (h : DataHeader) (sns_id hash : ℕ) (payload : List ℕ)
    → sns_id < 2 ^ 32
    → hash < 2 ^ 64
    → h.type ≡ datagram
    → read_fields h ((net 4 sns_id ++ net 8 hash) ++ payload)
      ≡ done (record h { sns_id = sns_id; track_full_name_hash = hash }, payload)
unfolding read_fields
read_fields-datagram h sns_id hash payload hs hh e =
    rw (e, append_assoc (net 4 sns_id))
      (read_step (read_value 4) _ (read_value-net 4 sns_id _ hs)
        ∙ read_step (read_value 8) _ (read_value-net 8 hash _ hh))

read_fields-new_stream :
    (h : DataHeader) (sns_id hash priority ttl : ℕ) (payload : List ℕ)
    → sns_id < 2 ^ 32
    → hash < 2 ^ 64
    → ttl < 2 ^ 32
    → h.type ≡ new_stream
    → read_fields h ((net 4 sns_id ++ (net 8 hash ++ (priority ∷ net 4 ttl))) ++ payload)
      ≡ done (
        record h { sns_id = sns_id; track_full_name_hash = hash; priority = priority; ttl = ttl },
        payload,
      )
unfolding read_fields
read_fields-new_stream h sns_id hash priority ttl payload hs hh ht e =
    rw (e, append_assoc (net 4 sns_id), append_assoc (net 8 hash))
      (read_step (read_value 4) _ (read_value-net 4 sns_id _ hs)
        ∙ read_step (read_value 8) _ (read_value-net 8 hash _ hh)
        ∙ read_step read_byte _ (read_byte-cons priority _)
        ∙ read_step (read_value 4) _ (read_value-net 4 ttl payload ht))

-- The two bytes in front of the fields, and the fields.
deserialize_step :
    (old h : DataHeader) (len b : ℕ) (bytes rest : List ℕ)
    → len ≤ length bytes + 2
    → read_fields (record old { header_len = len; type = data_type_of b }) bytes ≡ done (h, rest)
    → deserialize old (len ∷ b ∷ bytes) ≡ done (true, h)
unfolding deserialize
deserialize_step old h len b bytes rest fits e =
    elim (Bool-cases (ltb (suc (suc (length bytes))) len)) [
      | inl long ↦ absurd (ground arith)
      | inr short ↦ rw (short, read_byte-cons b bytes, ◌>>=◌, e)
    ]

length-fields-datagram : (sns_id hash : ℕ) → length (net 4 sns_id ++ net 8 hash) ≡ 12
length-fields-datagram sns_id hash = simp (length-append, length-net) (omega arith)

length-fields-new_stream :
    (sns_id hash priority ttl : ℕ)
    → length (net 4 sns_id ++ (net 8 hash ++ (priority ∷ net 4 ttl))) ≡ 17
length-fields-new_stream sns_id hash priority ttl = simp (length-append, length-net) (omega arith)

module _ (h old : DataHeader) (payload : List ℕ) where
  -- A datagram header whose fields fit is 14 bytes, as its first byte says. Reading it in front of any payload
  -- succeeds, takes the two fields from the bytes, and leaves priority and ttl as they were.
  pub deserialize-datagram :
      h.type ≡ datagram
      → IsDataHeader h
      → (length (serialize h) ≡ 14)
        × (deserialize old (serialize h ++ payload)
            ≡ done (
              true,
              record old {
                header_len = 14;
                type = datagram;
                sns_id = h.sns_id;
                track_full_name_hash = h.track_full_name_hash;
              },
            ))
  unfolding serialize append_header fields type_size data_type_of data_type_byte
  deserialize-datagram e w = rw e (
    omega (arith, length-fields-datagram h.sns_id h.track_full_name_hash),
    deserialize_step old _ 14 _ _ payload
        (omega (
          arith,
          length-append (net 4 h.sns_id ++ net 8 h.track_full_name_hash) payload,
          length-fields-datagram h.sns_id h.track_full_name_hash,
        ))
        (read_fields-datagram _ h.sns_id h.track_full_name_hash payload w.sns_id
          w.track_full_name_hash refl),
  )

  -- A new stream header whose fields fit is 19 bytes, as its first byte says. Reading it in front
  -- of any payload succeeds and takes all fields from the bytes.
  pub deserialize-new_stream :
      h.type ≡ new_stream
      → IsDataHeader h
      → (length (serialize h) ≡ 19)
        × (deserialize old (serialize h ++ payload) ≡ done (true, record h { header_len = 19 }))
  unfolding serialize append_header fields type_size data_type_of data_type_byte
  deserialize-new_stream e w = rw e (
    omega (arith, fields_length),
    deserialize_step old _ 19 _ _ payload
        (omega (
          arith,
          length-append
              (net 4 h.sns_id ++ (net 8 h.track_full_name_hash ++ (h.priority ∷ net 4 h.ttl)))
              payload,
          fields_length,
        ))
        (read_fields-new_stream _ h.sns_id h.track_full_name_hash h.priority h.ttl payload w.sns_id
          w.track_full_name_hash w.ttl refl),
  )
    where
      fields_length :
          length (net 4 h.sns_id ++ (net 8 h.track_full_name_hash ++ (h.priority ∷ net 4 h.ttl)))
          ≡ 17
      fields_length = length-fields-new_stream h.sns_id h.track_full_name_hash h.priority h.ttl
