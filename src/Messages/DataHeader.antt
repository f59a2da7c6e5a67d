-- ===== src/Messages/DataHeader.antt =====
-- src/peering/messages/data_header.h and data_header.cc.
use laps.Prelude.{
  ℕ, suc, ◌+◌, ◌%◌, ◌^◌, Bool, true, false, List, [], ◌∷◌, ◌++◌, length, ltb, ◌==◌, if◌then◌else◌,
}
use laps.Prelude.Outcome.{Outcome, done, thrown, fault, stuck, invalid_argument}
use laps.Wire.{Reader, pure, ◌>>=◌, net, read_byte, read_value}
pub mod RoundTrip
pub mod Bounds

pub data DataType : Type 0 where
  datagram existing_stream new_stream control_signaling : DataType
  fetch_new_stream fetch_existing_stream : DataType
  other : ℕ → DataType

unfoldable pub data_type_byte : DataType → ℕ
data_type_byte datagram = 0
data_type_byte existing_stream = 1
data_type_byte new_stream = 2
data_type_byte control_signaling = 3
data_type_byte fetch_new_stream = 4
data_type_byte fetch_existing_stream = 5
data_type_byte (other n) = n

unfoldable pub data_type_of : ℕ → DataType
data_type_of b =
    if b == 0
    then datagram
    else if b == 1
    then existing_stream
    else if b == 2
    then new_stream
    else if b == 3
    then control_signaling
    else if b == 4
    then fetch_new_stream
    else if b == 5
    then fetch_existing_stream
    else other b

pub record DataHeader : Type 0 where
  pub header_len : ℕ
  pub type : DataType
  pub sns_id : ℕ
  pub track_full_name_hash : ℕ
  pub priority : ℕ
  pub ttl : ℕ

-- The object that `DataHeader()` makes.
abbrev pub default_header : DataHeader
default_header = record {
  header_len = 0;
  type = new_stream;
  sns_id = 0;
  track_full_name_hash = 0;
  priority = 1;
  ttl = 2000;
}

unfoldable pub type_size : DataType → ℕ
type_size datagram = 4 + 8
type_size new_stream = 4 + 8 + 1 + 4
type_size _ = 0

unfoldable pub size_bytes : DataHeader → ℕ
size_bytes h = if h.header_len == 0 then 2 + type_size h.type else h.header_len

-- The fields behind the length and the type.
unfoldable pub fields : DataHeader → List ℕ
fields h = elim h.type [
  | datagram ↦ net 4 h.sns_id ++ net 8 h.track_full_name_hash
  | new_stream ↦ net 4 h.sns_id ++ (net 8 h.track_full_name_hash ++ (h.priority ∷ net 4 h.ttl))
  | _ ↦ []
]

-- `*header_len = ...` goes through a pointer to the first byte of the whole buffer.
abbrev pub set_first : List ℕ → ℕ → List ℕ
set_first [] v = []
set_first (b ∷ bs) v = v ∷ bs

-- `operator<<`.
unfoldable pub append_header : List ℕ → DataHeader → List ℕ
append_header bytes h = elim h.type [
  | existing_stream ↦ bytes
  | type ↦
      set_first (bytes ++ (h.header_len ∷ (data_type_byte type ∷ fields h))) (2 + type_size type)
]

unfoldable pub serialize : DataHeader → List ℕ
serialize h = append_header [] h

-- The `switch` of `Deserialize`.
unfoldable pub read_fields : DataHeader → Reader DataHeader
read_fields h = elim h.type [
  | datagram ↦ do
    sns_id ← read_value 4
    hash ← read_value 8
    pure (record h { sns_id = sns_id; track_full_name_hash = hash })
  | new_stream ↦ do
    sns_id ← read_value 4
    hash ← read_value 8
    priority ← read_byte
    ttl ← read_value 4
    pure (record h { sns_id = sns_id; track_full_name_hash = hash; priority = priority; ttl = ttl })
  | _ ↦ pure h
]

-- `Deserialize` on an object: what it returns, and the object after it.
unfoldable pub deserialize : DataHeader → List ℕ → Outcome (Bool × DataHeader)
deserialize h [] = done (false, h)
deserialize h (header_len ∷ bytes) =
    if ltb (suc (length bytes)) header_len
    then thrown invalid_argument
    else elim ((do
      type ← read_byte
      read_fields (record h { header_len = header_len; type = data_type_of type }))
        bytes) [
          | done (h', _) ↦ done (true, h')
          | thrown e ↦ thrown e
          | fault ↦ fault
          | stuck ↦ stuck
        ]
