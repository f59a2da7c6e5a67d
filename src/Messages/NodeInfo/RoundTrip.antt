-- ===== src/Messages/NodeInfo/RoundTrip.antt =====
-- What `read_node_info` makes of the bytes that `append_node_info` wrote.
use laps.Prelude.{
  ℕ, zero, suc, ◌+◌, ◌*◌, ◌^◌, ◌≡◌, ◌<◌, ◌≤◌, refl, sym, ap, ◌∙◌, List, [], ◌∷◌, ◌++◌, length,
  length-append, All, arith,
}
use laps.Prelude.Outcome.{done}
use laps.Wire.{bytes_of, read_bytes, read_byte, read_value}
use laps.Wire.Reads.{
  length-bytes_of, length-net, le_value-bytes_of, read_step, read_bytes-prefix, read_bytes-append,
  read_value-net, read_byte-cons,
}
use laps.Messages.UintVar.{UintVar, UintVarLaws, read_uint_var}
use laps.Messages.NodeInfo.{
  NodeType, other, node_type_byte, node_type_of, NodePathItem, NodeInfo, write_path,
  append_node_info, read_path_item, read_path_loop, read_path, read_node_info,
}

abbrev pub IsNodeType : NodeType → Type 0
IsNodeType (other n) = (3 ≤ n) × (n < 256)
IsNodeType _ = Unit {0}

pub node_type_of-byte : (t : NodeType) → IsNodeType t → node_type_of (node_type_byte t) ≡ t
unfolding node_type_of node_type_byte
node_type_of-byte (other n) h = ground arith
node_type_of-byte _ h = ground arith

abbrev pub IsPathItem : NodePathItem → Type 0
IsPathItem i = (i.id < 2 ^ 64) × (i.srtt_us < 2 ^ 64)

-- The fields fit their C++ types.
pub record IsNodeInfo (n : NodeInfo) : Type 0 where
  pub id : n.id < 2 ^ 64
  pub type : IsNodeType n.type
  pub contact : length n.contact < 2 ^ 62
  pub longitude : n.longitude < 2 ^ 64
  pub latitude : n.latitude < 2 ^ 64
  pub path : All IsPathItem n.path

length-write_path : (path : List NodePathItem) → length (write_path path) ≡ length path * 16
unfolding write_path
length-write_path [] = omega arith
length-write_path (i ∷ path) = omega (
  arith,
  length-append (bytes_of 8 i.id) (bytes_of 8 i.srtt_us ++ write_path path),
  length-append (bytes_of 8 i.srtt_us) (write_path path),
  length-bytes_of 8 i.id,
  length-bytes_of 8 i.srtt_us,
  length-write_path path,
)

read_path_item-write :
    (i : NodePathItem) (rest : List ℕ)
    → IsPathItem i
    → read_path_item (bytes_of 8 i.id ++ (bytes_of 8 i.srtt_us ++ rest)) ≡ done (i, rest)
unfolding read_path_item
read_path_item-write i rest h =
    read_step (read_bytes 8) _ (read_bytes-prefix 8 (bytes_of 8 i.id) _ (length-bytes_of 8 i.id))
    ∙ read_step (read_bytes 8) _
        (read_bytes-prefix 8 (bytes_of 8 i.srtt_us) rest (length-bytes_of 8 i.srtt_us))
    ∙ rw (le_value-bytes_of 8 i.id h.0, le_value-bytes_of 8 i.srtt_us h.1)

read_path_loop_step :
    (fuel : ℕ) (bytes : List ℕ) {item : NodePathItem} {mid rest : List ℕ} {path : List NodePathItem}
    → read_path_item bytes ≡ done (item, mid)
    → read_path_loop fuel mid ≡ done (path, rest)
    → read_path_loop (suc fuel) bytes ≡ done (item ∷ path, rest)
unfolding read_path_loop
read_path_loop_step fuel [] e f = absurd (unfold read_path_item read_bytes in cc)
read_path_loop_step fuel (b ∷ bs) e f =
    read_step read_path_item _ e ∙ read_step (read_path_loop fuel) _ f

read_path_loop-write :
    (fuel : ℕ) (path : List NodePathItem)
    → length path ≤ fuel
    → All IsPathItem path
    → read_path_loop fuel (write_path path) ≡ done (path, [])
unfolding write_path
read_path_loop-write fuel [] h all = unfold read_path_loop in refl
read_path_loop-write zero (i ∷ path) h all = absurd (omega arith)
read_path_loop-write (suc fuel) (i ∷ path) h all =
    read_path_loop_step fuel _ (read_path_item-write i (write_path path) all.0)
      (read_path_loop-write fuel path (omega arith) all.1)

pub read_path-write :
    (path : List NodePathItem) → All IsPathItem path → read_path (write_path path) ≡ done (path, [])
unfolding read_path
read_path-write path all =
    read_path_loop-write (length (write_path path)) path (omega (arith, length-write_path path)) all

pub read_uint_var-encode :
    (u : UintVar) (v : ℕ) (rest : List ℕ)
    → UintVarLaws u
    → v < 2 ^ 62
    → read_uint_var u (u.encode v ++ rest) ≡ done (v, rest)
unfolding read_uint_var
read_uint_var-encode u v rest laws h =
    let (b, bs, e, l) = laws.size_encode v h in
    rw e (
      read_step (read_bytes (u.size b)) _ (read_bytes-prefix (u.size b) (b ∷ bs) rest (sym l))
      ∙ ap (λ (x : ℕ). done (x, rest)) (ap u.decode (sym e) ∙ laws.decode_encode v h))

-- Reading the bytes of a node info whose fields fit their types gives it back, to the end.
pub read_node_info-append :
    (u : UintVar) (n : NodeInfo)
    → UintVarLaws u
    → IsNodeInfo n
    → read_node_info u (append_node_info u [] n) ≡ done (n, [])
unfolding read_node_info append_node_info
read_node_info-append u n laws h =
    read_step (read_value 8) _ (read_value-net 8 n.id _ h.id)
    ∙ read_step read_byte _ (read_byte-cons _ _)
    ∙ read_step (read_uint_var u) _ (read_uint_var-encode u (length n.contact) _ laws h.contact)
    ∙ read_step (read_bytes (length n.contact)) _ (read_bytes-append n.contact _)
    ∙ read_step (read_value 8) _ (read_value-net 8 n.longitude _ h.longitude)
    ∙ read_step (read_value 8) _ (read_value-net 8 n.latitude _ h.latitude)
    ∙ read_step read_path _ (read_path-write n.path h.path)
    ∙ ap (λ (t : NodeType). done (record n { type = t }, [])) (node_type_of-byte n.type h.type)

pub length-append_node_info :
    (u : UintVar) (bytes : List ℕ) (n : NodeInfo)
    → length (append_node_info u bytes n)
      ≡ length bytes
        + 8
        + 1
        + length (u.encode (length n.contact))
        + length n.contact
        + 8
        + 8
        + length n.path * 16
unfolding append_node_info
length-append_node_info u bytes n =
    simp (length-append, length-net, length-write_path) (omega arith)
