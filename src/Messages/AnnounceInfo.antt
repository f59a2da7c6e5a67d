-- ===== src/Messages/AnnounceInfo.antt =====
-- src/peering/messages/announce_info.h and announce_info.cc.
use laps.Prelude.{
  ℕ, zero, suc, ◌+◌, ◌*◌, ◌%◌, ◌^◌, Bool, true, false, List, [], ◌∷◌, ◌++◌, length, ltb, ◌==◌,
  if◌then◌else◌,
}
use laps.Wire.{Reader, pure, ◌>>=◌, net, read_byte, read_bytes, read_value}
use laps.Messages.Types.{MsgType, announce_info_advertised, announce_info_withdrawn, common_headers}
use laps.Messages.TrackNamespace.{TrackNamespaces}
pub mod RoundTrip

pub record AnnounceInfo (Namespace : Type 0) : Type 0 where
  pub source_node_id : ℕ
  pub name_space : Namespace
  pub name : List ℕ
  pub fullname_hash : ℕ
  pub flags : ℕ

unfoldable pub write_entries : List (List ℕ) → List ℕ
write_entries [] = []
write_entries (e ∷ es) = net 2 (length e % 2 ^ 16) ++ (e ++ write_entries es)

-- `for (int i = 0; i < num_entries; i++)`.
unfoldable pub read_entries : ℕ → Reader (List (List ℕ))
read_entries zero bytes = pure [] bytes
read_entries (suc n) bytes =
    (do
      len ← read_value 2
      entry ← read_bytes len
      entries ← read_entries n
      pure (entry ∷ entries))
      bytes

module _ {Namespace : Type 0} (t : TrackNamespaces Namespace) where
  unfoldable pub size_bytes : AnnounceInfo Namespace → ℕ
  size_bytes a =
      (8
        + 8
        + 1
        + (2 * length (t.entries a.name_space) + t.size a.name_space)
        + (2 + length a.name)
        + 1)
      % 2 ^ 32

  -- `operator<<`.
  unfoldable pub append_announce_info : List ℕ → AnnounceInfo Namespace → List ℕ
  append_announce_info bytes a =
      bytes
      ++ (net 8 a.source_node_id
          ++ (net 8 a.fullname_hash
              ++ ((length (t.entries a.name_space) % 256)
                  ∷ (write_entries (t.entries a.name_space)
                      ++ (net 2 (length a.name % 2 ^ 16) ++ (a.name ++ (a.flags ∷ [])))))))

  unfoldable pub serialize : Bool → Bool → AnnounceInfo Namespace → List ℕ
  serialize include_common_header withdraw a =
      append_announce_info
        (if include_common_header
          then common_headers
              (if withdraw then announce_info_withdrawn else announce_info_advertised)
              (size_bytes a)
          else [])
        a

  -- `if (name_size) name.assign(it, it + name_size)` is the read of `name_size` bytes.
  unfoldable pub read_announce_info : Reader (AnnounceInfo Namespace)
  read_announce_info = do
    source_node_id ← read_value 8
    fullname_hash ← read_value 8
    num_entries ← read_byte
    entries ← read_entries num_entries
    name_size ← read_value 2
    name ← read_bytes name_size
    flags ← read_byte
    pure (record {
      source_node_id = source_node_id;
      name_space = t.of_entries entries;
      name = name;
      fullname_hash = fullname_hash;
      flags = flags;
    })
