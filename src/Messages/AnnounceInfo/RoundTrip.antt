-- ===== src/Messages/AnnounceInfo/RoundTrip.antt =====
-- What `read_announce_info` makes of the bytes of an announce info.
use mathlib.Core.List.{append_assoc}
use laps.Prelude.{
  ℕ, ◌+◌, ◌*◌, ◌%◌, ◌^◌, ◌≡◌, ◌<◌, refl, ap, ◌∙◌, List, [], ◌∷◌, ◌++◌, length, length-append, All,
  arith,
}
use laps.Prelude.Outcome.{done}
use laps.Wire.{net, read_bytes, read_byte, read_value}
use laps.Wire.Reads.{
  length-net, read_step, read_bytes-append, read_value-net, read_byte-cons, read_value-wrapped,
  read_byte-wrapped,
}
use laps.Messages.TrackNamespace.{TrackNamespaces, TrackNamespacesLaws, total_length}
use laps.Messages.AnnounceInfo.{
  AnnounceInfo, write_entries, read_entries, append_announce_info, read_announce_info,
}

abbrev pub IsEntry : List ℕ → Type 0
IsEntry e = length e < 2 ^ 16

read_entries-write :
    (es : List (List ℕ)) (rest : List ℕ)
    → All IsEntry es
    → read_entries (length es) (write_entries es ++ rest) ≡ done (es, rest)
unfolding read_entries write_entries
read_entries-write [] rest h = refl
read_entries-write (e ∷ es) rest h =
    rw (append_assoc (net 2 (length e % 2 ^ 16)), append_assoc e)
      (read_step (read_value 2) _ (read_value-wrapped 2 (length e) _ h.0)
        ∙ read_step (read_bytes (length e)) _ (read_bytes-append e _)
        ∙ read_step (read_entries (length es)) _ (read_entries-write es rest h.1))

length-write_entries :
    (es : List (List ℕ)) → length (write_entries es) ≡ 2 * length es + total_length es
unfolding write_entries
length-write_entries [] = omega arith
length-write_entries (e ∷ es) = omega (
  arith,
  length-append (net 2 (length e % 2 ^ 16)) (e ++ write_entries es),
  length-append e (write_entries es),
  length-net 2 (length e % 2 ^ 16),
  length-write_entries es,
)

module _ {Namespace : Type 0} (t : TrackNamespaces Namespace) where
  pub record IsAnnounceInfo (a : AnnounceInfo Namespace) : Type 0 where
    pub source_node_id : a.source_node_id < 2 ^ 64
    pub fullname_hash : a.fullname_hash < 2 ^ 64
    pub entries : length (t.entries a.name_space) < 256
    pub entry : All IsEntry (t.entries a.name_space)
    pub name : length a.name < 2 ^ 16

  -- Reading the bytes of an announce info gives it back, where the fields fit their types: fewer
  -- than 256 entries, each shorter than 2 ^ 16 bytes, and such a name.
  pub read_announce_info-append :
      (a : AnnounceInfo Namespace)
      → TrackNamespacesLaws t
      → IsAnnounceInfo a
      → read_announce_info t (append_announce_info t [] a) ≡ done (a, [])
  unfolding read_announce_info append_announce_info
  read_announce_info-append a laws h =
      read_step (read_value 8) _ (read_value-net 8 a.source_node_id _ h.source_node_id)
      ∙ read_step (read_value 8) _ (read_value-net 8 a.fullname_hash _ h.fullname_hash)
      ∙ read_step read_byte _ (read_byte-wrapped (length (t.entries a.name_space)) _ h.entries)
      ∙ read_step (read_entries (length (t.entries a.name_space))) _
          (read_entries-write (t.entries a.name_space) _ h.entry)
      ∙ read_step (read_value 2) _ (read_value-wrapped 2 (length a.name) _ h.name)
      ∙ read_step (read_bytes (length a.name)) _ (read_bytes-append a.name _)
      ∙ read_step read_byte _ (read_byte-cons a.flags [])
      ∙ ap (λ (n : Namespace). done (record a { name_space = n }, []))
          (laws.of_entries-entries a.name_space)

  pub length-append_announce_info :
      (bytes : List ℕ) (a : AnnounceInfo Namespace)
      → TrackNamespacesLaws t
      → length (append_announce_info t bytes a)
        ≡ length bytes
          + (8
              + 8
              + 1
              + (2 * length (t.entries a.name_space) + t.size a.name_space)
              + (2 + length a.name)
              + 1)
  unfolding append_announce_info
  length-append_announce_info bytes a laws =
      simp (length-append, length-net, length-write_entries)
        (omega (arith, laws.size-entries a.name_space))
