-- ===== src/InfoBase/Announces.antt =====
-- `PrefixHashNamespaceTuples`, `AddAnnounce`, `RemoveAnnounce` and `GetAnnounceIds` of
-- src/peering/info_base.cc.
use laps.Prelude.{
  ℕ, Bool, true, false, not, List, [], ◌∷◌, Option, none, some, ◌||◌, ◌==◌, if◌then◌else◌, is_some,
}
use laps.Prelude.Outcome.{Outcome, done, deref, ◌>>=◌}
use laps.Prelude.SortedSet.{contains, emplace, is_empty}
use laps.Prelude.SortedSet
use laps.Prelude.SortedMap.{Map, lookup, insert, erase, nat_key}
use laps.Messages.AnnounceInfo.{AnnounceInfo}
use laps.InfoBase.State.{InfoBase}
use laps.InfoBase.Nested.{map_at, put_or_erase}
pub mod Table
pub mod Ids

-- The hashes of the transport library.
pub record Hashes (Namespace : Type 0) : Type 0 where
  -- `quicr::TrackNamespace::GetHashes`: one for each entry.
  pub get_hashes : Namespace → List ℕ
  -- What `quicr::hash_combine(hash, x)` leaves in `hash`.
  pub hash_combine : ℕ → ℕ → ℕ
  -- `quicr::TrackHash({ name_space, name }).track_fullname_hash`.
  pub track_fullname_hash : Namespace → List ℕ → ℕ

-- `std::vector::back`, undefined on an empty vector.
abbrev pub back : List ℕ → Option ℕ
back [] = none
back (x ∷ []) = some x
back (x ∷ y ∷ ys) = back (y ∷ ys)

-- The full name put in the set of each prefix.
unfoldable pub add_prefixes : ℕ → List ℕ → Map ℕ (List ℕ) → Map ℕ (List ℕ)
add_prefixes fullname [] m = m
add_prefixes fullname (h ∷ hs) m = add_prefixes fullname hs (elim (lookup h m) [
  | none ↦ insert h (fullname ∷ []) m
  | some s ↦ if contains fullname s then m else insert h (emplace fullname s) m
])

-- The full name taken out of the set of each prefix: the table, whether there was one, and the
-- prefixes whose sets became empty.
unfoldable pub drop_prefixes : ℕ → List ℕ → Map ℕ (List ℕ) → Map ℕ (List ℕ) × Bool × List ℕ
drop_prefixes fullname [] m = (m, false, [])
drop_prefixes fullname (h ∷ hs) m = elim (lookup h m) [
  | none ↦ drop_prefixes fullname hs m
  | some s ↦
      if contains fullname s
      then (let s' = SortedSet.erase fullname s in
          let (m', _, empty) = drop_prefixes fullname hs (insert h s' m) in
          (m', true, if is_empty s' then h ∷ empty else empty))
      else drop_prefixes fullname hs m
]

unfoldable pub erase_prefixes : List ℕ → Map ℕ (List ℕ) → Map ℕ (List ℕ)
erase_prefixes [] m = m
erase_prefixes (h ∷ hs) m = erase_prefixes hs (erase h m)

-- The source nodes of an announced name, added to a set.
unfoldable pub add_ids : {A : Type 0} → Map ℕ A → List ℕ → List ℕ
add_ids [] ids = ids
add_ids ((node_id, _) ∷ m) ids = add_ids m (emplace node_id ids)

unfoldable pub add_all_ids : {A : Type 0} → Map ℕ (Map ℕ A) → List ℕ → List ℕ → List ℕ
add_all_ids announces [] ids = ids
add_all_ids announces (f ∷ fs) ids =
    add_all_ids announces fs (add_ids (map_at (lookup f announces)) ids)

module _ {Namespace : Type 0} (q : Hashes Namespace) where
  -- The loop of `PrefixHashNamespaceTuples` from a hash on.
  unfoldable pub prefix_hashes : ℕ → List ℕ → List ℕ
  prefix_hashes hash [] = []
  prefix_hashes hash (e ∷ es) = q.hash_combine hash e ∷ prefix_hashes (q.hash_combine hash e) es

  unfoldable pub prefix_hash_namespace_tuples : Namespace → List ℕ
  prefix_hash_namespace_tuples name_space = prefix_hashes 0 (q.get_hashes name_space)

  -- `emplace` does not replace an announce that is there.
  unfoldable pub add_announce :
      InfoBase Namespace → AnnounceInfo Namespace → InfoBase Namespace × Bool
  add_announce ib a =
      let m = map_at (lookup a.fullname_hash ib.announces) in
      elim (lookup a.source_node_id m) [
        | some _ ↦ (record ib { announces = insert a.fullname_hash m ib.announces }, false)
        | none ↦ (
          record ib {
            announces = insert a.fullname_hash (insert a.source_node_id a m) ib.announces;
            prefix_lookup_announces =
                add_prefixes a.fullname_hash (prefix_hash_namespace_tuples a.name_space)
                  ib.prefix_lookup_announces;
          },
          true,
        )
      ]

  unfoldable pub remove_announce :
      InfoBase Namespace → AnnounceInfo Namespace → InfoBase Namespace × Bool
  remove_announce ib a = elim (lookup a.fullname_hash ib.announces) [
    | none ↦ (ib, false)
    | some m ↦
        let (prefixes, removed, empty) =
          drop_prefixes a.fullname_hash (prefix_hash_namespace_tuples a.name_space)
            ib.prefix_lookup_announces in
        (
          record ib {
            announces = put_or_erase a.fullname_hash (erase a.source_node_id m) ib.announces;
            prefix_lookup_announces = erase_prefixes empty prefixes;
          },
          removed,
        )
  ]

  unfoldable pub get_announce_ids :
      InfoBase Namespace → Namespace → List ℕ → Bool → Outcome (List ℕ)
  get_announce_ids ib name_space name exact =
      let ids = add_ids (map_at (lookup (q.track_fullname_hash name_space name) ib.announces)) [] in
      if not (is_empty ids) || exact then done ids else (do
        hash ← deref (back (prefix_hash_namespace_tuples name_space))
        done (elim (lookup hash ib.prefix_lookup_announces) [
          | none ↦ ids
          | some fs ↦ add_all_ids ib.announces fs ids
        ]))
