-- ===== src/InfoBase/Subscribes/Table.antt =====
-- The table of subscribes as a partial map of track and source node.
use laps.Prelude.{
  ℕ, ◌≡◌, refl, Bool, false, not, Option, none, some, ◌&&◌, ◌==◌, if◌then◌else◌, inl, inr,
  Bool-cases, Option-cases, is_some,
}
use laps.Prelude.SortedMap.{lookup, nat_key}
use laps.Messages.SubscribeInfo.{SubscribeInfo}
use laps.InfoBase.State.{InfoBase}
use laps.InfoBase.Nested.{
  entry_at, entry_at-insert, entry_at-touch, entry_at-erase, entry_at-absent,
}
use laps.InfoBase.Subscribes.{put_subscribe, add_subscribe, remove_subscribe, get_subscribe}

-- The subscribe of a source node for a track.
abbrev pub find : {Namespace : Type 0} → InfoBase Namespace → ℕ → ℕ → Option SubscribeInfo
find ib hash node_id = entry_at ib.subscribes hash node_id

-- Whether the table has the subscribe with the same sequence number.
abbrev pub is_repeated : Option SubscribeInfo → SubscribeInfo → Bool
is_repeated none s = false
is_repeated (some old) s = old.seq == s.seq

-- `AddSubscribe`: it returns whether the source node has no subscribe for the track with the same
-- sequence number. Only then the subscribe is stored, and the rest of the table is as before.
pub add_subscribe-find :
    {Namespace : Type 0} (ib : InfoBase Namespace) (s : SubscribeInfo)
    → let hash = s.track_hash.track_fullname_hash in
      let fresh = not (is_repeated (find ib hash s.source_node_id) s) in
      ((add_subscribe ib s).1 ≡ fresh)
      × ((h n : ℕ)
          → find (add_subscribe ib s).0 h n
            ≡ (if fresh && (hash == h && s.source_node_id == n) then some s else find ib h n))
unfolding add_subscribe
add_subscribe-find ib s =
    elim (Option-cases (find ib s.track_hash.track_fullname_hash s.source_node_id)) [
      | inl absent ↦ (
        rw (add_subscribe, absent) refl,
        λ h n.
            rw (add_subscribe, absent)
              (unfold put_subscribe in
                entry_at-insert ib.subscribes s.track_hash.track_fullname_hash s.source_node_id h n
                  s),
      )
      | inr (old, present) ↦ elim (Bool-cases (old.seq == s.seq)) [
        | inl same ↦ (
          rw (add_subscribe, present, same) refl,
          λ h n.
              rw (add_subscribe, present, same)
                (entry_at-touch ib.subscribes s.track_hash.track_fullname_hash h n),
        )
        | inr other ↦ (
          rw (add_subscribe, present, other) refl,
          λ h n.
              rw (add_subscribe, present, other)
                (unfold put_subscribe in
                  entry_at-insert ib.subscribes s.track_hash.track_fullname_hash s.source_node_id h
                    n s),
        )
      ]
    ]

-- `RemoveSubscribe`: it returns whether the source node had a subscribe for the track. Afterwards
-- it has none, and the rest of the table is as before.
pub remove_subscribe-find :
    {Namespace : Type 0} (ib : InfoBase Namespace) (s : SubscribeInfo)
    → let hash = s.track_hash.track_fullname_hash in
      ((remove_subscribe ib s).1 ≡ is_some (find ib hash s.source_node_id))
      × ((h n : ℕ)
          → find (remove_subscribe ib s).0 h n
            ≡ (if hash == h && s.source_node_id == n then none else find ib h n))
unfolding remove_subscribe lookup
remove_subscribe-find ib s =
    elim (Option-cases (lookup s.track_hash.track_fullname_hash ib.subscribes)) [
      | inl absent ↦ (
        rw (remove_subscribe, absent) refl,
        λ h n.
            rw (remove_subscribe, absent)
              (entry_at-absent ib.subscribes s.track_hash.track_fullname_hash s.source_node_id h n
                (rw absent refl)),
      )
      | inr (m, present) ↦ elim (Option-cases (lookup s.source_node_id m)) [
        | inl absent ↦ (
          rw (remove_subscribe, present, absent) refl,
          λ h n.
              rw (remove_subscribe, present, absent)
                (entry_at-absent ib.subscribes s.track_hash.track_fullname_hash s.source_node_id h n
                  (rw present absent)),
        )
        | inr (old, there) ↦ (
          rw (remove_subscribe, present, there) refl,
          λ h n.
              rw (remove_subscribe, present, there)
                (entry_at-erase ib.subscribes s.track_hash.track_fullname_hash s.source_node_id h n
                  m present),
        )
      ]
    ]

-- `GetSubscribe`: it returns the subscribe of the source node for the track, and changes no entry.
pub get_subscribe-find :
    {Namespace : Type 0} (ib : InfoBase Namespace) (hash node_id : ℕ)
    → ((get_subscribe ib hash node_id).1 ≡ find ib hash node_id)
      × ((h n : ℕ) → find (get_subscribe ib hash node_id).0 h n ≡ find ib h n)
unfolding get_subscribe
get_subscribe-find ib hash node_id = (refl, λ h n. entry_at-touch ib.subscribes hash h n)
