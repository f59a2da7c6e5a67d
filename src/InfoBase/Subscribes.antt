-- ===== src/InfoBase/Subscribes.antt =====
-- `HasSubscribers`, `AddSubscribe`, `RemoveSubscribe` and `GetSubscribe` of
-- src/peering/info_base.cc.
use laps.Prelude.{
  ℕ, Bool, true, false, not, List, [], ◌∷◌, Option, none, some, ◌||◌, ◌==◌, if◌then◌else◌,
}
use laps.Prelude.SortedMap.{Map, lookup, insert, erase, nat_key}
use laps.Messages.SubscribeInfo.{SubscribeInfo}
use laps.InfoBase.State.{InfoBase}
use laps.InfoBase.Nested.{map_at, put_or_erase}
pub mod Table

-- The loop over the subscribes of a track.
unfoldable pub any_other : ℕ → Map ℕ SubscribeInfo → Bool
any_other node_id [] = false
any_other node_id ((_, si) ∷ m) = not (si.source_node_id == node_id) || any_other node_id m

module _ {Namespace : Type 0} (ib : InfoBase Namespace) where
  unfoldable pub has_subscribers : SubscribeInfo → Bool
  has_subscribers s = elim (lookup s.track_hash.track_fullname_hash ib.subscribes) [
    | none ↦ false
    | some m ↦ any_other s.source_node_id m
  ]

  -- The subscribes of a track with the one of its source node replaced.
  unfoldable pub put_subscribe : SubscribeInfo → Map ℕ SubscribeInfo → InfoBase Namespace
  put_subscribe s m = record ib {
    subscribes =
        insert s.track_hash.track_fullname_hash (insert s.source_node_id s m) ib.subscribes;
  }

  -- The first lookup has made the map of the track, also where nothing else changes.
  unfoldable pub add_subscribe : SubscribeInfo → InfoBase Namespace × Bool
  add_subscribe s =
      let hash = s.track_hash.track_fullname_hash in
      let m = map_at (lookup hash ib.subscribes) in
      elim (lookup s.source_node_id m) [
        | none ↦ (put_subscribe s m, true)
        | some old ↦
            if old.seq == s.seq
            then (record ib { subscribes = insert hash m ib.subscribes }, false)
            else (put_subscribe s m, true)
      ]

  unfoldable pub remove_subscribe : SubscribeInfo → InfoBase Namespace × Bool
  remove_subscribe s =
      let hash = s.track_hash.track_fullname_hash in
      elim (lookup hash ib.subscribes) [
        | none ↦ (ib, false)
        | some m ↦ elim (lookup s.source_node_id m) [
          | none ↦ (ib, false)
          | some _ ↦ (
            record ib { subscribes = put_or_erase hash (erase s.source_node_id m) ib.subscribes },
            true,
          )
        ]
      ]

  -- The lookup by `operator[]` leaves an empty map under a hash that was not there.
  unfoldable pub get_subscribe : ℕ → ℕ → InfoBase Namespace × Option SubscribeInfo
  get_subscribe hash src_node_id =
      let m = map_at (lookup hash ib.subscribes) in
      (record ib { subscribes = insert hash m ib.subscribes }, lookup src_node_id m)
