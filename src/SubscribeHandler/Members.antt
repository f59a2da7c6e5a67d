-- ===== src/SubscribeHandler/Members.antt =====
-- Who is a subscriber after the calls of src/subscribe_handler.cc.
use laps.Prelude.{
  ℕ, ◌≡◌, refl, List, ◌∷◌, none, some, ◌&&◌, ◌==◌, if◌then◌else◌, inl, inr, Bool-cases,
  Option-cases, ==_iff,
}
use laps.Prelude.Outcome.{done}
use laps.Prelude.SortedMap.{lookup, erase, nat_key, lookup-erase}
use laps.SubscribeHandler.{
  SubscribeHandler, Call, pause, has_none, unbind, drop_subscriber, pause_if_alone,
  remove_subscriber, unbind_publisher_track,
}

dropped-lookup :
    (conn : ℕ) (h : SubscribeHandler)
    → (h' : SubscribeHandler) × (drop_subscriber conn h ≡ (done tt, h'))
      × ((c : ℕ) → lookup c h'.subscribers ≡ (if conn == c then none else lookup c h.subscribers))
unfolding drop_subscriber unbind
dropped-lookup conn h = elim (Option-cases (lookup conn h.subscribers)) [
  | inl absent ↦ (
    h,
    rw (drop_subscriber, absent) refl,
    λ c. elim (Bool-cases (conn == c)) [
      | inl same ↦ let at_c = (==_iff conn c).0 same in rw same cc
      | inr other ↦ rw other refl
    ],
  )
  | inr (none, there) ↦ (
    record h { subscribers = erase conn h.subscribers },
    rw (drop_subscriber, there) refl,
    λ c. lookup-erase conn c h.subscribers,
  )
  | inr (some object, there) ↦ (
    record h {
      subscribers = erase conn h.subscribers;
      log = unbind_publisher_track conn h.connection_id (some object) ∷ h.log;
    },
    rw (drop_subscriber, there) refl,
    λ c. lookup-erase conn c h.subscribers,
  )
]

-- RemoveSubscriber returns. The connection is no subscriber afterwards, and all others are as
-- before. The track is paused, as the last call, exactly where neither a subscriber nor a
-- namespace is left.
pub remove_subscriber-lookup :
    (conn : ℕ) (h : SubscribeHandler)
    → (h' : SubscribeHandler) × (before : List Call) × (remove_subscriber conn h ≡ (done tt, h'))
      × ((c : ℕ) → lookup c h'.subscribers ≡ (if conn == c then none else lookup c h.subscribers))
      × (h'.log ≡ (
          if has_none h'.subscribers && has_none h'.sub_namespaces then pause ∷ before else before))
unfolding remove_subscriber pause_if_alone
remove_subscriber-lookup conn h =
    let (h1, run, left) = dropped-lookup conn h in
    elim (Bool-cases (has_none h1.subscribers && has_none h1.sub_namespaces)) [
      | inl alone ↦ (
        record h1 { log = pause ∷ h1.log },
        h1.log,
        rw (remove_subscriber, run, alone) refl,
        left,
        rw alone refl,
      )
      | inr others ↦ (h1, h1.log, rw (remove_subscriber, run, others) refl, left, rw others refl)
    ]
