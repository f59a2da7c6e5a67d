-- ===== src/SubscribeHandler/OneWay.antt =====
-- The two ways in which src/subscribe_handler.cc passes data to a subscriber.
use laps.Prelude.{
  ℕ, ◌≡◌, ◌≤◌, ◌<◌, ◌⊎◌, ◌%◌, ◌^◌, refl, Bool, true, false, List, ◌∷◌, some, ◌==◌, leb, inl, inr,
  Bool-cases, arith,
}
use laps.Prelude.Outcome.{done}
use laps.SubscribeHandler.{
  SubscribeHandler, ObjectHeaders, Location, Call, publish_object, set_default_track_mode,
  forward_published_data,
}
use laps.SubscribeHandler.Fanout.{Around, publish_to, forward_to}

-- To a subscriber of a track with streams, where the first object of the subgroup was sent,
-- ObjectReceived makes no call and ForwardReceivedData forwards the data. Where it was not sent,
-- ForwardReceivedData makes no call, and ObjectReceived sets the mode of the handler and publishes
-- the object just where neither its group nor its number is below the start of the subscriber.
-- Nothing else changes. Group and subgroup are looked up in 32 bits.
pub one_way :
    (a : Around) (h : SubscribeHandler) (o : ObjectHeaders) (conn object alias : ℕ)
    (is_new_stream : Bool) (payload bytes : List ℕ)
    → (conn == 0) ≡ false
    → h.is_datagram ≡ false
    → let start : Location = a.start_location object in
      let with_mode : List Call = set_default_track_mode object false ∷ h.log in
      let publish = publish_to a o payload (conn, some object) h in
      let forward =
        forward_to a alias is_new_stream o.group_id o.subgroup_id bytes (conn, some object) h in
      let sent = a.sent_first_object h.log object (o.group_id % 2 ^ 32) (o.subgroup_id % 2 ^ 32) in
      ((sent ≡ true)
        × (publish ≡ (done tt, h))
        × (forward ≡ (
          done tt,
          record h {
            log =
                forward_published_data object is_new_stream o.group_id o.subgroup_id bytes ∷ h.log;
          },
        )))
      ⊎ ((sent ≡ false)
          × (forward ≡ (done tt, h))
          × (((start.group ≤ o.group_id)
                × (start.object ≤ o.object_id)
                × (publish
                    ≡ (done tt, record h { log = publish_object object o payload ∷ with_mode })))
              ⊎ (((o.group_id < start.group) ⊎ (o.object_id < start.object))
                  × (publish ≡ (done tt, record h { log = with_mode })))))
unfolding publish_to forward_to
one_way a h o conn object alias is_new_stream payload bytes client streams =
    let start : Location = a.start_location object in
    elim (Bool-cases
      (a.sent_first_object h.log object (o.group_id % 2 ^ 32) (o.subgroup_id % 2 ^ 32))) [
        | inl sent ↦
            inl (
              sent,
              rw (publish_to, client, streams, sent) refl,
              rw (forward_to, client, sent) refl,
            )
        | inr first ↦ inr (
          first,
          rw (forward_to, client, first) refl,
          elim (Bool-cases (leb start.group o.group_id)) [
            | inr early ↦
                inr (inl (ground arith), rw (publish_to, client, streams, first, early) refl)
            | inl group ↦ elim (Bool-cases (leb start.object o.object_id)) [
              | inl behind ↦ inl (
                ground arith,
                ground arith,
                rw (publish_to, client, streams, first, group, behind) refl,
              )
              | inr ahead ↦
                  inr
                    (inr (ground arith), rw (publish_to, client, streams, first, group, ahead) refl)
            ]
          ],
        )
      ]
