-- ===== src/PublishHandler/Wrapped.antt =====
-- Groups whose numbers differ by a multiple of 2 ^ 32 are taken for each other.
use laps.Prelude.{
  ℕ, ◌+◌, ◌%◌, ◌^◌, ◌≡◌, refl, ap, ◌∙◌, if◌then◌else◌, Bool, true, List, ◌∷◌, Option, some, arith,
}
use laps.Prelude.Outcome.{done}
use laps.Prelude.SortedMap.{Map, lookup, insert, nat_key}
use laps.PublishHandler.{
  PublishTrackHandler, Handlers, publish_object, forward_published_data, with_mode, last_in,
  sent_first_object, StreamInfo, act_on, publish_namespace_object, forward_namespace_data,
}

sent_first_object-wrapped :
    (group subgroup : ℕ) (h : PublishTrackHandler)
    → sent_first_object (group + 2 ^ 32) subgroup h ≡ sent_first_object group subgroup h
unfolding sent_first_object
sent_first_object-wrapped group subgroup h =
    let same : (group + 2 ^ 32) % 2 ^ 32 ≡ group % 2 ^ 32 = omega arith in
    ap (λ g. last_in (lookup g h.stream_info_by_group) (subgroup % 2 ^ 32)) same

act_on-lookup :
    (handlers : Map ℕ ℕ) (objects : Handlers) (h : PublishTrackHandler) (hash object : ℕ)
    (f : PublishTrackHandler → PublishTrackHandler)
    → lookup hash handlers ≡ some object
    → lookup object objects ≡ some h
    → act_on handlers hash f objects ≡ (done tt, insert object (f h) objects)
unfolding act_on
act_on-lookup handlers objects h hash object f named there = rw (act_on, named, there) refl

-- Once the first object of a subgroup was sent to a subscriber of a namespace, no object is
-- published to it of the same subgroup in the group 2 ^ 32 later, and the data of that group is
-- forwarded at once, though no first object of it was sent.
pub publish_namespace_object-wrapped :
    (base_publish : ℕ → ℕ → List ℕ → StreamInfo → StreamInfo)
    (base_forward : Bool → ℕ → ℕ → List ℕ → StreamInfo → StreamInfo) (handlers : Map ℕ ℕ)
    (objects : Handlers) (h : PublishTrackHandler) (hash object group subgroup : ℕ)
    (mode : Option ℕ) (is_new_stream : Bool) (payload bytes : List ℕ)
    → lookup hash handlers ≡ some object
    → lookup object objects ≡ some h
    → sent_first_object group subgroup h ≡ true
    → (publish_namespace_object base_publish base_forward handlers hash
          (group + 2 ^ 32)
          subgroup
          mode
          payload
          objects
        ≡ (done tt, insert object h objects))
      × (forward_namespace_data base_publish base_forward handlers hash is_new_stream
            (group + 2 ^ 32)
            subgroup
            bytes
            objects
          ≡ (
            done tt,
            insert object
                (record h {
                  stream_info_by_group =
                      base_forward is_new_stream
                        (group + 2 ^ 32)
                        subgroup
                        bytes
                        h.stream_info_by_group;
                  log =
                      forward_published_data is_new_stream (group + 2 ^ 32) subgroup bytes ∷ h.log;
                })
                objects,
          ))
unfolding publish_namespace_object forward_namespace_data
publish_namespace_object-wrapped base_publish base_forward handlers objects h hash object group
      subgroup mode is_new_stream payload bytes named there sent =
    let wrapped : sent_first_object (group + 2 ^ 32) subgroup h ≡ true =
      sent_first_object-wrapped group subgroup h ∙ sent in
    (
      act_on-lookup handlers objects h hash object _ named there
          ∙ ap
              (λ t. (
                done tt,
                insert object
                    (if t then h else record h {
                      stream_info_by_group =
                          base_publish (group + 2 ^ 32) subgroup payload h.stream_info_by_group;
                      log = publish_object (group + 2 ^ 32) subgroup payload ∷ with_mode mode h.log;
                    })
                    objects,
              ))
              wrapped,
      act_on-lookup handlers objects h hash object _ named there
          ∙ ap
              (λ t. (
                done tt,
                insert object
                    (if t
                      then record h {
                        stream_info_by_group =
                            base_forward is_new_stream (group + 2 ^ 32) subgroup bytes
                              h.stream_info_by_group;
                        log =
                            forward_published_data is_new_stream (group + 2 ^ 32) subgroup bytes
                            ∷ h.log;
                      }
                      else h)
                    objects,
              ))
              wrapped,
    )
