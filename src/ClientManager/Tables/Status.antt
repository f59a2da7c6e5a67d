-- ===== src/ClientManager/Tables/Status.antt =====
-- The answer to a question for the status of a track.
use laps.Prelude.{
  ℕ, ◌≡◌, refl, Bool, false, not, ◌||◌, [], ◌∷◌, none, Bool-cases, inl, inr, ◌==◌, if◌then◌else◌,
  All,
}
use laps.Prelude.Outcome.{done}
use laps.Prelude.SortedMap.{Key, Map}
use laps.ClientManager.{
  Relay, Environment, FullTrackName, ok, does_not_exist, resolve_track_status, rows_of,
}
use laps.ClientManager.Subscribes.{get_largest_available}
use laps.ClientManager.Unsubscribes.{answer_status, track_status_received}
use laps.ClientManager.Tables.{Lives, object_at-known}
use laps.ClientManager.Tables.Rows.{rows_of-All}
use laps.ClientManager.Tables.Remove.{IsSound}

-- Whether a row is of another connection.
unfoldable pub some_other : ℕ → Map (ℕ × ℕ) ℕ → Bool
some_other conn [] = false
some_other conn ((at, object) ∷ rest) = not (at.1 == conn) || some_other conn rest

module _ {Namespace : Type 0} ⦃key : Key Namespace⦄ (around : Environment Namespace) where
  answer_status_lem :
      (conn request_id : ℕ) (name : FullTrackName Namespace) (rows : Map (ℕ × ℕ) ℕ)
      (w : Relay Namespace)
      → All (λ row. Lives w row.1) rows
      → (initiated : Bool) × (answer_status around conn request_id name rows w ≡ (
        done tt,
        record w {
          log =
              (if some_other conn rows
                then resolve_track_status conn request_id ok initiated
                    (get_largest_available around name)
                else resolve_track_status conn request_id does_not_exist false none)
              ∷ w.log;
        },
      ))
  unfolding answer_status some_other
  answer_status_lem conn request_id name [] w live = (false, refl)
  answer_status_lem conn request_id name ((at, object) ∷ rest) w live =
      elim (Bool-cases (at.1 == conn)) [
        | inl own ↦
            let (initiated, e) = answer_status_lem conn request_id name rest w live.1 in
            (initiated, rw own e)
        | inr other ↦
            let (h, e, known) = object_at-known object w live.0 in
            (h.is_publisher_initiated, rw (other, e) refl)
      ]

  -- A question for the status of a track is answered once and changes nothing else: with the
  -- largest object of the cache where some other connection publishes the track, and that it does
  -- not exist where none does.
  pub track_status_received_lem :
      (conn request_id : ℕ) (name : FullTrackName Namespace) (w : Relay Namespace)
      → IsSound w
      → let rows = rows_of (around.track_hash name).track_fullname_hash w.pub_subscribes in
        (initiated : Bool) × (track_status_received around conn request_id name w ≡ (
          done tt,
          record w {
            log =
                (if some_other conn rows
                  then resolve_track_status conn request_id ok initiated
                      (get_largest_available around name)
                  else resolve_track_status conn request_id does_not_exist false none)
                ∷ w.log;
          },
        ))
  unfolding track_status_received
  track_status_received_lem conn request_id name w sound =
      let hash = (around.track_hash name).track_fullname_hash in
      answer_status_lem conn request_id name (rows_of hash w.pub_subscribes) w
        (rows_of-All (λ row. Lives w row.1) hash w.pub_subscribes sound.live)
