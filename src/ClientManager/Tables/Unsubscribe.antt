-- ===== src/ClientManager/Tables/Unsubscribe.antt =====
-- An unsubscribe takes the subscribe out of its three tables.
use laps.Prelude.{ℕ, ◌≡◌, refl, ap, ◌∙◌, some, All}
use laps.Prelude.Outcome.{done}
use laps.Prelude.Action.{each}
use laps.Prelude.Action.Ends.{Ends, each-Ends}
use laps.Prelude.SortedMap.{Key, Map, lookup, erase, nat_key}
use laps.Prelude.SortedMap.Pairs.{lex_key}
use laps.SubscribeHandler.{remove_subscriber}
use laps.SubscribeHandler.Members.{remove_subscriber-lookup}
use laps.ClientManager.{
  Relay, Environment, FullTrackName, SubscribePublishHandlerInfo, row_at, keep_row, rows_of,
  on_fan_out,
}
use laps.ClientManager.Unsubscribes.{forget_subscribe, unsubscribe_received}
use laps.ClientManager.Tables.{Lives, Follows, Follows-refl, Follows-trans, on_fan_out-Follows}
use laps.ClientManager.Tables.Rows.{rows_of-All}
use laps.ClientManager.Tables.Remove.{IsSound, Follows-IsSound, remove_or_pause-Keeps}

module _ {Namespace : Type 0} ⦃key : Key Namespace⦄ (around : Environment Namespace) where
  -- A subscriber leaves the handlers of the rows.
  leave_rows :
      (conn : ℕ) (rows : Map (ℕ × ℕ) ℕ) (w : Relay Namespace)
      → All (λ row. Lives w row.1) rows
      → Ends (Follows w) (each (λ row. on_fan_out row.1 (remove_subscriber conn)) rows) w
  leave_rows conn rows w live =
      each-Ends (λ row. Lives w row.1) (Follows w)
        (λ row. on_fan_out row.1 (remove_subscriber conn)) rows w
        (λ row w1 l f.
          let (u, w2, e, g) =
            on_fan_out-Follows row.1 (remove_subscriber conn) w1
              (λ h. ap (λ r. r.0) (remove_subscriber-lookup conn h).2) (f.lives row.1 l) in
          (u, w2, e, Follows-trans w w1 w2 f g))
        live (Follows-refl w)

  abbrev names_of : FullTrackName Namespace → Namespace × ℕ
  names_of name = (name.name_space, (around.track_hash name).track_name_hash)

  -- Without the subscribe, as `forget_subscribe` leaves it.
  abbrev forgotten :
      ℕ → ℕ → ℕ → SubscribePublishHandlerInfo Namespace → Relay Namespace → Relay Namespace
  forgotten conn request_id alias info w =
      let names : Namespace × ℕ = names_of info.track_full_name in
      let who : ℕ × ℕ = (conn, request_id) in
      let track : ℕ × ℕ = (alias, conn) in
      record w {
        subscribe_active =
            keep_row names (erase who (row_at (lookup names w.subscribe_active)))
              w.subscribe_active;
        subscribes = erase track w.subscribes;
      }

  abbrev without_request : ℕ → ℕ → Relay Namespace → Relay Namespace
  without_request conn request_id w =
      let who : ℕ × ℕ = (conn, request_id) in
      record w { subscribe_alias_req_id = erase who w.subscribe_alias_req_id }

  -- An unsubscribe of a request that is in the tables ends; it takes the request, its subscribe and
  -- its place among the active ones out of the tables, and nothing else.
  pub unsubscribe_received_lem :
      (conn request_id alias : ℕ) (info : SubscribePublishHandlerInfo Namespace)
      (w : Relay Namespace)
      → IsSound w
      → lookup (conn, request_id) w.subscribe_alias_req_id ≡ some alias
      → lookup (alias, conn) w.subscribes ≡ some info
      → let name = info.track_full_name in
        let names : Namespace × ℕ = (name.name_space, (around.track_hash name).track_name_hash) in
        (w' : Relay Namespace) × (unsubscribe_received around conn request_id w ≡ (done tt, w'))
        × (w'.subscribe_alias_req_id ≡ erase (conn, request_id) w.subscribe_alias_req_id)
        × (w'.subscribes ≡ erase (alias, conn) w.subscribes)
        × (w'.subscribe_active
            ≡ keep_row names
                (erase (conn, request_id) (row_at (lookup names w.subscribe_active)))
                w.subscribe_active)
        × IsSound w'
  unfolding unsubscribe_received forget_subscribe
  unsubscribe_received_lem conn request_id alias info w sound known found =
      let hash = (around.track_hash info.track_full_name).track_fullname_hash in
      let w0 : Relay Namespace = without_request conn request_id w in
      let sound0 : IsSound w0 = record { live = sound.live; sorted = sound.sorted } in
      let (u1, w1, e1, f) =
        leave_rows conn (rows_of hash w.pub_subscribes) w0
          (rows_of-All (λ row. Lives w0 row.1) hash w.pub_subscribes sound.live) in
      let sound1 = Follows-IsSound w0 w1 f sound0 in
      let w2 : Relay Namespace = forgotten conn request_id alias info w1 in
      let sound2 : IsSound w2 = record { live = sound1.live; sorted = sound1.sorted } in
      let (u3, w3, e3, k) = remove_or_pause-Keeps around hash w2 sound2 in
      (
        w3,
        rw (unsubscribe_received, known, found, e1, e3) refl,
        k.aliases ∙ f.aliases,
        k.subscribes ∙ ap (erase (alias, conn)) f.subscribes,
        k.active
            ∙ ap
                (λ m.
                  keep_row (names_of info.track_full_name)
                    (erase (conn, request_id) (row_at (lookup (names_of info.track_full_name) m)))
                    m)
                f.active,
        k.sound,
      )
