-- ===== src/Peer/ClientData.antt =====
-- What the client manager sends through src/peering/peer_manager.cc, and the end of streams:
-- `ClientDataRecv`, `EndSubgroup`, `CloseStream` and `HasSubscribers`.
use laps.Prelude.{ℕ, Bool, true, false, List, [], ◌∷◌, ◌++◌, none, some, ◌==◌, if◌then◌else◌}
use laps.Prelude.Outcome.{done}
use laps.Prelude.Action.{Action, pure, ◌>>=◌, ◌>>◌, gets, outcome, when, each}
use laps.Prelude.SortedMap.{Map, lookup, erase, nat_key, pair_key}
use laps.Messages.DataHeader
use laps.Messages.DataHeader.{
  DataHeader, DataType, default_header, datagram, existing_stream, new_stream,
}
use laps.InfoBase.State.{FibEntry}
use laps.InfoBase.Nested.{map_at}
use laps.Peer.Event.{peer_stream_closed}
use laps.Peer.Session.{send_data, end_stream}
use laps.Peer.Forward.{
  replace_sns_id, in_stream_id, client_rows, has_out_stream, through, is_alive, put_peer_entry,
  put_client_entry, stream_for,
}
use laps.Peer.World.{Transport, World, call_client}

-- An object of a client, or a part of it.
pub record ClientData : Type 0 where
  pub track_full_name_hash : ℕ
  pub priority : ℕ
  pub ttl : ℕ
  pub type : DataType
  pub group_id : ℕ
  pub subgroup_id : ℕ
  pub bytes : List ℕ

-- Whether the node set id is written into the header.
unfoldable pub set_sns_id : DataType → Bool
set_sns_id datagram = true
set_sns_id new_stream = true
set_sns_id _ = false

unfoldable pub begins_stream : DataType → Bool
begins_stream new_stream = true
begins_stream _ = false

-- `eflags.use_reliable`, which other types leave at the default.
unfoldable pub use_reliable : Bool → DataType → Bool
use_reliable default datagram = false
use_reliable default existing_stream = true
use_reliable default new_stream = true
use_reliable default _ = default

unfoldable pub net_data : ClientData → List ℕ
net_data d =
    DataHeader.serialize (record default_header {
      type = d.type;
      priority = d.priority;
      ttl = d.ttl;
      track_full_name_hash = d.track_full_name_hash;
    })
    ++ d.bytes

module _ {Namespace : Type 0} where
  -- The manager's function of that name: whether any peer is there for the track.
  unfoldable pub has_peers : World Namespace → ℕ → Bool
  has_peers w hash = elim (client_rows hash w.info_base) [ [] ↦ false | _ ∷ _ ↦ true ]

  unfoldable pub end_row : ℕ → Bool → (ℕ × ℕ) × FibEntry → Action (World Namespace) (Unit {0})
  end_row stream_id is_reset (key, entry) w =
      when (is_alive w entry)
        (elim (lookup stream_id entry.streams) [
          | none ↦ pure tt
          | some out ↦ (do
            through entry.peer_session (end_stream entry.out_sns_id out is_reset)
            put_client_entry key (record entry { streams = erase stream_id entry.streams }))
        ])
        w

  unfoldable pub end_subgroup : ℕ → ℕ → ℕ → Bool → Action (World Namespace) (Unit {0})
  end_subgroup hash group_id subgroup_id is_reset w =
      each (end_row (in_stream_id group_id subgroup_id) is_reset) (client_rows hash w.info_base) w

  unfoldable pub close_peer_entry :
      ℕ × ℕ → ℕ → ℕ → Bool → ℕ × FibEntry → Action (World Namespace) (Unit {0})
  close_peer_entry key stream_id hash is_reset (out, entry) w =
      if out == 0
      then call_client (peer_stream_closed hash stream_id is_reset) w
      else elim (lookup stream_id entry.streams) [
        | none ↦ (done tt, w)
        | some out_stream_id ↦
            when (is_alive w entry)
              (do
                through entry.peer_session (end_stream entry.out_sns_id out_stream_id is_reset)
                put_peer_entry key out (record entry { streams = erase stream_id entry.streams }))
              w
      ]

  -- The stream is looked for among the egress streams, and its number is then erased as the number
  -- of an ingress stream.
  unfoldable pub close_client_entry :
      ℕ → ℕ → Bool → (ℕ × ℕ) × FibEntry → Action (World Namespace) (Unit {0})
  close_client_entry peer_session_id stream_id is_reset (key, entry) w =
      when (key.1 == peer_session_id)
        (when (is_alive w entry) (
          when (has_out_stream stream_id entry.streams) (do
            put_client_entry key (record entry { streams = erase stream_id entry.streams })
            call_client (peer_stream_closed key.0 stream_id is_reset))))
        w

  unfoldable pub close_stream_of : ℕ → ℕ → ℕ → ℕ → Bool → Action (World Namespace) (Unit {0})
  close_stream_of peer_session_id sns_id stream_id hash is_reset = do
    let key : ℕ × ℕ = (peer_session_id, sns_id)
    rows ← gets (λ w. map_at (lookup key w.info_base.peer_fib))
    each (close_peer_entry key stream_id hash is_reset) rows
    client ← gets (λ w. w.info_base.client_fib)
    each (close_client_entry peer_session_id stream_id is_reset) client

module _ {Namespace : Type 0} (q : Transport Namespace) where
  unfoldable pub send_row :
      ClientData → (ℕ × ℕ) × FibEntry → ℕ → List ℕ → Action (World Namespace) (Unit {0})
  send_row d (key, entry) out_stream_id data_out = through entry.peer_session (
      send_data d.priority d.ttl entry.out_sns_id out_stream_id
        (use_reliable q.default_reliable d.type) data_out)

  -- The rest of the loop is not run where data of an unknown stream meets a peer: the code returns.
  unfoldable pub send_rows : ClientData → Map (ℕ × ℕ) FibEntry → Action (World Namespace) (Unit {0})
  send_rows d [] w = (done tt, w)
  send_rows d ((key, entry) ∷ m) w =
      let rest : Action (World Namespace) (Unit {0}) = send_rows d m in
      if is_alive w entry
      then (do
        data_out ← outcome (
            if set_sns_id d.type
            then replace_sns_id entry.out_sns_id (net_data d)
            else done (net_data d))
        if use_reliable q.default_reliable d.type
            then (do
              found ←
                  stream_for q entry (in_stream_id d.group_id d.subgroup_id) (begins_stream d.type)
                    d.priority
              elim found [
                | none ↦ pure tt
                | some sent ↦ (do
                  put_client_entry key sent.1
                  send_row d (key, sent.1) sent.0 data_out
                  rest)
              ])
            else (do send_row d (key, entry) 0 data_out; rest))
          w
      else rest w

  unfoldable pub client_data_recv : ClientData → Action (World Namespace) (Unit {0})
  client_data_recv d w = send_rows d (client_rows d.track_full_name_hash w.info_base) w
