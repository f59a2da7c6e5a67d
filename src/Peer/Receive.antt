-- ===== src/Peer/Receive.antt =====
-- What arrives at a session: `ProcessControlMessage`, `ProcessReceivedData`, `OnRecvDgram` and
-- `OnStreamClosed` of src/peering/peer_session.cc.
use laps.Prelude.{
  ℕ, Bool, true, false, List, [], ◌∷◌, ◌++◌, length, Option, none, some, ltb, if◌then◌else◌,
}
use laps.Prelude.Outcome.{Outcome, done, thrown, fault, runtime_error}
use laps.Prelude.Outcome
use laps.Prelude.Action.{Action, pure, ◌>>=◌, ◌>>◌, outcome, each, try_catch}
use laps.Prelude.SortedMap.{lookup, nat_key}
use laps.Wire.{Reader}
use laps.Messages.Types.{
  MsgType, ProtocolError, connect, connect_response, node_info_advertise, node_info_withdrawn,
  subscribe_info_advertised, subscribe_info_withdrawn, announce_info_advertised,
  announce_info_withdrawn, subscribe_node_set_advertised, subscribe_node_set_withdrawn, msg_type_of,
  no_error,
}
use laps.Messages.NodeInfo.{NodeInfo, read_node_info}
use laps.Messages.Connect.{read_connect}
use laps.Messages.ConnectResponse.{ConnectResponse, read_connect_response}
use laps.Messages.SubscribeInfo.{read_subscribe_info}
use laps.Messages.AnnounceInfo.{read_announce_info}
use laps.Messages.SubscribeNodeSet.{read_sns}
use laps.Messages.DataHeader.{DataHeader, default_header, deserialize}
use laps.Peer.Session.{StatusValue, connected, update, send_connect_ok}
use laps.Peer.Frame.{Frame, waiting, overrun, message, next_frame}
use laps.Peer.World.{Transport, World, on_session, session_of}
use laps.Peer.Nodes.{node_received, info_base_sync_peer}
use laps.Peer.Forward.{Arrival, forward_peer_data}
use laps.Peer.ClientData.{close_stream_of}
use laps.Peer.Subscribes.{subscribe_info_received}
use laps.Peer.Announces.{announce_info_received}
use laps.Peer.Sns.{sns_received}
use laps.Peer.Lifecycle.{session_changed}
pub mod Split

-- The object that the constructor makes of the body of a message.
unfoldable pub parsed : {A : Type 0} → Reader A → List ℕ → Outcome A
parsed read bytes = Outcome.◌>>=◌ (read bytes) (λ r. done r.0)

module _ {Namespace : Type 0} (q : Transport Namespace) where
  unfoldable pub set_remote : ℕ → NodeInfo → Action (World Namespace) (Unit {0})
  set_remote object remote =
      on_session object (update (λ s. record s { remote_node_info = remote }))

  -- `status_ = kConnected`, and the manager is told.
  unfoldable pub now_connected : ℕ → Action (World Namespace) (Unit {0})
  now_connected object = do
    s ← session_of object
    session_changed q s.t_conn_id connected s.remote_node_info

  unfoldable pub set_connected : ℕ → Action (World Namespace) (Unit {0})
  set_connected object = on_session object (update (λ s. record s { status = connected }))

  unfoldable pub on_connect : ℕ → NodeInfo → Action (World Namespace) (Unit {0})
  on_connect object remote = do
    set_remote object remote
    set_connected object
    s ← session_of object
    node_received q s.t_conn_id remote false
    now_connected object
    on_session object (send_connect_ok q.uint_var)
    info_base_sync_peer q object

  -- A response with no error has a node info.
  unfoldable pub accepted : ℕ → Option NodeInfo → Action (World Namespace) (Unit {0})
  accepted object none = outcome fault
  accepted object (some remote) = do
    set_remote object remote
    s ← session_of object
    node_received q s.t_conn_id remote false
    info_base_sync_peer q object

  unfoldable pub on_connect_response : ℕ → ConnectResponse → Action (World Namespace) (Unit {0})
  on_connect_response object r = do
    elim r.error [ no_error ↦ accepted object r.node_info | _ ↦ pure tt ]
    set_connected object
    now_connected object
    info_base_sync_peer q object

  -- The `switch` over the types. `update_ref` is what `rand()` returns.
  unfoldable pub dispatch : ℕ → ℕ → ℕ → MsgType → List ℕ → Action (World Namespace) (Unit {0})
  dispatch update_ref object id type bytes = elim type [
    | connect ↦ (do
      c ← outcome (parsed (read_connect q.uint_var) bytes)
      on_connect object c.node_info)
    | connect_response ↦ (do
      r ← outcome (parsed (read_connect_response q.uint_var) bytes)
      on_connect_response object r)
    | subscribe_node_set_advertised ↦ (do
      sns ← outcome (parsed (read_sns false) bytes)
      sns_received q update_ref id sns false)
    | subscribe_node_set_withdrawn ↦ (do
      sns ← outcome (parsed (read_sns true) bytes)
      sns_received q update_ref id sns true)
    | node_info_advertise ↦ (do
      n ← outcome (parsed (read_node_info q.uint_var) bytes)
      node_received q id n false)
    | node_info_withdrawn ↦ (do
      n ← outcome (parsed (read_node_info q.uint_var) bytes)
      node_received q id n true)
    | subscribe_info_advertised ↦ (do
      si ← outcome (parsed read_subscribe_info bytes)
      subscribe_info_received q update_ref id si false)
    | subscribe_info_withdrawn ↦ (do
      si ← outcome (parsed read_subscribe_info bytes)
      subscribe_info_received q update_ref id si true)
    | announce_info_advertised ↦ (do
      a ← outcome (parsed (read_announce_info q.namespaces) bytes)
      announce_info_received q id a false)
    | announce_info_withdrawn ↦ (do
      a ← outcome (parsed (read_announce_info q.namespaces) bytes)
      announce_info_received q id a true)
    | _ ↦ pure tt
  ]

  unfoldable pub set_buffer : ℕ → List ℕ → Action (World Namespace) (Unit {0})
  set_buffer object bytes =
      on_session object (update (λ s. record s { control_msg_buffer = bytes }))

  -- An exception clears the buffer.
  unfoldable pub process_control_message : ℕ → ℕ → Action (World Namespace) (Unit {0})
  process_control_message update_ref object = do
    s ← session_of object
    elim (next_frame s.control_msg_buffer) [
      | waiting ↦ pure tt
      | overrun ↦ outcome fault
      | message type body rest ↦
          try_catch
            (do
              dispatch update_ref object s.t_conn_id (msg_type_of type) body
              set_buffer object rest)
            (set_buffer object [])
    ]

  -- The part of `OnRecvStream` for one piece of a bidirectional stream.
  unfoldable pub on_control_data : ℕ → ℕ → ℕ → List ℕ → Action (World Namespace) (Unit {0})
  on_control_data update_ref object data_ctx_id bytes = do
    on_session object (
        update (λ s. record s {
          control_data_ctx_id = data_ctx_id;
          control_msg_buffer = s.control_msg_buffer ++ bytes;
        }))
    process_control_message update_ref object

  -- The header that is read in place of the stream's object, which is made before the length is
  -- looked at: what is returned, and the object after it.
  unfoldable pub begin_stream : ℕ → ℕ → List ℕ → Action (World Namespace) (Bool × DataHeader)
  begin_stream id stream_id [] = outcome fault
  begin_stream id stream_id (hdr_len ∷ bytes) =
      if ltb (length (hdr_len ∷ bytes)) hdr_len then pure (false, default_header) else (do
        r ← outcome (deserialize default_header (hdr_len ∷ bytes))
        forward_peer_data q (record {
          peer_session_id = id;
          is_new_stream = true;
          stream_id = stream_id;
          header = r.1;
          bytes = hdr_len ∷ bytes;
          data_offset = hdr_len;
          use_reliable = true;
        })
        pure (true, r.1))

  -- A piece of a stream of one direction. The header is the object that the stream keeps.
  unfoldable pub process_received_data :
      ℕ → ℕ → Option DataHeader → List ℕ → Action (World Namespace) (Bool × DataHeader)
  process_received_data id stream_id none bytes = begin_stream id stream_id bytes
  process_received_data id stream_id (some header) bytes = do
    forward_peer_data q (record {
      peer_session_id = id;
      is_new_stream = false;
      stream_id = stream_id;
      header = header;
      bytes = bytes;
      data_offset = 0;
      use_reliable = true;
    })
    pure (true, header)

  -- All the pieces of a stream, in the order of their arrival, with the object that it keeps.
  unfoldable pub receive_pieces :
      ℕ → ℕ → Option DataHeader → List (List ℕ) → Action (World Namespace) (Option DataHeader)
  receive_pieces id stream_id header [] = pure header
  receive_pieces id stream_id header (piece ∷ pieces) = do
    r ← process_received_data id stream_id header piece
    receive_pieces id stream_id (some r.1) pieces

  -- One turn of the loop of `OnRecvDgram`.
  unfoldable pub on_dgram : ℕ → List ℕ → Action (World Namespace) (Unit {0})
  on_dgram id bytes = do
    r ← outcome (deserialize default_header bytes)
    forward_peer_data q (record {
      peer_session_id = id;
      is_new_stream = false;
      stream_id = 0;
      header = r.1;
      bytes = bytes;
      data_offset = r.1.header_len;
      use_reliable = false;
    })

-- The context of a stream that is gone is none. A context without a header is an exception.
unfoldable pub on_stream_closed :
    {Namespace : Type 0}
    → ℕ
    → ℕ
    → Option (Option DataHeader)
    → Bool
    → Action (World Namespace) (Unit {0})
on_stream_closed id stream_id none is_reset = pure tt
on_stream_closed id stream_id (some none) is_reset = outcome (thrown runtime_error)
on_stream_closed id stream_id (some (some header)) is_reset =
    close_stream_of id header.sns_id stream_id header.track_full_name_hash is_reset

-- The callbacks of the manager, which pass on what arrives for a session that it accepted.
unfoldable pub on_server :
    {Namespace : Type 0}
    → ℕ
    → (ℕ → Action (World Namespace) (Unit {0}))
    → Action (World Namespace) (Unit {0})
on_server conn_id f w = elim (lookup conn_id w.server_peer_sessions) [
  | none ↦ (done tt, w)
  | some object ↦ f object w
]

module _ {Namespace : Type 0} (q : Transport Namespace) (conn_id : ℕ) where
  unfoldable pub server_control_data : ℕ → ℕ → List ℕ → Action (World Namespace) (Unit {0})
  server_control_data update_ref data_ctx_id bytes =
      on_server conn_id (λ object. on_control_data q update_ref object data_ctx_id bytes)

  unfoldable pub server_dgram : List ℕ → Action (World Namespace) (Unit {0})
  server_dgram bytes =
      on_server conn_id (λ object. do s ← session_of object; on_dgram q s.t_conn_id bytes)

  unfoldable pub server_stream_closed :
      ℕ → Option (Option DataHeader) → Bool → Action (World Namespace) (Unit {0})
  server_stream_closed stream_id context is_reset =
      on_server conn_id (λ object. on_stream_closed conn_id stream_id context is_reset)
