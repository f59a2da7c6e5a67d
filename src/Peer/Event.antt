-- ===== src/Peer/Event.antt =====
-- What the peering code calls outside of itself, in the order of the calls, the newest first: the
-- transport library, and the client manager of src/client_manager.cc.
use laps.Prelude.{ℕ, Bool, List, Option}
use laps.Messages.SubscribeInfo.{TrackHash}

pub data Event (Namespace : Type 0) : Type 0 where
  -- `MakeClientTransport` and `Start`, which returns the connection.
  start_client : Event Namespace
  -- Connection, priority, and whether it is bidirectional. It returns the data context.
  create_data_context : ℕ → ℕ → Bool → Event Namespace
  delete_data_context : ℕ → ℕ → Event Namespace
  -- Connection, data context and priority. It returns the stream.
  create_stream : ℕ → ℕ → ℕ → Event Namespace
  -- Connection, data context, stream, and whether it is a reset.
  close_stream : ℕ → ℕ → ℕ → Bool → Event Namespace
  -- Connection, data context, stream, data, priority, time to live, and `use_reliable`, which
  -- control messages leave at the default.
  enqueue : ℕ → ℕ → ℕ → List ℕ → ℕ → ℕ → Option Bool → Event Namespace
  -- Track, the namespace and the name it was parsed with, and the new group request.
  process_subscribe : TrackHash → Namespace → List ℕ → Option ℕ → Event Namespace
  -- Whether the track has a new group request at all.
  process_subscribe_again : TrackHash → Namespace → List ℕ → Bool → Event Namespace
  peer_unsubscribe_track : ℕ → Event Namespace
  remove_or_pause_publisher_subscribe : ℕ → Event Namespace
  -- Namespace and request.
  publish_namespace_received : Namespace → ℕ → Event Namespace
  publish_namespace_done_received : ℕ → Event Namespace
  -- Namespace, name and track alias.
  publish_received : Namespace → List ℕ → ℕ → Event Namespace
  publish_done_received : Event Namespace
  -- Track, whether a stream is new, the stream, and the data.
  peer_data_received : ℕ → Bool → Option ℕ → List ℕ → Event Namespace
  -- Track, stream, and whether it is a reset.
  peer_stream_closed : ℕ → ℕ → Bool → Event Namespace

-- What the transport answers to the newest of the calls, given all of them.
abbrev pub Answers : Type 0 → Type 0
Answers Namespace = List (Event Namespace) → ℕ

-- `quicr::TransportStatus`.
pub data TransportStatus : Type 0 where
  ready connecting remote_request_close disconnected idle_timeout : TransportStatus
  shutdown shutting_down : TransportStatus
