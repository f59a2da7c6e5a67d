-- ===== src/Peer/Session.antt =====
-- The class `PeerSession` of src/peering/peer_session.h and peer_session.cc, less the handlers
-- that call the manager. The transport of a session is set before anything else is done with it.
use laps.Prelude.{ℕ, Bool, true, false, List, [], ◌∷◌, none, some, ◌==◌, if◌then◌else◌}
use laps.Prelude.Outcome.{done}
use laps.Prelude.Action.{Action, pure, ◌>>=◌, ◌>>◌, gets, outcome, when}
use laps.Prelude.SortedMap.{Map, nat_key, pair_key}
use laps.Messages.UintVar.{UintVar}
use laps.Messages.Types.{PeerMode, no_error}
use laps.Messages.TrackNamespace.{TrackNamespaces}
use laps.Messages.NodeInfo.{NodeInfo, via}
use laps.Messages.NodeInfo
use laps.Messages.SubscribeInfo.{SubscribeInfo}
use laps.Messages.SubscribeInfo
use laps.Messages.AnnounceInfo.{AnnounceInfo}
use laps.Messages.AnnounceInfo
use laps.Messages.SubscribeNodeSet.{SubscribeNodeSet, default_sns}
use laps.Messages.SubscribeNodeSet
use laps.Messages.Connect
use laps.Messages.ConnectResponse
use laps.Peer.Event.{
  Event, Answers, start_client, create_data_context, create_stream, close_stream, enqueue,
}

pub data StatusValue : Type 0 where
  connecting connected disconnected : StatusValue

pub record Session : Type 0 where
  pub node_info : NodeInfo
  pub remote_node_info : NodeInfo
  pub srtt_us : ℕ
  pub status : StatusValue
  pub is_inbound : Bool
  -- Key: full name hash.
  pub sub_sns : Map ℕ SubscribeNodeSet
  -- Key: ingress peer session and its node set.
  pub peer_sns : Map (ℕ × ℕ) SubscribeNodeSet
  pub t_conn_id : ℕ
  pub control_data_ctx_id : ℕ
  pub control_stream_id : ℕ
  pub control_msg_buffer : List ℕ

-- A session and the calls so far.
pub record Line (Namespace : Type 0) : Type 0 where
  pub session : Session
  pub log : List (Event Namespace)

abbrev pub is_connected : StatusValue → Bool
is_connected connected = true
is_connected _ = false

-- `NodeInfo{}`.
abbrev pub no_node_info : NodeInfo
no_node_info = record { id = 0; type = via; contact = []; longitude = 0; latitude = 0; path = [] }

-- What the constructor makes.
unfoldable pub new_session : Bool → ℕ → NodeInfo → Session
new_session is_inbound conn_id node_info = record {
  node_info = node_info;
  remote_node_info = no_node_info;
  srtt_us = 0;
  status = connecting;
  is_inbound = is_inbound;
  sub_sns = [];
  peer_sns = [];
  t_conn_id = conn_id;
  control_data_ctx_id = 0;
  control_stream_id = 0;
  control_msg_buffer = [];
}

module _ {Namespace : Type 0} where
  -- A call with no answer.
  abbrev pub tell : Event Namespace → Action (Line Namespace) (Unit {0})
  tell event line = (done tt, record line { log = event ∷ line.log })

  -- A call, and what is answered.
  abbrev pub ask : Answers Namespace → Event Namespace → Action (Line Namespace) ℕ
  ask answers event line =
      (done (answers (event ∷ line.log)), record line { log = event ∷ line.log })

  abbrev pub update : (Session → Session) → Action (Line Namespace) (Unit {0})
  update f line = (done tt, record line { session = f line.session })

  -- A control message: `Enqueue` on the control stream.
  unfoldable pub enqueue_control : List ℕ → Action (Line Namespace) (Unit {0})
  enqueue_control bytes line =
      tell
        (enqueue line.session.t_conn_id line.session.control_data_ctx_id
          line.session.control_stream_id bytes 0 1000 none)
        line

  -- The guard of the senders: a session that is not connected sends nothing.
  unfoldable pub send_control : List ℕ → Action (Line Namespace) (Unit {0})
  send_control bytes line = when (is_connected line.session.status) (enqueue_control bytes) line

  unfoldable pub send_sns : SubscribeNodeSet → Bool → Action (Line Namespace) (Unit {0})
  send_sns sns withdraw = send_control (SubscribeNodeSet.serialize true withdraw sns)

  unfoldable pub send_announce_info :
      TrackNamespaces Namespace → AnnounceInfo Namespace → Bool → Action (Line Namespace) (Unit {0})
  send_announce_info t announce_info withdraw =
      send_control (AnnounceInfo.serialize t true withdraw announce_info)

  unfoldable pub send_node_info : UintVar → NodeInfo → Bool → Action (Line Namespace) (Unit {0})
  send_node_info u node_info withdraw = send_control (NodeInfo.serialize u true withdraw node_info)

  -- The subscribe info is passed by reference: its sequence number goes up with every message of
  -- its origin.
  unfoldable pub send_subscribe_info : SubscribeInfo → Bool → Action (Line Namespace) SubscribeInfo
  send_subscribe_info subscribe_info withdraw line =
      let is_origin = line.session.node_info.id == subscribe_info.source_node_id in
      let (sent, bytes) = SubscribeInfo.serialize true withdraw is_origin subscribe_info in
      if is_connected line.session.status
      then (enqueue_control bytes >> pure sent) line
      else (done subscribe_info, line)

  unfoldable pub send_data : ℕ → ℕ → ℕ → ℕ → Bool → List ℕ → Action (Line Namespace) (Unit {0})
  send_data priority ttl sns_id stream_id use_reliable bytes line =
      when (is_connected line.session.status)
        (tell
          (enqueue line.session.t_conn_id sns_id stream_id bytes priority ttl (some use_reliable)))
        line

  unfoldable pub send_connect : UintVar → Action (Line Namespace) (Unit {0})
  send_connect u = do
    update (λ s. record s { peer_sns = [] })
    node_info ← gets (λ line. line.session.node_info)
    enqueue_control (Connect.serialize u (record { mode = PeerMode.both; node_info = node_info }))

  unfoldable pub send_connect_ok : UintVar → Action (Line Namespace) (Unit {0})
  send_connect_ok u = do
    node_info ← gets (λ line. line.session.node_info)
    bytes ←
        outcome
          (ConnectResponse.serialize u (record { error = no_error; node_info = some node_info }))
    enqueue_control bytes

  unfoldable pub open_stream : Answers Namespace → ℕ → ℕ → Action (Line Namespace) ℕ
  open_stream answers sns_id priority line =
      ask answers (create_stream line.session.t_conn_id sns_id priority) line

  unfoldable pub end_stream : ℕ → ℕ → Bool → Action (Line Namespace) (Unit {0})
  end_stream sns_id stream_id is_reset line =
      tell (close_stream line.session.t_conn_id sns_id stream_id is_reset) line

  -- `Connect`. The node sets of subscribes and the buffer stay.
  unfoldable pub open_connection : Answers Namespace → Action (Line Namespace) (Unit {0})
  open_connection answers = do
    update (λ s. record s { status = connecting; remote_node_info = no_node_info })
    is_inbound ← gets (λ line. line.session.is_inbound)
    if is_inbound then update (λ s. record s { status = connected }) else (do
      update (λ s. record s { peer_sns = [] })
      conn ← ask answers start_client
      ctx ← ask answers (create_data_context conn 0 true)
      stream ← ask answers (create_stream conn ctx 0)
      update (λ s. record s {
        t_conn_id = conn;
        control_data_ctx_id = ctx;
        control_stream_id = stream;
      }))

  -- `OnConnectionMetricsSampled`.
  unfoldable pub on_metrics_sampled : ℕ → Action (Line Namespace) (Unit {0})
  on_metrics_sampled srtt_us = update (λ s. record s { srtt_us = srtt_us })
