-- ===== src/Peer/Tests.antt =====
-- A relay with two peers, and what it does on small inputs.
use laps.Prelude.{
  ℕ, length, ◌+◌, ◌*◌, ◌^◌, ◌%◌, ◌≡◌, ◌<◌, refl, Bool, true, false, not, List, [], ◌∷◌, ◌++◌,
  Option, none, some, ◌&&◌, ◌||◌, ◌==◌, if◌then◌else◌, is_some, arith, inl, inr, Bool-cases, ◌-◌,
}
use laps.Prelude.Outcome.{done}
use laps.Prelude.SortedMap.{lookup, erase, nat_key, pair_key}
use laps.Messages.UintVar.{UintVar}
use laps.Messages.NodeInfo
use laps.Messages.NodeInfo.{NodeInfo, via}
use laps.Messages.AnnounceInfo.{AnnounceInfo}
use laps.Messages.DataHeader.{DataHeader, default_header, new_stream, serialize, deserialize}
use laps.InfoBase.State.{FibEntry}
use laps.Peer.Event.{enqueue, start_client}
use laps.Peer.Session.{Session, StatusValue, connected, disconnected, no_node_info, new_session}
use laps.Peer.World.{Transport, World}
use laps.Peer.Nodes.{propagate_node_info}
use laps.Peer.Nodes.Flood.{propagate_node_info-offers}
use laps.Peer.Forward.{Arrival, forward_rows, forward_peer_data, replace_sns_id}
use laps.Peer.Forward.Skips.{forward_peer_data-erase}
use laps.Peer.Forward.Header.{forwarded_header}
use laps.Peer.Announces.{announce_info_received}
use laps.Peer.Announces.Once.{announce_once}
use laps.Peer.Lifecycle.{check_round}
use laps.Peer.Lifecycle.Entries.{AllHeld, lookup_cons}
use laps.Peer.Lifecycle.Renewal.{NumbersApart, IsFresh}
use laps.Peer.Lifecycle.Check.{check_round-AllHeld}
use laps.Peer.Receive.{receive_pieces}
use laps.Peer.Receive.Split.{split_header_lost}

abbrev one_byte : UintVar
one_byte = record {
  encode = λ v. (v % 64) ∷ [];
  size = λ b. 1;
  decode = λ bytes. elim bytes [ [] ↦ 0 | b ∷ _ ↦ b ];
}

-- A namespace is a list of bytes, each of which is an entry.
abbrev transport : Transport (List ℕ)
transport = record {
  uint_var = one_byte;
  namespaces = record {
    entries = λ n. n ∷ [];
    size = λ n. 1;
    of_entries = λ es. elim es [ [] ↦ [] | e ∷ _ ↦ e ];
  };
  hashes = record {
    get_hashes = λ n. n;
    hash_combine = λ hash x. hash * 10 + x;
    track_fullname_hash = λ n name. 5;
  };
  track_hash =
      λ n name. record { track_namespace_hash = 1; track_name_hash = 2; track_fullname_hash = 5 };
  has_same_prefix = λ a b. true;
  parse_subscribe = λ bytes. done (record {
    track_namespace = [];
    track_name = bytes;
    priority = done 1;
    new_group_request = none;
    has_request = false;
    without_request = bytes;
    with_request = λ request. request ∷ bytes;
  });
  answers = λ log. 7;
  default_reliable = true;
}

abbrev node : ℕ → NodeInfo
node id = record no_node_info { id = id }

-- A session with node `id` on a connection.
abbrev peer : StatusValue → ℕ → ℕ → Session
peer status conn_id id = record (new_session false conn_id (node 1)) {
  remote_node_info = node id;
  status = status;
}

abbrev fib_to : ℕ → FibEntry
fib_to object = record {
  update_ref = 1;
  streams = [];
  out_sns_id = 70;
  peer_session = some object;
  track_fullname_hash = 0;
}

-- Node 2 is connected, node 3 is not. The node set 8 of connection 5 goes to both.
abbrev relay : World (List ℕ)
relay = record {
  info_base = record {
    nodes = [];
    nodes_best = [];
    subscribes = [];
    client_fib = [];
    peer_fib = ((5, 8), (5, fib_to 20) ∷ (6, fib_to 21) ∷ []) ∷ [];
    announces = [];
    prefix_lookup_announces = [];
    nodes_by_peer_session = [];
  };
  objects = (20, peer connected 5 2) ∷ (21, peer disconnected 6 3) ∷ [];
  server_peer_sessions = (5, 20) ∷ [];
  client_peer_sessions = (6, 21) ∷ [];
  node_info = node 1;
  stop = false;
  has_client_manager = true;
  pub_subscribes = [];
  pub_namespace_active = [];
  log = [];
}

-- Node 4 is told to node 2, and not to node 3.
propagate_node_info-offers_example : propagate_node_info transport (node 4) false relay ≡ (
  done tt,
  record relay {
    log = enqueue 5 0 0 (NodeInfo.serialize one_byte true false (node 4)) 0 1000 none ∷ [];
  },
)
unfolding lookup laps.Prelude.SortedSet.contains new_session
propagate_node_info-offers_example =
    propagate_node_info-offers transport (node 4) false relay (refl, tt)
      ((peer disconnected 6 3, refl), tt) ((peer connected 5 2, refl), tt)

abbrev announce : AnnounceInfo (List ℕ)
announce = record {
  source_node_id = 9;
  name_space = 1 ∷ 2 ∷ [];
  name = [];
  fullname_hash = 5;
  flags = 1;
}

announce_once_example :
    let heard = (announce_info_received transport 5 announce false relay).1 in
    (announce_info_received transport 6 announce false heard).1.log ≡ heard.log
unfolding lookup laps.Peer.World.get_peer_session
announce_once_example = announce_once transport announce 5 6 20 relay refl

-- The connections are numbered from 101 on.
abbrev numbering : Transport (List ℕ)
numbering = record transport { answers = λ log. 100 + length log }

numbering-NumbersApart : NumbersApart numbering
numbering-NumbersApart a b fewer = ground (arith, fewer)

numbering-IsFresh : IsFresh numbering relay
unfolding lookup
numbering-IsFresh log long =
    lookup_cons (numbering.answers (start_client ∷ log)) 6 21 [] (ground arith) refl

check_round-AllHeld_example :
    (w' : World (List ℕ)) × (check_round numbering relay ≡ (done tt, w'))
    × AllHeld w' ((6, 21) ∷ [])
unfolding lookup new_session
check_round-AllHeld_example =
    check_round-AllHeld numbering relay numbering-NumbersApart numbering-IsFresh (refl, tt)
      (
        record {
          session = peer disconnected 6 3;
          there = refl;
          outbound = refl;
          numbered = refl;
          found = refl;
        },
        tt,
      )

abbrev stream : DataHeader
stream = record {
  header_len = 0;
  type = new_stream;
  sns_id = 8;
  track_full_name_hash = 77;
  priority = 3;
  ttl = 50;
}

abbrev arrival : Arrival
arrival = record {
  peer_session_id = 5;
  is_new_stream = true;
  stream_id = 4;
  header = stream;
  bytes = serialize stream ++ (1 ∷ 2 ∷ []);
  data_offset = 19;
  use_reliable = true;
}

-- Of the two egress sessions the first is the one that the data came from.
forward_peer_data-erase_example :
    forward_peer_data transport arrival relay
    ≡ forward_rows transport arrival (5, 8) ((6, fib_to 21) ∷ []) arrival.bytes relay
unfolding lookup erase
forward_peer_data-erase_example = forward_peer_data-erase transport arrival relay

forwarded_header_example :
    (out : List ℕ) × (replace_sns_id 70 (serialize stream ++ (1 ∷ 2 ∷ []))
      ≡ done (out ++ (1 ∷ 2 ∷ [])))
    × (deserialize default_header (out ++ (1 ∷ 2 ∷ []))
        ≡ done (true, record stream { header_len = 19; sns_id = 70 }))
forwarded_header_example =
    forwarded_header stream 70 (1 ∷ 2 ∷ []) refl
      (record {
        sns_id = omega arith;
        track_full_name_hash = omega arith;
        priority = omega arith;
        ttl = omega arith;
      })
      (omega arith)

split_header_lost_example :
    receive_pieces transport 5 4 none ((19 ∷ 2 ∷ []) ∷ (0 ∷ 0 ∷ 0 ∷ 8 ∷ []) ∷ []) relay
    ≡ (done (some default_header), relay)
unfolding lookup
split_header_lost_example =
    split_header_lost transport 5 4 19 (2 ∷ []) ((0 ∷ 0 ∷ 0 ∷ 8 ∷ []) ∷ []) relay (omega arith) refl
