-- ===== src/Messages/Tests.antt =====
-- The messages on small inputs, with a concrete instance of each part of the transport library.
use laps.Prelude.{
  ℕ, ◌+◌, ◌-◌, ◌*◌, ◌/◌, ◌%◌, ◌^◌, ◌≡◌, ◌<◌, ◌≤◌, refl, ap, ◌∙◌, true, List, [], ◌∷◌, ◌++◌, some,
  length, arith, ltb, if◌then◌else◌,
}
use laps.Prelude.Outcome.{done, fault}
use laps.Wire.{bytes_of, net, value_of}
use laps.Wire.Reads.{value_of-net}
use laps.Messages.Types.{PeerMode, no_error}
use laps.Messages.UintVar.{UintVar, UintVarLaws}
use laps.Messages.TrackNamespace.{TrackNamespaces, TrackNamespacesLaws, total_length}
use laps.Messages.NodeInfo.{NodeType, NodeInfo, NodePathItem}
use laps.Messages.NodeInfo.RoundTrip.{IsNodeInfo}
use laps.Messages.Connect.{Connect}
use laps.Messages.ConnectResponse.{ConnectResponse}
use laps.Messages.ConnectResponse.RoundTrip.{Written, serialize-Written}
use laps.Messages.SubscribeInfo.{SubscribeInfo}
use laps.Messages.AnnounceInfo.{AnnounceInfo, append_announce_info, read_announce_info}
use laps.Messages.AnnounceInfo.RoundTrip.{read_announce_info-append}
use laps.Messages.SubscribeNodeSet.{SubscribeNodeSet}
use laps.Messages.DataHeader.{
  DataHeader, datagram, new_stream, default_header, deserialize, data_type_of, type_size,
}
use laps.Messages.DataHeader
use laps.Messages.DataHeader.RoundTrip.{IsDataHeader, deserialize-new_stream}
use laps.Messages.DataHeader.Bounds.{deserialize_overread}

-- Always the form of eight bytes, whose first byte has its two top bits set.
abbrev marked : ℕ → ℕ
marked v = v + 192 * 2 ^ 56

abbrev eight_bytes : UintVar
eight_bytes = record {
  encode = λ v. net 8 (marked v);
  size = λ b. if ltb b 64 then 1 else if ltb b 128 then 2 else if ltb b 192 then 4 else 8;
  decode = λ bytes. value_of bytes - 192 * 2 ^ 56;
}

long_form : (b : ℕ) → 192 ≤ b → eight_bytes.size b ≡ 8
long_form b h = ground arith

-- The byte in front.
abbrev first : ℕ → ℕ
first x = x / 256 / 256 / 256 / 256 / 256 / 256 / 256 % 256

first_large : (v : ℕ) → v < 2 ^ 62 → 192 ≤ first (marked v)
first_large v h = omega arith

eight_bytes-Laws : UintVarLaws eight_bytes
unfolding net bytes_of
eight_bytes-Laws = record {
  size_encode = λ v h. (first (marked v), _, refl, long_form (first (marked v)) (first_large v h));
  decode_encode =
      λ v h. ap (λ x. x - 192 * 2 ^ 56) (value_of-net 8 (marked v) (omega arith)) ∙ omega arith;
}

abbrev item : NodePathItem
item = record { id = 3; srtt_us = 1000 }

abbrev node : NodeInfo
node = record {
  id = 7;
  type = NodeType.edge;
  contact = 97 ∷ 98 ∷ [];
  longitude = 5;
  latitude = 6;
  path = item ∷ item ∷ [];
}

node-IsNodeInfo : IsNodeInfo node
node-IsNodeInfo = record {
  id = omega arith;
  type = tt;
  contact = omega arith;
  longitude = omega arith;
  latitude = omega arith;
  path = ((omega arith, omega arith), ((omega arith, omega arith), tt));
}

abbrev hello : Connect
hello = record { mode = PeerMode.data_plane; node_info = node }

abbrev accepted : ConnectResponse
accepted = record { error = no_error; node_info = some node }

serialize-Written_example : Written eight_bytes accepted
serialize-Written_example =
    serialize-Written eight_bytes accepted eight_bytes-Laws
      (record { error = tt; node_info = node-IsNodeInfo })

abbrev track : SubscribeInfo
track = record {
  seq = 0xFFFF;
  source_node_id = 9;
  track_hash = record { track_namespace_hash = 1; track_name_hash = 2; track_fullname_hash = 5 };
  subscribe_data = 4 ∷ 4 ∷ [];
}

-- A namespace is its entries.
abbrev entry_lists : TrackNamespaces (List (List ℕ))
entry_lists = record { entries = λ n. n; size = total_length; of_entries = λ n. n }

entry_lists-Laws : TrackNamespacesLaws entry_lists
entry_lists-Laws = record { of_entries-entries = λ n. refl; size-entries = λ n. refl }

abbrev announce : AnnounceInfo (List (List ℕ))
announce = record {
  source_node_id = 9;
  name_space = (1 ∷ 2 ∷ []) ∷ (3 ∷ []) ∷ [];
  name = 8 ∷ [];
  fullname_hash = 5;
  flags = 0;
}

read_announce_info-append_example :
    read_announce_info entry_lists (append_announce_info entry_lists [] announce)
    ≡ done (announce, [])
read_announce_info-append_example =
    read_announce_info-append entry_lists announce entry_lists-Laws (record {
      source_node_id = omega arith;
      fullname_hash = omega arith;
      entries = omega arith;
      entry = (omega arith, (omega arith, tt));
      name = omega arith;
    })

abbrev node_set : SubscribeNodeSet
node_set = record { id = 12; priority = 1; nodes = 3 ∷ 5 ∷ [] }

abbrev sent : DataHeader
sent = record {
  header_len = 0;
  type = datagram;
  sns_id = 12;
  track_full_name_hash = 5;
  priority = 3;
  ttl = 100;
}

sent-IsDataHeader : IsDataHeader sent
sent-IsDataHeader = record {
  sns_id = omega arith;
  track_full_name_hash = omega arith;
  priority = omega arith;
  ttl = omega arith;
}

abbrev stream : DataHeader
stream = record sent { type = new_stream }

deserialize-new_stream_example :
    (length (DataHeader.serialize stream) ≡ 19)
    × (deserialize default_header (DataHeader.serialize stream ++ (1 ∷ 2 ∷ []))
        ≡ done (true, record stream { header_len = 19 }))
deserialize-new_stream_example =
    deserialize-new_stream stream default_header (1 ∷ 2 ∷ []) refl (record {
      sns_id = omega arith;
      track_full_name_hash = omega arith;
      priority = omega arith;
      ttl = omega arith;
    })

deserialize_overread_example : deserialize default_header (3 ∷ 0 ∷ 1 ∷ []) ≡ fault
deserialize_overread_example =
    deserialize_overread default_header 3 0 (1 ∷ []) (omega arith)
      (unfold data_type_of type_size in omega arith)
