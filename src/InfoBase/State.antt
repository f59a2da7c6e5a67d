-- ===== src/InfoBase/State.antt =====
-- The tables of src/peering/info_base.h.
use laps.Prelude.{ℕ, List, Option}
use laps.Prelude.SortedMap.{Map}
use laps.Messages.NodeInfo.{NodeInfo}
use laps.Messages.SubscribeInfo.{SubscribeInfo}
use laps.Messages.AnnounceInfo.{AnnounceInfo}

-- A peer session object is known by a number. What the other objects of the process are is seen
-- through this function: `lock()` of a weak pointer, and `GetSessionId()` of the session if it is
-- still there.
abbrev pub Sessions : Type 0
Sessions = ℕ → Option ℕ

pub record NodeItem : Type 0 where
  pub peer_session : ℕ
  pub node_info : NodeInfo

pub record FibEntry : Type 0 where
  pub update_ref : ℕ
  pub streams : Map ℕ ℕ
  pub out_sns_id : ℕ
  pub peer_session : Option ℕ
  pub track_fullname_hash : ℕ

pub record InfoBase (Namespace : Type 0) : Type 0 where
  -- Key: node id and peer session id.
  pub nodes : Map (ℕ × ℕ) NodeItem
  -- Key: node id.
  pub nodes_best : Map ℕ ℕ
  -- Key: full name hash, then source node id.
  pub subscribes : Map ℕ (Map ℕ SubscribeInfo)
  -- Key: full name hash and egress peer session id.
  pub client_fib : Map (ℕ × ℕ) FibEntry
  -- Key: ingress peer session id and node set id, then egress peer session id.
  pub peer_fib : Map (ℕ × ℕ) (Map ℕ FibEntry)
  -- Key: full name hash, then source node id.
  pub announces : Map ℕ (Map ℕ (AnnounceInfo Namespace))
  -- Key: hash of a namespace prefix. Value: full name hashes.
  pub prefix_lookup_announces : Map ℕ (List ℕ)
  -- Key: peer session id. Value: node ids.
  pub nodes_by_peer_session : Map ℕ (List ℕ)
