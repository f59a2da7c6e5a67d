-- ===== src/Peer.antt =====
-- src/peering/peer_session.h, peer_session.cc, peer_manager.h and peer_manager.cc: the sessions
-- with other relays, and what the relay does on their messages.
pub mod Event
pub mod Session
pub mod NodeSets
pub mod Frame
pub mod World
pub mod Nodes
pub mod Forward
pub mod ClientData
pub mod Subscribes
pub mod Announces
pub mod Sns
pub mod Lifecycle
pub mod Receive
mod Tests
mod SessionTests
