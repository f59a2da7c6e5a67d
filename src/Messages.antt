-- ===== src/Messages.antt =====
-- The peering messages, src/peering/messages and the common headers of src/peering/common.h.
pub mod NodeId
pub mod Types
pub mod UintVar
pub mod TrackNamespace
pub mod NodeInfo
pub mod Connect
pub mod ConnectResponse
pub mod SubscribeInfo
pub mod AnnounceInfo
pub mod SubscribeNodeSet
pub mod DataHeader
mod Tests
mod NodeIdTests
