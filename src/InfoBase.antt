-- ===== src/InfoBase.antt =====
-- src/peering/info_base.h and info_base.cc: the tables of nodes, subscribes and announces. Each
-- operation holds the lock of the object from its first line to its last, but `HasSubscribers` and
-- `SelectBestNode`, so an operation is one step.
pub mod State
pub mod Nested
pub mod Select
pub mod Nodes
pub mod Subscribes
pub mod Announces
mod Tests
mod TableTests
