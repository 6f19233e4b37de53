-- ===== src/Peer.antt =====
-- peer/peer.{h,cc}: one member of a raft group. Each child is about a part of `class Peer`.
pub mod Proposals
pub mod State
pub mod Members
pub mod Create
pub mod Apply
pub mod Send
pub mod Ready
pub mod Propose
pub mod History
