-- ===== src/Peer.antt =====
-- src/Peer/Peer.cpp and src/Peer/Peer.h: one connection to another node.
pub mod State
pub mod Sending
pub mod Reading
pub mod Lifecycle
pub mod Runs
