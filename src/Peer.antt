-- ===== src/Peer.antt =====
-- The messages between peers: the directory messages/peer.
pub mod Transfer
pub mod Init
pub mod File
pub mod SearchResponse
