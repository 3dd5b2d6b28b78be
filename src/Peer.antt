-- ===== src/Peer.antt =====
-- The peer: peer/peer.c, peer/p2p.c and peer/monitor.c.
pub mod Sync
pub mod Pieces
pub mod Monitor
pub mod Transfer
pub mod Request
pub mod Folders
pub mod Main
pub mod Config
pub mod Threads
pub mod Stop
