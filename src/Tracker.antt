-- ===== src/Tracker.antt =====
-- tracker/tracker.c
pub mod Slots
pub mod Merge
pub mod Peers
pub mod State
pub mod Session
pub mod Server
pub mod Stop
pub mod History
