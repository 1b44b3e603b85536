-- ===== src/Gossip.antt =====
-- The package gossip.
pub mod VotesIndex
pub mod Store
pub mod VerWatcher
pub mod Llr
pub mod BlockProc
