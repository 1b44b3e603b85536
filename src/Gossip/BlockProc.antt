-- ===== src/Gossip/BlockProc.antt =====
-- The packages below gossip/blockproc: what the processing of a block does to the block state and
-- to the epoch state.
pub mod Sealer
pub mod Events
pub mod DriverTxs
