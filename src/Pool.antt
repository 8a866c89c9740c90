-- ===== src/Pool.antt =====
-- The backend's side of the shielded pool, pool/.
pub mod Interleaved
pub mod State
pub mod Leaves
pub mod Trees
pub mod Indexer
pub mod Withdrawals
mod Tests
