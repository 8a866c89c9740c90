-- ===== src/Chain.antt =====
-- The chain side of the backend: src/chain/indexer.service.ts.
pub mod Order
pub mod Plan
pub mod Indexer
mod Tests
