-- ===== src/Events.antt =====
-- The event processor, src/chain/event-processor.service.ts.
pub mod Data
pub mod Rows
pub mod State
pub mod Trades
pub mod Shorts
pub mod Lifecycle
pub mod Resolution
pub mod Bans
pub mod Creation
pub mod Prices
pub mod Batch
mod Tests
