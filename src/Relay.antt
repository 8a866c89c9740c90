-- ===== src/Relay.antt =====
-- The gas relay, src/relay/relay.service.ts.
pub mod Wiring
pub mod Gas
pub mod Reverts
pub mod Submit
pub mod Gauge
pub mod Settlement
mod Tests
