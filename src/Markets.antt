-- ===== src/Markets.antt =====
-- What is read back of the markets: the public view (markets/), positions (positions/) and the
-- operator's queues (admin/).
pub mod View
pub mod Positions
pub mod Queue
mod Tests
