-- ===== src/Admin.antt =====
-- The operator's side: admin/.
pub mod Access
pub mod Drafts
pub mod Metadata
mod Tests
