-- ===== src/Auth.antt =====
-- Wallet authentication, auth/.
pub mod Login
pub mod Siwe
pub mod Tokens
mod Tests
