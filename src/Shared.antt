-- ===== src/Shared.antt =====
-- The crate lib/: what the three programs share.
pub mod Error
pub mod Types
pub mod Instructions
pub mod Merkle
pub mod Ecdsa
pub mod Calls
pub mod Client
pub mod Report
