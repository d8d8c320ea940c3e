-- ===== src/Commission.antt =====
-- The crate commission/program.
pub mod State
pub mod Content
pub mod Tokens
pub mod Access
pub mod Payments
pub mod Handlers
pub mod Processor
pub mod Entrypoint
pub mod Replay
