-- ===== src/Upgrade.antt =====
-- The crate upgrade/program.
pub mod State
pub mod Content
pub mod Handlers
pub mod Processor
pub mod Entrypoint
pub mod Replay
