-- ===== src/Bridge.antt =====
-- The crate bridge/program.
pub mod State
pub mod Content
pub mod Access
pub mod Admin
pub mod Token
pub mod Charge
pub mod Deposit
pub mod Record
pub mod Mint
pub mod Withdraw
pub mod Processor
pub mod Entrypoint
pub mod Kept
pub mod Replay
