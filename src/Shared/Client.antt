-- ===== src/Shared/Client.antt =====
-- The client's side of the instructions: the functions of lib/src/instructions that build them.
pub mod Accounts
pub mod Bridge
pub mod Commission
