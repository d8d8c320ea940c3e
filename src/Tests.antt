-- ===== src/Tests.antt =====
-- A concrete platform, and the theorems at concrete inputs.
pub mod Codecs
pub mod Ledger
pub mod Accounts
pub mod Platform
pub mod Laws
pub mod Scene
mod Merkle
mod Withdrawals
mod Deposits
mod Admin
mod Collection
mod Commission
mod Upgrade
pub mod Fees
pub mod Nonces
mod Setup
mod Client
mod Mint
mod Payout
mod Charge
