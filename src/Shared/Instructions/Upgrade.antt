-- ===== src/Shared/Instructions/Upgrade.antt =====
-- lib/src/instructions/upgrade.rs: the instructions of the upgrade program.
use solana_bridge_program.Common.{ℕ, List, Bytes}
use solana_bridge_program.Runtime.{Pubkey}

pub record InitializeAdminArgs : Type 0 where
  pub public_key : Bytes
  pub contract : Pubkey

pub record TransferOwnershipArgs : Type 0 where
  pub new_public_key : Bytes
  pub signature : Bytes
  pub recovery_id : ℕ

pub record UpgradeArgs : Type 0 where
  pub signature : Bytes
  pub recovery_id : ℕ
  pub path : List Bytes

pub data UpgradeInstruction : Type 0 where
  initialize_admin : InitializeAdminArgs → UpgradeInstruction
  transfer_ownership : TransferOwnershipArgs → UpgradeInstruction
  upgrade : UpgradeArgs → UpgradeInstruction
