-- ===== src/Upgrade/State.antt =====
-- upgrade/program/src/state.rs
use solana_bridge_program.Common.{ℕ, ◌+◌, Bool, Bytes}
use solana_bridge_program.Runtime.{Pubkey}
use solana_bridge_program.Bridge.State.{secp256k1_public_key_length}

abbrev pub max_admin_size : ℕ
max_admin_size = secp256k1_public_key_length + 32 + 8 + 1

pub record UpgradeAdmin : Type 0 where
  pub public_key : Bytes
  pub contract : Pubkey
  pub nonce : ℕ
  pub is_initialized : Bool
