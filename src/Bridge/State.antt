-- ===== src/Bridge/State.antt =====
-- bridge/program/src/state.rs
use solana_bridge_program.Common.{ℕ, ◌+◌, Bool, Option, Bytes}
use solana_bridge_program.Runtime.{Pubkey}
use solana_bridge_program.Shared.Types.{TokenType}
use solana_bridge_program.Shared.Instructions.Bridge.{max_networks_size, max_address_size}

abbrev pub secp256k1_public_key_length : ℕ
secp256k1_public_key_length = 64

abbrev pub bridge_admin_size : ℕ
bridge_admin_size = secp256k1_public_key_length + 32 + 1

-- The argument is `size_of::<TokenType>()`, which the compiler chooses.
abbrev pub withdraw_size : ℕ → ℕ
withdraw_size size_of_token_type =
    size_of_token_type + 32 + 8 + max_networks_size + max_address_size + 1

pub record BridgeAdmin : Type 0 where
  pub public_key : Bytes
  pub commission_program : Pubkey
  pub is_initialized : Bool

pub record Withdraw : Type 0 where
  pub token_type : TokenType
  pub mint : Option Pubkey
  pub amount : ℕ
  pub origin : Bytes
  pub receiver_address : Pubkey
  pub is_initialized : Bool
