-- ===== src/Commission/State.antt =====
-- commission/program/src/state.rs
use solana_bridge_program.Common.{ℕ, ◌+◌, ◌*◌, Bool, List}
use solana_bridge_program.Shared.Types.{CommissionToken as CommissionTokenKind}
use solana_bridge_program.Shared.Instructions.Commission.{
  CommissionTokenArg, max_tokens_count, max_token_size,
}

-- The argument is `size_of::<lib::CommissionToken>()`.
abbrev pub max_admin_size : ℕ → ℕ
max_admin_size size_of_commission_token =
    max_tokens_count * (max_token_size size_of_commission_token + 8) + 32 + 8

pub data OperationType : Type 0 where
  add_token remove_token update_token withdraw_token : OperationType

-- `Into<u8> for OperationType`
unfoldable pub operation_byte : OperationType → ℕ
operation_byte add_token = 0
operation_byte remove_token = 1
operation_byte update_token = 2
operation_byte withdraw_token = 3

pub record CommissionToken : Type 0 where
  pub token : CommissionTokenKind
  pub amount : ℕ

-- `CommissionToken::from`
abbrev pub from_arg : CommissionTokenArg → CommissionToken
from_arg value = record { token = value.token; amount = value.amount }

pub record CommissionAdmin : Type 0 where
  pub acceptable_tokens : List CommissionToken
  pub add_token_nonce : ℕ
  pub update_token_nonce : ℕ
  pub remove_token_nonce : ℕ
  pub withdraw_token_nonce : ℕ
  pub is_initialized : Bool
