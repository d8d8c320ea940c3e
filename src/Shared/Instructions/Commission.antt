-- ===== src/Shared/Instructions/Commission.antt =====
-- lib/src/instructions/commission.rs: the instructions of the commission program.
use solana_bridge_program.Common.{ℕ, ◌+◌, List, Bytes}
use solana_bridge_program.Shared.Types.{CommissionToken, CommissionArgs}

abbrev pub max_tokens_count : ℕ
max_tokens_count = 10

-- The argument is `size_of::<CommissionToken>()`, which the compiler chooses.
abbrev pub max_token_size : ℕ → ℕ
max_token_size size_of_commission_token = size_of_commission_token + 32

pub record CommissionTokenArg : Type 0 where
  pub token : CommissionToken
  pub amount : ℕ

pub record InitializeAdminArgs : Type 0 where
  pub acceptable_tokens : List CommissionTokenArg

pub record FeeTokenArgs : Type 0 where
  pub signature : Bytes
  pub recovery_id : ℕ
  pub path : List Bytes
  pub token : CommissionTokenArg

pub record WithdrawArgs : Type 0 where
  pub signature : Bytes
  pub recovery_id : ℕ
  pub path : List Bytes
  pub token : CommissionTokenArg
  pub withdraw_amount : ℕ

pub data CommissionInstruction : Type 0 where
  initialize_admin : InitializeAdminArgs → CommissionInstruction
  charge_commission : CommissionArgs → CommissionInstruction
  add_fee_token remove_fee_token update_fee_token : FeeTokenArgs → CommissionInstruction
  withdraw : WithdrawArgs → CommissionInstruction
