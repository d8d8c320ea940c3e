-- ===== src/Bridge/Charge.antt =====
-- `verify_commission_charged` of bridge/program/src/processor.rs.
pub mod Charged
use solana_bridge_program.Common.{
  ℕ, zero, suc, Bool, true, false, ◌&&◌, ◌==◌, none, some, List, [], ◌∷◌, bytes_eq,
}
use solana_bridge_program.Runtime.{
  Pubkey, AccountInfo, AccountMeta, M, pure, fail, abort, lift, read, require, from_option,
  borsh_io_error, panicked, ◌>>=◌, ◌>>◌,
}
use solana_bridge_program.Shared.Error.{
  wrong_commission_program, wrong_commission_account, wrong_commission_arguments,
}
use solana_bridge_program.Shared.Types.{TokenType, token_type_eq, commission_admin_pda_seed}
use solana_bridge_program.Shared.Instructions.Commission.{CommissionInstruction, charge_commission}
use solana_bridge_program.Env.{Env}
use solana_bridge_program.Bridge.State.{BridgeAdmin}

-- `x - 1` on u16 under `overflow-checks = true`.
abbrev pub checked_pred : ℕ → M ℕ
checked_pred zero = abort panicked
checked_pred (suc n) = pure n

-- `accounts[0].pubkey`
abbrev pub first_key : List AccountMeta → M Pubkey
first_key [] = abort panicked
first_key (meta ∷ rest) = pure meta.pubkey

-- The instruction charges commission for a deposit of this token and amount.
unfoldable pub charges : CommissionInstruction → TokenType → ℕ → Bool
charges (charge_commission args) token amount =
    token_type_eq args.deposit_token token && args.deposit_token_amount == amount
charges _ token amount = false

unfoldable pub verify_commission_charged :
    Env → AccountInfo → AccountInfo → BridgeAdmin → TokenType → ℕ → M (Unit {0})
verify_commission_charged env bridge_admin_info sysvar_info admin token amount = do
  current_index ← read (env.load_current_index_checked sysvar_info)
  previous ← checked_pred current_index
  commission_instruction ← read (env.load_instruction_at_checked previous sysvar_info)
  require (bytes_eq commission_instruction.program_id admin.commission_program)
      wrong_commission_program
  commission_key ← lift (
      env.create_program_address (commission_admin_pda_seed ∷ bridge_admin_info.key ∷ [])
        commission_instruction.program_id)
  charged_key ← first_key commission_instruction.accounts
  require (bytes_eq commission_key charged_key) wrong_commission_account
  instruction ←
      from_option (env.commission_instruction.try_from_slice commission_instruction.data_bytes)
        borsh_io_error
  require (charges instruction token amount) wrong_commission_arguments
