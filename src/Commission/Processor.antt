-- ===== src/Commission/Processor.antt =====
-- `process_instruction` of commission/program/src/processor.rs.
use solana_bridge_program.Common.{List, Bytes}
use solana_bridge_program.Runtime.{Pubkey, AccountInfo, M, from_option, borsh_io_error, ◌>>=◌}
use solana_bridge_program.Shared.Instructions.Commission.{
  CommissionInstruction, initialize_admin, charge_commission, add_fee_token, remove_fee_token,
  update_fee_token, withdraw,
}
use solana_bridge_program.Env.{Env}
use solana_bridge_program.Commission.Handlers.{
  process_init_admin, process_charge_commission, process_add_token, process_remove_token,
  process_update_token, process_withdraw,
}

module _ (env : Env) (program_id : Pubkey) (accounts : List AccountInfo) where
  unfoldable pub dispatch : CommissionInstruction → M (Unit {0})
  dispatch (initialize_admin args) =
      process_init_admin env program_id accounts args.acceptable_tokens
  dispatch (charge_commission args) = process_charge_commission env program_id accounts args.token
  dispatch (add_fee_token args) =
      process_add_token env program_id accounts args.signature args.recovery_id args.path args.token
  dispatch (remove_fee_token args) =
      process_remove_token env program_id accounts args.signature args.recovery_id args.path
        args.token
  dispatch (update_fee_token args) =
      process_update_token env program_id accounts args.signature args.recovery_id args.path
        args.token
  dispatch (withdraw args) =
      process_withdraw env program_id accounts args.signature args.recovery_id args.path args.token
        args.withdraw_amount

  unfoldable pub process_instruction : Bytes → M (Unit {0})
  process_instruction input = do
    instruction ← from_option (env.commission_instruction.try_from_slice input) borsh_io_error
    dispatch instruction
