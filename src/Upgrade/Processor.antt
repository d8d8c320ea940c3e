-- ===== src/Upgrade/Processor.antt =====
-- `process_instruction` of upgrade/program/src/processor.rs.
use solana_bridge_program.Common.{List, Bytes}
use solana_bridge_program.Runtime.{Pubkey, AccountInfo, M, from_option, borsh_io_error, ◌>>=◌}
use solana_bridge_program.Shared.Instructions.Upgrade.{
  UpgradeInstruction, initialize_admin, transfer_ownership, upgrade,
}
use solana_bridge_program.Env.{Env}
use solana_bridge_program.Upgrade.Handlers.{
  process_init_admin, process_transfer_ownership, process_upgrade,
}

module _ (env : Env) (program_id : Pubkey) (accounts : List AccountInfo) where
  unfoldable pub dispatch : UpgradeInstruction → M (Unit {0})
  dispatch (initialize_admin args) =
      process_init_admin env program_id accounts args.public_key args.contract
  dispatch (transfer_ownership args) =
      process_transfer_ownership env program_id accounts args.new_public_key args.signature
        args.recovery_id
  dispatch (upgrade args) =
      process_upgrade env program_id accounts args.signature args.recovery_id args.path

  unfoldable pub process_instruction : Bytes → M (Unit {0})
  process_instruction input = do
    instruction ← from_option (env.upgrade_instruction.try_from_slice input) borsh_io_error
    dispatch instruction
