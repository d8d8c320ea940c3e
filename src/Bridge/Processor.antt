-- ===== src/Bridge/Processor.antt =====
-- `process_instruction` of bridge/program/src/processor.rs: the instruction is decoded, validated and
-- handed to its handler.
pub mod Dispatch
pub mod Admission
pub mod Paid
pub mod Built
pub mod Accepted
use solana_bridge_program.Common.{List, Bytes}
use solana_bridge_program.Runtime.{
  Pubkey, AccountInfo, M, lift, from_option, borsh_io_error, ◌>>=◌, ◌>>◌,
}
use solana_bridge_program.Shared.Instructions.Bridge.{
  BridgeInstruction, initialize_admin, transfer_ownership, deposit_native, deposit_ft, deposit_nft,
  withdraw_native, withdraw_ft, withdraw_nft, mint_collection, validate_deposit_native,
  validate_deposit_ft, validate_deposit_nft, validate_withdraw, validate_mint_collection,
}
use solana_bridge_program.Env.{Env}
use solana_bridge_program.Bridge.Admin.{process_init_admin, process_transfer_ownership}
use solana_bridge_program.Bridge.Deposit.{
  process_deposit_native, process_deposit_ft, process_deposit_nft,
}
use solana_bridge_program.Bridge.Withdraw.{
  process_withdraw_native, process_withdraw_ft, process_withdraw_nft,
}
use solana_bridge_program.Bridge.Mint.{process_create_collection}

module _ (env : Env) (program_id : Pubkey) (accounts : List AccountInfo) where
  -- The cases of the `match`.
  unfoldable pub dispatch : BridgeInstruction → M (Unit {0})
  dispatch (initialize_admin args) =
      process_init_admin env program_id accounts args.seeds args.public_key args.commission_program
  dispatch (transfer_ownership args) =
      process_transfer_ownership env program_id accounts args.seeds args.new_public_key
        args.signature args.recovery_id
  dispatch (deposit_native args) = do
    lift (validate_deposit_native args)
    process_deposit_native env program_id accounts args.seeds args.network_to args.receiver_address
        args.amount
  dispatch (deposit_ft args) = do
    lift (validate_deposit_ft args)
    process_deposit_ft env program_id accounts args.seeds args.network_to args.receiver_address
        args.amount args.token_seed
  dispatch (deposit_nft args) = do
    lift (validate_deposit_nft args)
    process_deposit_nft env program_id accounts args.seeds args.network_to args.receiver_address
        args.token_seed
  dispatch (withdraw_native args) = do
    lift (validate_withdraw args)
    process_withdraw_native env program_id accounts args.seeds args.signature args.recovery_id
        args.path args.origin args.amount
  dispatch (withdraw_ft args) = do
    lift (validate_withdraw args)
    process_withdraw_ft env program_id accounts args.seeds args.signature args.recovery_id args.path
        args.origin args.amount args.token_seed args.signed_meta
  dispatch (withdraw_nft args) = do
    lift (validate_withdraw args)
    process_withdraw_nft env program_id accounts args.seeds args.signature args.recovery_id
        args.path args.origin args.token_seed args.signed_meta
  dispatch (mint_collection args) = do
    lift (validate_mint_collection env.limits args)
    process_create_collection env program_id accounts args.seeds args.meta args.token_seed

  unfoldable pub process_instruction : Bytes → M (Unit {0})
  process_instruction input = do
    instruction ← from_option (env.bridge_instruction.try_from_slice input) borsh_io_error
    dispatch instruction
