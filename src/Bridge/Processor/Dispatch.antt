-- ===== src/Bridge/Processor/Dispatch.antt =====
-- What the validation of the instructions rejects.
use solana_bridge_program.Common.{ℕ, ◌<◌, ◌≡◌, ◌⊎◌, Option, none, some, List, Bytes, arith, length}
use solana_bridge_program.Runtime.{AccountInfo, Bank, Pubkey, err, into}
use solana_bridge_program.Shared.Error.{wrong_args_size}
use solana_bridge_program.Shared.Instructions.Bridge.{
  BridgeInstruction, deposit_native, deposit_ft, deposit_nft, withdraw_native, withdraw_ft,
  withdraw_nft, validate_deposit_native, validate_deposit_ft, validate_deposit_nft,
  validate_withdraw,
}
use solana_bridge_program.Env.{Env}
use solana_bridge_program.Bridge.Processor.{dispatch}

-- The amount that an instruction moves, where it has one.
abbrev pub moved_amount : BridgeInstruction → Option ℕ
moved_amount (deposit_native args) = some args.amount
moved_amount (deposit_ft args) = some args.amount
moved_amount (withdraw_native args) = some args.amount
moved_amount (withdraw_ft args) = some args.amount
moved_amount (withdraw_nft args) = some args.amount
moved_amount _ = none

-- The network and the receiver of a deposit.
abbrev pub destination : BridgeInstruction → Option (Bytes × Bytes)
destination (deposit_native args) = some (args.network_to, args.receiver_address)
destination (deposit_ft args) = some (args.network_to, args.receiver_address)
destination (deposit_nft args) = some (args.network_to, args.receiver_address)
destination _ = none

module _ (env : Env) (program_id : Pubkey) (infos : List AccountInfo) (b : Bank) where
  -- A deposit or a withdrawal of the amount 0 fails with `WrongArgsSize`, whatever the accounts.
  pub zero_amount_rejected :
      (i : BridgeInstruction)
      → moved_amount i ≡ some 0
      → dispatch env program_id infos i b ≡ err (into wrong_args_size)
  unfolding dispatch validate_deposit_native validate_deposit_ft validate_withdraw
  zero_amount_rejected (deposit_native args) e = ground arith
  zero_amount_rejected (deposit_ft args) e = ground arith
  zero_amount_rejected (withdraw_native args) e = ground arith
  zero_amount_rejected (withdraw_ft args) e = ground arith
  zero_amount_rejected (withdraw_nft args) e = ground arith
  zero_amount_rejected _ e = cc

  -- A deposit to a network name of more than 20 bytes or a receiver of more than 100 bytes fails
  -- with `WrongArgsSize`, whatever the accounts.
  pub long_destination_rejected :
      (i : BridgeInstruction) (network receiver : Bytes)
      → destination i ≡ some (network, receiver)
      → (20 < length network) ⊎ (100 < length receiver)
      → dispatch env program_id infos i b ≡ err (into wrong_args_size)
  unfolding dispatch validate_deposit_native validate_deposit_ft validate_deposit_nft
  long_destination_rejected (deposit_native args) network receiver e long = ground arith
  long_destination_rejected (deposit_ft args) network receiver e long = ground arith
  long_destination_rejected (deposit_nft args) network receiver e long = ground arith
  long_destination_rejected _ network receiver e long = cc
