-- ===== src/Bridge/Processor/Built.antt =====
-- What the bridge makes of the instructions that the client's builders build.
use solana_bridge_program.Common.{ℕ, ◌≡◌, ◌≢◌, refl, sym, ◌∙◌, some, Option, List, Bytes}
use solana_bridge_program.Runtime.{
  Pubkey, AccountInfo, Instruction, Bank, M, ok, next_account_info, bind-ok, lift,
}
use solana_bridge_program.Env.{Env}
use solana_bridge_program.Shared.Client.Accounts.{handles}
use solana_bridge_program.Shared.Client.Bridge as Client
use solana_bridge_program.Shared.Instructions.Bridge.{
  BridgeInstruction, SignedMetadata, DepositNativeArgs, DepositFtArgs, DepositNftArgs, WithdrawArgs,
  validate_deposit_native, validate_deposit_ft, validate_deposit_nft, validate_withdraw,
}
use solana_bridge_program.Bridge.Deposit.{
  process_deposit_native, process_deposit_ft, process_deposit_nft,
}
use solana_bridge_program.Bridge.Withdraw.{process_withdraw_ft}
use solana_bridge_program.Bridge.Processor.{dispatch, process_instruction}

-- The codec reads the instruction back from its own bytes.
abbrev pub ReadsBack : Env → BridgeInstruction → Type 0
ReadsBack env i =
    env.bridge_instruction.try_from_slice (env.bridge_instruction.serialize i) ≡ some i

module _ (env : Env) (program_id : Pubkey) where
  -- The bridge runs a client instruction on the handles of its accounts.
  abbrev pub execute : Instruction → M (Unit {0})
  execute ix = process_instruction env program_id (handles ix.accounts) ix.data_bytes

  pub process_instruction-serialize :
      (infos : List AccountInfo) (i : BridgeInstruction) (b : Bank)
      → ReadsBack env i
      → process_instruction env program_id infos (env.bridge_instruction.serialize i) b
        ≡ dispatch env program_id infos i b
  unfolding process_instruction
  process_instruction-serialize infos i b e = rw e refl

  module _ (bridge_admin mint owner withdraw : Pubkey)
      (seeds network_to receiver_address origin : Bytes) (amount : ℕ)
      (token_seed bundle_data bundle_seed : Option Bytes) (signature : Bytes) (recovery_id : ℕ)
      (path : List Bytes) (signed_meta : Option SignedMetadata) where
    abbrev native_args : DepositNativeArgs
    native_args = record {
      amount = amount;
      network_to = network_to;
      receiver_address = receiver_address;
      seeds = seeds;
      bundle_data = bundle_data;
      bundle_seed = bundle_seed;
    }

    abbrev ft_args : DepositFtArgs
    ft_args = record {
      amount = amount;
      network_to = network_to;
      receiver_address = receiver_address;
      seeds = seeds;
      token_seed = token_seed;
      bundle_data = bundle_data;
      bundle_seed = bundle_seed;
    }

    abbrev nft_args : DepositNftArgs
    nft_args = record {
      network_to = network_to;
      receiver_address = receiver_address;
      seeds = seeds;
      token_seed = token_seed;
      bundle_data = bundle_data;
      bundle_seed = bundle_seed;
    }

    abbrev withdraw_args : WithdrawArgs
    withdraw_args = record {
      origin = origin;
      amount = amount;
      signature = signature;
      recovery_id = recovery_id;
      path = path;
      seeds = seeds;
      token_seed = token_seed;
      signed_meta = signed_meta;
    }

    abbrev built_native : Instruction
    built_native =
        Client.deposit_native env program_id bridge_admin owner seeds network_to amount
          receiver_address bundle_data bundle_seed

    abbrev built_ft : Instruction
    built_ft =
        Client.deposit_ft env program_id bridge_admin mint owner seeds network_to receiver_address
          amount token_seed bundle_data bundle_seed

    abbrev built_nft : Instruction
    built_nft =
        Client.deposit_nft env program_id bridge_admin mint owner seeds network_to receiver_address
          token_seed bundle_data bundle_seed

    abbrev built_withdraw_ft : Instruction
    built_withdraw_ft =
        Client.withdraw_ft env program_id bridge_admin mint owner withdraw seeds origin amount
          signature recovery_id path token_seed signed_meta

    built_native-ne-ok :
        (b b' : Bank)
        → ReadsBack env (BridgeInstruction.deposit_native native_args)
        → execute built_native b ≢ ok (tt, b')
    unfolding Client.deposit_native dispatch process_deposit_native next_account_info
    built_native-ne-ok b b' reads e =
        let run =
          sym (process_instruction-serialize (handles built_native.accounts) _ b reads) ∙ e in
        let (_, b1, _, f1) = bind-ok (lift (validate_deposit_native native_args)) _ {b = b} run in
        cc f1

    built_ft-ne-ok :
        (b b' : Bank)
        → ReadsBack env (BridgeInstruction.deposit_ft ft_args)
        → execute built_ft b ≢ ok (tt, b')
    unfolding Client.deposit_ft dispatch process_deposit_ft next_account_info
    built_ft-ne-ok b b' reads e =
        let run = sym (process_instruction-serialize (handles built_ft.accounts) _ b reads) ∙ e in
        let (_, b1, _, f1) = bind-ok (lift (validate_deposit_ft ft_args)) _ {b = b} run in cc f1

    built_nft-ne-ok :
        (b b' : Bank)
        → ReadsBack env (BridgeInstruction.deposit_nft nft_args)
        → execute built_nft b ≢ ok (tt, b')
    unfolding Client.deposit_nft dispatch process_deposit_nft next_account_info
    built_nft-ne-ok b b' reads e =
        let run = sym (process_instruction-serialize (handles built_nft.accounts) _ b reads) ∙ e in
        let (_, b1, _, f1) = bind-ok (lift (validate_deposit_nft nft_args)) _ {b = b} run in cc f1

    built_withdraw_ft-ne-ok :
        (b b' : Bank)
        → ReadsBack env (BridgeInstruction.withdraw_ft withdraw_args)
        → execute built_withdraw_ft b ≢ ok (tt, b')
    unfolding Client.withdraw_ft dispatch process_withdraw_ft next_account_info
    built_withdraw_ft-ne-ok b b' reads e =
        let run =
          sym (process_instruction-serialize (handles built_withdraw_ft.accounts) _ b reads) ∙ e in
        let (_, b1, _, f1) = bind-ok (lift (validate_withdraw withdraw_args)) _ {b = b} run in cc f1

    -- If the codec reads the instructions back, then the deposits of SOL, of fungible tokens and of
    -- NFTs and the withdrawals of fungible tokens that the client's builders build never succeed,
    -- whatever the arguments and the accounts' contents: the builders leave out accounts that the
    -- handlers read.
    pub built_instructions_fail :
        (b b' : Bank)
        → ReadsBack env (BridgeInstruction.deposit_native native_args)
        → ReadsBack env (BridgeInstruction.deposit_ft ft_args)
        → ReadsBack env (BridgeInstruction.deposit_nft nft_args)
        → ReadsBack env (BridgeInstruction.withdraw_ft withdraw_args)
        → (execute built_native b ≢ ok (tt, b'))
          × (execute built_ft b ≢ ok (tt, b'))
          × (execute built_nft b ≢ ok (tt, b'))
          × (execute built_withdraw_ft b ≢ ok (tt, b'))
    built_instructions_fail b b' native ft nft withdraw = (
      built_native-ne-ok b b' native,
      built_ft-ne-ok b b' ft,
      built_nft-ne-ok b b' nft,
      built_withdraw_ft-ne-ok b b' withdraw,
    )
