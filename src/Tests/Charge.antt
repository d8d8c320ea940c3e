-- ===== src/Tests/Charge.antt =====
-- The theorems on the charge of commission, at a concrete charge and the deposit after it.
use solana_bridge_program.Common.{
  ◌≡◌, refl, false, true, subst, arith, none, some, List, [], ◌∷◌, ◌++◌, Bytes, replicate, bytes_eq,
}
use solana_bridge_program.Runtime.{
  AccountInfo, Bank, Instruction, Result, ok, next_account_info, write_data,
}
use solana_bridge_program.Env.{Env}
use solana_bridge_program.Shared.Client.Accounts.{handles, writable, readonly}
use solana_bridge_program.Shared.Types.{
  TokenType, CommissionToken as CommissionTokenKind, commission_admin_pda_seed, commission_token_eq,
}
use solana_bridge_program.Shared.Instructions.Bridge.{
  BridgeInstruction, deposit_native, validate_deposit_native,
}
use solana_bridge_program.Bridge.State.{BridgeAdmin}
use solana_bridge_program.Bridge.Access.{open_bridge_admin, check_seeds, read_bridge_admin}
use solana_bridge_program.Bridge.Charge.{charges, verify_commission_charged}
use solana_bridge_program.Bridge.Deposit.{process_deposit_native}
use solana_bridge_program.Bridge.Processor.{dispatch, process_instruction}
use solana_bridge_program.Bridge.Admin.{process_transfer_ownership}
use solana_bridge_program.Shared.Ecdsa.{verify_ecdsa_signature}
use solana_bridge_program.Bridge.Processor.Paid.{PreviousRan, CommissionPaid, deposits_paid}
use solana_bridge_program.Commission.Tokens.{check_token_is_acceptable}
use solana_bridge_program.Commission.Access.{
  read_commission_admin, check_admin_key, open_commission_admin,
}
use solana_bridge_program.Commission.Payments.{charge_token, call_transfer_native}
use solana_bridge_program.Commission.Handlers.{process_charge_commission}
use solana_bridge_program.Commission.Handlers.Charge.{ChargeTaken, charge_commission_sound}
use solana_bridge_program.Commission.Processor as Commission
use solana_bridge_program.Runtime.Laws.{RecordLaws}
use solana_bridge_program.Runtime.History.{here, own, others}
use solana_bridge_program.Bridge.Replay.Held.{Held}
use solana_bridge_program.Bridge.Replay.Program.{
  ReadsKeys, commission_program_fixed, later_deposits_paid,
}
use solana_bridge_program.Tests.Accounts.{bridge_admin_codec-IsLawful}
use solana_bridge_program.Tests.Laws.{test_laws}
use solana_bridge_program.Tests.Platform.{test_env, no_codec}
use solana_bridge_program.Tests.Scene.{
  program, seeds, commission_program, commission_info, bridge_info, owner_info, other_info,
  sysvar_info, test_bridge_admin, accounts, after,
}

abbrev charge_infos : List AccountInfo
charge_infos = commission_info ∷ bridge_info ∷ owner_info ∷ other_info ∷ other_info ∷ []

abbrev charge_run : Result (Unit {0} × Bank)
charge_run =
    process_charge_commission test_env commission_program charge_infos CommissionTokenKind.native
      (accounts 0 7)

charge_runs : charge_run ≡ ok (tt, after (accounts 0 7) charge_run)
unfolding process_charge_commission open_commission_admin check_admin_key read_commission_admin
    commission_admin_pda_seed bytes_eq next_account_info check_token_is_acceptable
    commission_token_eq charge_token call_transfer_native
charge_runs = refl

charge_commission_sound_example :
    ChargeTaken test_env commission_program commission_info bridge_info owner_info other_info
      other_info [] CommissionTokenKind.native
      (accounts 0 7)
      (after (accounts 0 7) charge_run)
charge_commission_sound_example =
    charge_commission_sound test_env commission_program commission_info bridge_info owner_info
      other_info other_info [] CommissionTokenKind.native (accounts 0 7)
      (after (accounts 0 7) charge_run) charge_runs

-- The charge of a deposit of 7, which stands before the deposit in its transaction.
abbrev charge_instruction : Instruction
charge_instruction = record {
  program_id = commission_program;
  accounts =
      writable commission_info.key false
      ∷ readonly bridge_info.key false
      ∷ writable owner_info.key true
      ∷ readonly other_info.key false
      ∷ readonly other_info.key false
      ∷ [];
  data_bytes = 0 ∷ 7 ∷ [];
}

abbrev charged_env : Env
charged_env = record test_env {
  solana = record test_env.solana {
    load_instruction_at_checked = λ index info b. ok charge_instruction;
  };
}

abbrev before_run : Result (Unit {0} × Bank)
before_run =
    Commission.process_instruction charged_env commission_program
      (handles charge_instruction.accounts) charge_instruction.data_bytes (accounts 0 7)

before_runs : before_run ≡ ok (tt, after (accounts 0 7) before_run)
unfolding Commission.process_instruction Commission.dispatch process_charge_commission
    open_commission_admin check_admin_key read_commission_admin commission_admin_pda_seed bytes_eq
    next_account_info check_token_is_acceptable commission_token_eq charge_token
    call_transfer_native
before_runs = refl

previous_ran : PreviousRan charged_env commission_program (accounts 0 7)
unfolding Commission.process_instruction bytes_eq Commission.dispatch process_charge_commission
    open_commission_admin commission_admin_pda_seed check_admin_key read_commission_admin
    check_token_is_acceptable commission_token_eq charge_token call_transfer_native
    next_account_info
previous_ran sysvar previous ix current loaded same =
    let is : charge_instruction ≡ ix = ground arith in
    (
      accounts 0 7,
      after (accounts 0 7) before_run,
      subst
          (λ (i : Instruction).
            Commission.process_instruction charged_env commission_program (handles i.accounts)
              i.data_bytes (accounts 0 7)
            ≡ ok (tt, after (accounts 0 7) before_run))
          is before_runs,
      λ k other. refl,
    )

abbrev deposit : BridgeInstruction
deposit = deposit_native (record {
  amount = 7;
  network_to = [];
  receiver_address = [];
  seeds = seeds;
  bundle_data = none;
  bundle_seed = none;
})

abbrev deposit_run : Result (Unit {0} × Bank)
deposit_run =
    dispatch charged_env program
      (bridge_info ∷ owner_info ∷ other_info ∷ other_info ∷ sysvar_info ∷ []) deposit (accounts 0 7)

deposit_runs : deposit_run ≡ ok (tt, after (accounts 0 7) deposit_run)
unfolding dispatch validate_deposit_native process_deposit_native open_bridge_admin check_seeds
    read_bridge_admin verify_commission_charged charges bytes_eq next_account_info
    commission_admin_pda_seed
deposit_runs = refl

bridge_stored :
    charged_env.bridge_admin.deserialize (accounts 0 7 bridge_info.key).data_bytes
    ≡ some test_bridge_admin
unfolding bytes_eq
bridge_stored = refl

deposits_paid_example :
    CommissionPaid charged_env bridge_info test_bridge_admin TokenType.native 7 (accounts 0 7)
deposits_paid_example =
    deposits_paid charged_env program bridge_info
      (owner_info ∷ other_info ∷ other_info ∷ sysvar_info ∷ []) deposit TokenType.native 7
      test_bridge_admin (accounts 0 7) (after (accounts 0 7) deposit_run) refl bridge_stored
      previous_ran deposit_runs

charged_laws : RecordLaws charged_env program
charged_laws =
    let laws = test_laws program in
    record {
      owned_kept = laws.owned_kept;
      create_fresh = laws.create_fresh;
      create_done = laws.create_done;
    }

charged-ReadsKeys : ReadsKeys charged_env
charged-ReadsKeys input args e = cc

bridge-Held : Held charged_env program bridge_info.key commission_program (accounts 0 7)
unfolding bytes_eq
bridge-Held = record {
  used = record { owner = refl; filled = omega arith };
  admin = test_bridge_admin;
  stored = refl;
  initialized = refl;
  same_program = refl;
}

-- The platform, with a codec that reads a signed transfer of ownership.
abbrev new_key : Bytes
new_key = replicate 64 8

abbrev transferring_env : Env
transferring_env = record charged_env {
  bridge_instruction = record no_codec {
    try_from_slice = λ input. some (
        BridgeInstruction.transfer_ownership (record {
          new_public_key = new_key;
          signature = charged_env.keccak new_key ++ charged_env.keccak new_key;
          recovery_id = 0;
          seeds = seeds;
        }));
  };
}

transferring_laws : RecordLaws transferring_env program
transferring_laws =
    let laws = test_laws program in
    record {
      owned_kept = laws.owned_kept;
      create_fresh = laws.create_fresh;
      create_done = laws.create_done;
    }

transferring-ReadsKeys : ReadsKeys transferring_env
transferring-ReadsKeys input args e =
    let key : new_key ≡ args.new_public_key = cc in rw (← key) refl

transferring-Held : Held transferring_env program bridge_info.key commission_program (accounts 0 7)
unfolding bytes_eq
transferring-Held = record {
  used = record { owner = refl; filled = omega arith };
  admin = test_bridge_admin;
  stored = refl;
  initialized = refl;
  same_program = refl;
}

abbrev transfer_run : Result (Unit {0} × Bank)
transfer_run = process_instruction transferring_env program (bridge_info ∷ []) [] (accounts 0 7)

transfer_runs : transfer_run ≡ ok (tt, after (accounts 0 7) transfer_run)
unfolding process_instruction dispatch process_transfer_ownership open_bridge_admin check_seeds
    read_bridge_admin verify_ecdsa_signature bytes_eq next_account_info write_data
transfer_runs = refl

-- The bridge runs a transfer of its ownership, and another program runs after it.
commission_program_fixed_example :
    Held transferring_env program bridge_info.key commission_program
      (after (accounts 0 7) transfer_run)
commission_program_fixed_example =
    commission_program_fixed transferring_env program transferring_laws bridge_admin_codec-IsLawful
      transferring-ReadsKeys bridge_info.key commission_program transferring-Held
      (others (own (bridge_info ∷ []) [] here transfer_runs) (λ k used. (refl, refl)))

later_deposits_paid_example :
    (admin : BridgeAdmin) × (admin.commission_program ≡ commission_program)
    × CommissionPaid charged_env bridge_info admin TokenType.native 7 (accounts 0 7)
later_deposits_paid_example =
    later_deposits_paid charged_env program charged_laws bridge_admin_codec-IsLawful
      charged-ReadsKeys commission_program bridge_info
      (owner_info ∷ other_info ∷ other_info ∷ sysvar_info ∷ []) deposit TokenType.native 7
      (accounts 0 7) (accounts 0 7) (after (accounts 0 7) deposit_run) bridge-Held
      (others here (λ k used. (refl, refl))) refl previous_ran deposit_runs
