-- ===== src/Tests/Nonces.antt =====
-- The nonces of a commission admin, through an instruction that the program runs.
use solana_bridge_program.Common.{◌≡◌, refl, some, [], ◌∷◌, bytes_eq, arith}
use solana_bridge_program.Runtime.{Bank, Result, ok, next_account_info, write_data, checked_add}
use solana_bridge_program.Runtime.Laws.{RecordLaws}
use solana_bridge_program.Env.{Env}
use solana_bridge_program.Shared.Types.{commission_admin_pda_seed}
use solana_bridge_program.Shared.Ecdsa.{verify_ecdsa_signature}
use solana_bridge_program.Shared.Merkle.{
  merkle_loop, merkle_step, get_merkle_root, amount_bytes, bytes_leb,
}
use solana_bridge_program.Shared.Instructions.Commission.{CommissionInstruction}
use solana_bridge_program.Bridge.Access.{read_bridge_admin}
use solana_bridge_program.Commission.State.{withdraw_token, operation_byte}
use solana_bridge_program.Commission.Content
use solana_bridge_program.Commission.Access.{
  read_commission_admin, check_admin_key, open_commission_admin, open_signer, verify_content,
}
use solana_bridge_program.Commission.Payments.{pay_token, call_transfer_native}
use solana_bridge_program.Commission.Processor.{dispatch, process_instruction}
use solana_bridge_program.Commission.Handlers.{process_withdraw}
use solana_bridge_program.Runtime.History.{here, own, others}
use solana_bridge_program.Commission.Replay.{nonces_never_fall}
use solana_bridge_program.Commission.Replay.Admin.{Held}
use solana_bridge_program.Commission.Replay.Kept.{ReadsTokens}
use solana_bridge_program.Tests.Platform.{no_codec}
use solana_bridge_program.Tests.Ledger.{ledger_codec-IsLawful, write_ledger_takes}
use solana_bridge_program.Tests.Laws.{test_laws}
use solana_bridge_program.Tests.Scene.{
  commission_program, commission_info, bridge_info, owner_info, other_info, after,
}
use solana_bridge_program.Tests.Fees.{
  ledger_env, ledger_accounts, first_admin, signature_of, path, sol_arg, ledger-IsUsed,
  ledger_bounded,
}

-- The platform, with a codec that reads the signed withdrawal.
abbrev paying_env : Env
paying_env = record ledger_env {
  commission_instruction = record no_codec {
    try_from_slice = λ input. some (
        CommissionInstruction.withdraw (record {
          signature = signature_of 0 withdraw_token (some owner_info.key) sol_arg;
          recovery_id = 0;
          path = path;
          token = sol_arg;
          withdraw_amount = 3;
        }));
  };
}

paying_laws : RecordLaws paying_env commission_program
paying_laws =
    let laws = test_laws commission_program in
    record {
      owned_kept = laws.owned_kept;
      create_fresh = laws.create_fresh;
      create_done = laws.create_done;
    }

paying-ReadsTokens : ReadsTokens paying_env
paying-ReadsTokens input (CommissionInstruction.initialize_admin args) e = tt
paying-ReadsTokens input (CommissionInstruction.charge_commission args) e = tt
paying-ReadsTokens input (CommissionInstruction.add_fee_token args) e = cc
paying-ReadsTokens input (CommissionInstruction.remove_fee_token args) e = tt
paying-ReadsTokens input (CommissionInstruction.update_fee_token args) e = cc
paying-ReadsTokens input (CommissionInstruction.withdraw args) e = tt

paying-Held : Held paying_env commission_program commission_info.key first_admin ledger_accounts
unfolding bytes_eq
paying-Held = record {
  used = ledger-IsUsed;
  bounded = ledger_bounded;
  admin = first_admin;
  stored = refl;
  initialized = refl;
  least = ground arith;
}

abbrev instruction_run : Result (Unit {0} × Bank)
instruction_run =
    process_instruction paying_env commission_program
      (commission_info ∷ bridge_info ∷ owner_info ∷ other_info ∷ other_info ∷ []) [] ledger_accounts

instruction_runs : instruction_run ≡ ok (tt, after ledger_accounts instruction_run)
unfolding process_instruction dispatch process_withdraw open_commission_admin check_admin_key
    read_commission_admin commission_admin_pda_seed open_signer read_bridge_admin verify_content
    get_merkle_root verify_ecdsa_signature bytes_eq next_account_info write_data checked_add
    merkle_loop merkle_step bytes_leb amount_bytes Content.hash Content.message Content.new
    operation_byte pay_token call_transfer_native
instruction_runs = refl

-- The program runs a withdrawal, and another program runs after it.
nonces_never_fall_example :
    Held paying_env commission_program commission_info.key first_admin
      (after ledger_accounts instruction_run)
nonces_never_fall_example =
    nonces_never_fall paying_env commission_program paying_laws ledger_codec-IsLawful
      write_ledger_takes paying-ReadsTokens commission_info.key first_admin paying-Held
      (others
        (own (commission_info ∷ bridge_info ∷ owner_info ∷ other_info ∷ other_info ∷ []) [] here
          instruction_runs)
        (λ k used. (refl, refl)))
