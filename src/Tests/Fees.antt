-- ===== src/Tests/Fees.antt =====
-- The theorems on what a commission admin becomes, at a concrete one.
use solana_bridge_program.Common.{
  ℕ, ◌≤◌, ◌≡◌, ◌≢◌, refl, true, none, some, Option, List, [], ◌∷◌, ◌++◌, Bytes, replicate, bytes_eq,
  if◌then◌else◌, arith, length,
}
use solana_bridge_program.Runtime.{
  Bank, Pubkey, Result, ok, next_account_info, write_data, checked_add,
}
use solana_bridge_program.Runtime.Laws.{RecordLaws, IsUsed}
use solana_bridge_program.Env.{Env}
use solana_bridge_program.Shared.Types.{
  CommissionToken as CommissionTokenKind, commission_admin_pda_seed, commission_token_eq,
}
use solana_bridge_program.Shared.Ecdsa.{verify_ecdsa_signature}
use solana_bridge_program.Shared.Merkle.{
  merkle_loop, merkle_step, get_merkle_root, amount_bytes, bytes_leb,
}
use solana_bridge_program.Shared.Instructions.Commission.{CommissionTokenArg}
use solana_bridge_program.Bridge.Access.{read_bridge_admin}
use solana_bridge_program.Commission.State.{
  CommissionToken, CommissionAdmin, OperationType, add_token, withdraw_token, from_arg,
  operation_byte,
}
use solana_bridge_program.Commission.Content
use solana_bridge_program.Commission.Tokens.{check_token_is_acceptable}
use solana_bridge_program.Commission.Tokens.Fees.{fees, apply_operation}
use solana_bridge_program.Commission.Access.{
  read_commission_admin, check_admin_key, open_commission_admin, open_signer, verify_content,
}
use solana_bridge_program.Commission.Payments.{pay_token, call_transfer_native}
use solana_bridge_program.Commission.Handlers.{process_add_token, process_withdraw}
use solana_bridge_program.Commission.Handlers.Withdrawal.{Withdrawn, content}
use solana_bridge_program.Runtime.History.{here, others}
use solana_bridge_program.Commission.Replay.{withdrawal_not_replayed}
use solana_bridge_program.Commission.Replay.Admin.{Held, max_permitted_data_length}
use solana_bridge_program.Commission.Replay.Kept.{ReadsTokens}
use solana_bridge_program.Commission.Replay.Table.{Represents, signed_operations_refine}
use solana_bridge_program.Tests.Platform.{test_env, no_codec}
use solana_bridge_program.Tests.Ledger.{
  ledger_codec, ledger_codec-IsLawful, write_ledger, write_ledger_takes,
}
use solana_bridge_program.Tests.Laws.{test_laws}
use solana_bridge_program.Tests.Scene.{
  commission_program, commission_info, bridge_info, owner_info, other_info, accounts, after,
}

-- The platform, with a codec that keeps the tokens.
abbrev pub ledger_env : Env
ledger_env = record test_env { commission_admin = ledger_codec; commission_instruction = no_codec }

pub ledger_laws : RecordLaws ledger_env commission_program
ledger_laws =
    let laws = test_laws commission_program in
    record {
      owned_kept = laws.owned_kept;
      create_fresh = laws.create_fresh;
      create_done = laws.create_done;
    }

ledger-ReadsTokens : ReadsTokens ledger_env
ledger-ReadsTokens input i e = cc

abbrev sol : CommissionToken
sol = record { token = CommissionTokenKind.native; amount = 5 }

abbrev pub first_admin : CommissionAdmin
first_admin = record {
  acceptable_tokens = sol ∷ [];
  add_token_nonce = 0;
  update_token_nonce = 0;
  remove_token_nonce = 0;
  withdraw_token_nonce = 0;
  is_initialized = true;
}

-- The accounts, where the commission account has room for more tokens.
abbrev pub ledger_accounts : Bank
ledger_accounts k =
    if bytes_eq k commission_info.key
    then record {
      lamports = 50;
      data_bytes = write_ledger first_admin ++ replicate 40 0;
      owner = commission_program;
    }
    else accounts 0 0 k

abbrev pub path : List Bytes
path = replicate 32 77 ∷ []

abbrev pub signature_of : ℕ → OperationType → Option Pubkey → CommissionTokenArg → Bytes
signature_of nonce operation receiver token =
    let signed = Content.new nonce receiver commission_program operation (from_arg token) in
    let root = merkle_loop ledger_env (Content.hash ledger_env signed) path in root ++ root

abbrev pub sol_arg : CommissionTokenArg
sol_arg = record { token = CommissionTokenKind.native; amount = 5 }

abbrev withdrawal : ℕ → Bank → Result (Unit {0} × Bank)
withdrawal nonce =
    process_withdraw ledger_env commission_program
      (commission_info ∷ bridge_info ∷ owner_info ∷ other_info ∷ other_info ∷ [])
      (signature_of nonce withdraw_token (some owner_info.key) sol_arg) 0 path sol_arg 3

abbrev once : Bank
once = after ledger_accounts (withdrawal 0 ledger_accounts)

abbrev twice : Bank
twice = after once (withdrawal 1 once)

first_runs : withdrawal 0 ledger_accounts ≡ ok (tt, once)
unfolding process_withdraw open_commission_admin check_admin_key read_commission_admin
    commission_admin_pda_seed open_signer read_bridge_admin verify_content get_merkle_root
    verify_ecdsa_signature bytes_eq next_account_info write_data checked_add merkle_loop merkle_step
    bytes_leb amount_bytes Content.hash Content.message Content.new operation_byte pay_token
    call_transfer_native
first_runs = refl

second_runs : withdrawal 1 once ≡ ok (tt, twice)
unfolding process_withdraw open_commission_admin check_admin_key read_commission_admin
    commission_admin_pda_seed open_signer read_bridge_admin verify_content get_merkle_root
    verify_ecdsa_signature bytes_eq next_account_info write_data checked_add merkle_loop merkle_step
    bytes_leb amount_bytes Content.hash Content.message Content.new operation_byte pay_token
    call_transfer_native
second_runs = refl

pub ledger-IsUsed : IsUsed commission_program commission_info.key ledger_accounts
unfolding bytes_eq
ledger-IsUsed = record { owner = refl; filled = omega arith }

pub ledger_bounded :
    length (ledger_accounts commission_info.key).data_bytes ≤ max_permitted_data_length
unfolding bytes_eq
ledger_bounded = omega arith

ledger-Held : Held ledger_env commission_program commission_info.key first_admin ledger_accounts
unfolding bytes_eq
ledger-Held = record {
  used = ledger-IsUsed;
  bounded = ledger_bounded;
  admin = first_admin;
  stored = refl;
  initialized = refl;
  least = ground arith;
}

withdrawal_not_replayed_example :
    (first : Withdrawn ledger_env commission_program commission_info bridge_info owner_info
      other_info other_info []
      (signature_of 0 withdraw_token (some owner_info.key) sol_arg)
      0
      path
      sol_arg
      3
      ledger_accounts
      once)
    × (second : Withdrawn ledger_env commission_program commission_info bridge_info owner_info
        other_info other_info []
        (signature_of 1 withdraw_token (some owner_info.key) sol_arg)
        0
        path
        sol_arg
        3
        once
        twice)
    × (Content.message (
          content ledger_env commission_program commission_info bridge_info owner_info other_info
            other_info []
            (signature_of 0 withdraw_token (some owner_info.key) sol_arg)
            0
            path
            sol_arg
            first.admin)
        ≢ Content.message (
            content ledger_env commission_program commission_info bridge_info owner_info other_info
              other_info []
              (signature_of 1 withdraw_token (some owner_info.key) sol_arg)
              0
              path
              sol_arg
              second.admin))
withdrawal_not_replayed_example =
    withdrawal_not_replayed ledger_env commission_program ledger_laws ledger_codec-IsLawful
      write_ledger_takes ledger-ReadsTokens commission_info bridge_info owner_info other_info
      other_info [] (signature_of 0 withdraw_token (some owner_info.key) sol_arg) 0 path sol_arg
      bridge_info owner_info other_info other_info []
      (signature_of 1 withdraw_token (some owner_info.key) sol_arg) 0 path sol_arg 3 3
      ledger_accounts once once twice ledger-IsUsed ledger_bounded first_runs
      (others here (λ k used. (refl, refl))) second_runs

-- A fungible token that has no fee yet.
abbrev gold : CommissionTokenArg
gold = record { token = CommissionTokenKind.ft (replicate 32 13); amount = 8 }

abbrev addition : Result (Unit {0} × Bank)
addition =
    process_add_token ledger_env commission_program (commission_info ∷ bridge_info ∷ [])
      (signature_of 0 add_token none gold) 0 path gold ledger_accounts

addition_runs : addition ≡ ok (tt, after ledger_accounts addition)
unfolding process_add_token open_commission_admin check_admin_key read_commission_admin
    commission_admin_pda_seed open_signer read_bridge_admin verify_content get_merkle_root
    verify_ecdsa_signature bytes_eq next_account_info write_data checked_add merkle_loop merkle_step
    bytes_leb amount_bytes Content.hash Content.message Content.new operation_byte
addition_runs = refl

ledger-Represents :
    Represents ledger_env commission_program commission_info.key ledger_accounts (fees (sol ∷ []))
unfolding bytes_eq
ledger-Represents = record {
  used = ledger-IsUsed;
  bounded = ledger_bounded;
  admin = first_admin;
  stored = refl;
  distinct = (tt, tt);
  stands_for = λ k. refl;
}

gold_fresh : fees (sol ∷ []) (CommissionTokenKind.ft (replicate 32 13)) ≡ none
unfolding fees check_token_is_acceptable commission_token_eq
gold_fresh = refl

signed_operations_refine_example :
    Represents ledger_env commission_program commission_info.key
      (after ledger_accounts addition)
      (apply_operation add_token (from_arg gold) (fees (sol ∷ [])))
signed_operations_refine_example =
    signed_operations_refine ledger_env commission_program ledger_laws ledger_codec-IsLawful
      write_ledger_takes commission_info bridge_info (signature_of 0 add_token none gold) 0 path
      gold 0 add_token [] (fees (sol ∷ [])) ledger_accounts (after ledger_accounts addition)
      (refl, omega arith) gold_fresh ledger-Represents addition_runs
