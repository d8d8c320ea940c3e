-- ===== src/Commission/Handlers.antt =====
-- The handlers of commission/program/src/processor.rs.
pub mod Changes
pub mod Withdrawal
pub mod Charge
pub mod Payout
use solana_bridge_program.Common.{ℕ, true, not, none, some, List, [], ◌∷◌, ◌++◌, Bytes}
use solana_bridge_program.Runtime.{
  Pubkey, AccountInfo, M, lift, require, next_account_info, write_data, checked_add, ◌>>=◌, ◌>>◌,
}
use solana_bridge_program.Shared.Error.{already_in_use}
use solana_bridge_program.Shared.Types.{CommissionToken as CommissionTokenKind}
use solana_bridge_program.Shared.Instructions.Commission.{CommissionTokenArg}
use solana_bridge_program.Env.{Env}
use solana_bridge_program.Shared.Calls.{call_create_account}
use solana_bridge_program.Commission.State.{
  add_token, remove_token, update_token, withdraw_token, from_arg, max_admin_size,
}
use solana_bridge_program.Commission.Content
use solana_bridge_program.Commission.Tokens.{
  check_token_is_acceptable, push_tokens, remove_first, update_first,
}
use solana_bridge_program.Commission.Access.{
  read_commission_admin, admin_seeds, check_admin_key, open_commission_admin, open_signer,
  verify_content,
}
use solana_bridge_program.Commission.Payments.{charge_token, pay_token}

module _ (env : Env) where
  unfoldable pub process_init_admin :
      Pubkey → List AccountInfo → List CommissionTokenArg → M (Unit {0})
  unfolding next_account_info
  process_init_admin program_id accounts acceptable_tokens = do
    (commission_admin_info, rest) ← next_account_info accounts
    (bridge_admin_info, rest) ← next_account_info rest
    (fee_payer_info, rest) ← next_account_info rest
    (system_program, rest) ← next_account_info rest
    (rent_info, rest) ← next_account_info rest
    _ ← check_admin_key env program_id commission_admin_info bridge_admin_info
    call_create_account env fee_payer_info commission_admin_info rent_info system_program
        (max_admin_size env.size_of_commission_token) program_id (admin_seeds env bridge_admin_info)
    commission_admin ← read_commission_admin env commission_admin_info
    require (not commission_admin.is_initialized) already_in_use
    write_data commission_admin_info (
        env.commission_admin.serialize (record commission_admin {
          acceptable_tokens = push_tokens [] acceptable_tokens;
          is_initialized = true;
        }))

  unfoldable pub process_charge_commission :
      Pubkey → List AccountInfo → CommissionTokenKind → M (Unit {0})
  unfolding next_account_info
  process_charge_commission program_id accounts token = do
    (commission_admin_info, rest) ← next_account_info accounts
    (bridge_admin_info, rest) ← next_account_info rest
    (owner_info, rest) ← next_account_info rest
    (system_program, rest) ← next_account_info rest
    (rent_info, rest) ← next_account_info rest
    (commission_key, commission_admin) ←
        open_commission_admin env program_id commission_admin_info bridge_admin_info
    commission_token ← lift (check_token_is_acceptable commission_admin.acceptable_tokens token)
    charge_token env commission_key commission_admin_info bridge_admin_info owner_info
        system_program rent_info rest commission_token.amount commission_token.token

  unfoldable pub process_add_token :
      Pubkey → List AccountInfo → Bytes → ℕ → List Bytes → CommissionTokenArg → M (Unit {0})
  unfolding next_account_info
  process_add_token program_id accounts signature recovery_id path token = do
    (commission_admin_info, rest) ← next_account_info accounts
    (bridge_admin_info, rest) ← next_account_info rest
    (commission_key, commission_admin) ←
        open_commission_admin env program_id commission_admin_info bridge_admin_info
    bridge_admin ← open_signer env bridge_admin_info
    verify_content env
        (Content.new commission_admin.add_token_nonce none program_id add_token (from_arg token))
        path signature recovery_id bridge_admin
    nonce ← checked_add commission_admin.add_token_nonce 1
    write_data commission_admin_info (
        env.commission_admin.serialize (record commission_admin {
          add_token_nonce = nonce;
          acceptable_tokens = commission_admin.acceptable_tokens ++ from_arg token ∷ [];
        }))

  unfoldable pub process_remove_token :
      Pubkey → List AccountInfo → Bytes → ℕ → List Bytes → CommissionTokenArg → M (Unit {0})
  unfolding next_account_info
  process_remove_token program_id accounts signature recovery_id path token = do
    (commission_admin_info, rest) ← next_account_info accounts
    (bridge_admin_info, rest) ← next_account_info rest
    (commission_key, commission_admin) ←
        open_commission_admin env program_id commission_admin_info bridge_admin_info
    bridge_admin ← open_signer env bridge_admin_info
    verify_content env
        (Content.new commission_admin.remove_token_nonce none program_id remove_token
          (from_arg token))
        path signature recovery_id bridge_admin
    nonce ← checked_add commission_admin.remove_token_nonce 1
    write_data commission_admin_info (
        env.commission_admin.serialize (record commission_admin {
          acceptable_tokens = remove_first (from_arg token) commission_admin.acceptable_tokens;
          remove_token_nonce = nonce;
        }))

  unfoldable pub process_update_token :
      Pubkey → List AccountInfo → Bytes → ℕ → List Bytes → CommissionTokenArg → M (Unit {0})
  unfolding next_account_info
  process_update_token program_id accounts signature recovery_id path token = do
    (commission_admin_info, rest) ← next_account_info accounts
    (bridge_admin_info, rest) ← next_account_info rest
    (commission_key, commission_admin) ←
        open_commission_admin env program_id commission_admin_info bridge_admin_info
    bridge_admin ← open_signer env bridge_admin_info
    verify_content env
        (Content.new commission_admin.update_token_nonce none program_id update_token
          (from_arg token))
        path signature recovery_id bridge_admin
    nonce ← checked_add commission_admin.update_token_nonce 1
    write_data commission_admin_info (
        env.commission_admin.serialize (record commission_admin {
          acceptable_tokens = update_first (from_arg token) commission_admin.acceptable_tokens;
          update_token_nonce = nonce;
        }))

  unfoldable pub process_withdraw :
      Pubkey → List AccountInfo → Bytes → ℕ → List Bytes → CommissionTokenArg → ℕ → M (Unit {0})
  unfolding next_account_info
  process_withdraw program_id accounts signature recovery_id path token withdraw_amount = do
    (commission_admin_info, rest) ← next_account_info accounts
    (bridge_admin_info, rest) ← next_account_info rest
    (receiver_info, rest) ← next_account_info rest
    (system_program, rest) ← next_account_info rest
    (rent_info, rest) ← next_account_info rest
    (commission_key, commission_admin) ←
        open_commission_admin env program_id commission_admin_info bridge_admin_info
    bridge_admin ← open_signer env bridge_admin_info
    verify_content env
        (Content.new commission_admin.withdraw_token_nonce (some receiver_info.key) program_id
          withdraw_token (from_arg token))
        path signature recovery_id bridge_admin
    pay_token env commission_key commission_admin_info bridge_admin_info receiver_info
        system_program rent_info rest withdraw_amount token.token
    nonce ← checked_add commission_admin.withdraw_token_nonce 1
    write_data commission_admin_info
        (env.commission_admin.serialize (record commission_admin { withdraw_token_nonce = nonce }))
