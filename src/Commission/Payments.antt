-- ===== src/Commission/Payments.antt =====
-- The payments of commission/program/src/processor.rs.
use solana_bridge_program.Common.{ℕ, ◌==◌, List, [], ◌∷◌, Bytes, bytes_eq, length}
use solana_bridge_program.Runtime.{
  Pubkey, AccountInfo, M, fail, account, lift, require, when, next_account_info, ◌>>=◌, ◌>>◌,
}
use solana_bridge_program.Shared.Error.{wrong_token_account, not_supported}
use solana_bridge_program.Shared.Types.{CommissionToken as CommissionTokenKind}
use solana_bridge_program.Env.{Env}
use solana_bridge_program.Shared.Calls.{invoke_with_seeds, call_create_associated_account}
use solana_bridge_program.Commission.Access.{admin_seeds}

module _ (env : Env) where
  unfoldable pub call_transfer_native : AccountInfo → AccountInfo → ℕ → List Bytes → M (Unit {0})
  call_transfer_native from to amount seeds =
      invoke_with_seeds env (env.system_transfer from.key to.key amount) (from ∷ to ∷ []) seeds

  unfoldable pub call_transfer_ft :
      AccountInfo → AccountInfo → AccountInfo → ℕ → List Bytes → M (Unit {0})
  call_transfer_ft from to authority amount seeds = do
    instruction ← lift (env.token_transfer from.key to.key authority.key amount)
    invoke_with_seeds env instruction (from ∷ to ∷ authority ∷ []) seeds

  -- The creation of a token account that is empty; its mint is one more account.
  unfoldable pub create_if_empty :
      AccountInfo
      → AccountInfo
      → AccountInfo
      → AccountInfo
      → AccountInfo
      → AccountInfo
      → List AccountInfo
      → M (Unit {0})
  unfolding next_account_info
  create_if_empty payer wallet associated rent_info system_program token_program rest = do
    a ← account associated
    when (length a.data_bytes == 0) do
      (mint_info, rest) ← next_account_info rest
      call_create_associated_account env payer wallet mint_info associated rent_info system_program
          token_program

  -- The `match` of `process_charge_commission`.
  unfoldable pub charge_token :
      Pubkey
      → AccountInfo
      → AccountInfo
      → AccountInfo
      → AccountInfo
      → AccountInfo
      → List AccountInfo
      → ℕ
      → CommissionTokenKind
      → M (Unit {0})
  unfolding next_account_info
  charge_token commission_key commission_admin_info bridge_admin_info owner_info system_program
        rent_info rest amount CommissionTokenKind.native =
      call_transfer_native owner_info commission_admin_info amount
        (admin_seeds env bridge_admin_info)
  charge_token commission_key commission_admin_info bridge_admin_info owner_info system_program
        rent_info rest amount (CommissionTokenKind.ft mint) =
      do
        (token_program, rest) ← next_account_info rest
        (owner_associated_info, rest) ← next_account_info rest
        (commission_associated_info, rest) ← next_account_info rest
        require
            (bytes_eq commission_associated_info.key
              (env.get_associated_token_address commission_key mint))
            wrong_token_account
        create_if_empty owner_info commission_admin_info commission_associated_info rent_info
            system_program token_program rest
        call_transfer_ft owner_associated_info commission_associated_info owner_info amount
            (admin_seeds env bridge_admin_info)
  charge_token commission_key commission_admin_info bridge_admin_info owner_info system_program
        rent_info rest amount (CommissionTokenKind.nft mint) =
      fail not_supported

  -- The `match` of `process_withdraw`.
  unfoldable pub pay_token :
      Pubkey
      → AccountInfo
      → AccountInfo
      → AccountInfo
      → AccountInfo
      → AccountInfo
      → List AccountInfo
      → ℕ
      → CommissionTokenKind
      → M (Unit {0})
  unfolding next_account_info
  pay_token commission_key commission_admin_info bridge_admin_info receiver_info system_program
        rent_info rest withdraw_amount CommissionTokenKind.native =
      call_transfer_native commission_admin_info receiver_info withdraw_amount
        (admin_seeds env bridge_admin_info)
  pay_token commission_key commission_admin_info bridge_admin_info receiver_info system_program
        rent_info rest withdraw_amount (CommissionTokenKind.ft mint) =
      do
        (token_program, rest) ← next_account_info rest
        (receiver_associated_info, rest) ← next_account_info rest
        (commission_associated_info, rest) ← next_account_info rest
        require
            (bytes_eq commission_associated_info.key
              (env.get_associated_token_address commission_key mint))
            wrong_token_account
        require
            (bytes_eq receiver_associated_info.key
              (env.get_associated_token_address receiver_info.key mint))
            wrong_token_account
        create_if_empty receiver_info receiver_info receiver_associated_info rent_info
            system_program token_program rest
        call_transfer_ft commission_associated_info receiver_associated_info commission_admin_info
            withdraw_amount (admin_seeds env bridge_admin_info)
  pay_token commission_key commission_admin_info bridge_admin_info receiver_info system_program
        rent_info rest withdraw_amount (CommissionTokenKind.nft mint) =
      fail not_supported
