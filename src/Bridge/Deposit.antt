-- ===== src/Bridge/Deposit.antt =====
-- The deposit handlers of bridge/program/src/processor.rs.
pub mod Taken
use solana_bridge_program.Common.{ℕ, Option, none, some, List, [], ◌∷◌, Bytes, bytes_eq}
use solana_bridge_program.Runtime.{Pubkey, AccountInfo, M, require, next_account_info, ◌>>=◌, ◌>>◌}
use solana_bridge_program.Shared.Error.{wrong_token_seed}
use solana_bridge_program.Shared.Types.{TokenType}
use solana_bridge_program.Env.{Env}
use solana_bridge_program.Shared.Calls.{invoke}
use solana_bridge_program.Bridge.Access.{open_bridge_admin}
use solana_bridge_program.Bridge.Charge.{verify_commission_charged}
use solana_bridge_program.Bridge.Token.{
  call_burn_token, call_transfer_token, ensure_associated_account,
}

module _ (env : Env) where
  unfoldable pub process_deposit_native :
      Pubkey → List AccountInfo → Bytes → Bytes → Bytes → ℕ → M (Unit {0})
  unfolding next_account_info
  process_deposit_native program_id accounts seeds network receiver amount = do
    (bridge_admin_info, rest) ← next_account_info accounts
    (owner_info, rest) ← next_account_info rest
    (system_program, rest) ← next_account_info rest
    (rent_info, rest) ← next_account_info rest
    (sysvar_info, rest) ← next_account_info rest
    (bridge_admin_key, bridge_admin) ← open_bridge_admin env program_id seeds bridge_admin_info
    verify_commission_charged env bridge_admin_info sysvar_info bridge_admin TokenType.native amount
    invoke env (env.system_transfer owner_info.key bridge_admin_info.key amount)
        (owner_info ∷ bridge_admin_info ∷ [])

  -- The end of a token deposit: a wrapped token, given by its seed, is burnt, another one is
  -- transferred to the bridge.
  unfoldable pub take_tokens :
      Pubkey
      → Option Bytes
      → AccountInfo
      → AccountInfo
      → AccountInfo
      → AccountInfo
      → ℕ
      → M (Unit {0})
  take_tokens program_id (some token_seed) mint_info owner_associated_info bridge_associated_info
        owner_info amount =
      do
        require (bytes_eq (env.find_program_address (token_seed ∷ []) program_id).0 mint_info.key)
            wrong_token_seed
        call_burn_token env owner_associated_info mint_info owner_info amount
  take_tokens program_id none mint_info owner_associated_info bridge_associated_info owner_info
        amount =
      call_transfer_token env owner_associated_info bridge_associated_info owner_info amount []

  unfoldable pub process_deposit_ft :
      Pubkey → List AccountInfo → Bytes → Bytes → Bytes → ℕ → Option Bytes → M (Unit {0})
  unfolding next_account_info
  process_deposit_ft program_id accounts seeds network receiver amount token_seed = do
    (bridge_admin_info, rest) ← next_account_info accounts
    (mint_info, rest) ← next_account_info rest
    (owner_associated_info, rest) ← next_account_info rest
    (bridge_associated_info, rest) ← next_account_info rest
    (owner_info, rest) ← next_account_info rest
    (token_program, rest) ← next_account_info rest
    (system_program, rest) ← next_account_info rest
    (rent_info, rest) ← next_account_info rest
    (sysvar_info, rest) ← next_account_info rest
    (associated_program, rest) ← next_account_info rest
    (bridge_admin_key, bridge_admin) ← open_bridge_admin env program_id seeds bridge_admin_info
    verify_commission_charged env bridge_admin_info sysvar_info bridge_admin TokenType.ft amount
    ensure_associated_account env bridge_admin_key owner_info bridge_admin_info mint_info
        bridge_associated_info rent_info system_program token_program
    take_tokens program_id token_seed mint_info owner_associated_info bridge_associated_info
        owner_info amount

  unfoldable pub process_deposit_nft :
      Pubkey → List AccountInfo → Bytes → Bytes → Bytes → Option Bytes → M (Unit {0})
  unfolding next_account_info
  process_deposit_nft program_id accounts seeds network receiver token_seed = do
    (bridge_admin_info, rest) ← next_account_info accounts
    (mint_info, rest) ← next_account_info rest
    (owner_associated_info, rest) ← next_account_info rest
    (bridge_associated_info, rest) ← next_account_info rest
    (owner_info, rest) ← next_account_info rest
    (token_program, rest) ← next_account_info rest
    (system_program, rest) ← next_account_info rest
    (rent_info, rest) ← next_account_info rest
    (sysvar_info, rest) ← next_account_info rest
    (associated_program, rest) ← next_account_info rest
    (bridge_admin_key, bridge_admin) ← open_bridge_admin env program_id seeds bridge_admin_info
    verify_commission_charged env bridge_admin_info sysvar_info bridge_admin TokenType.nft 1
    ensure_associated_account env bridge_admin_key owner_info bridge_admin_info mint_info
        bridge_associated_info rent_info system_program token_program
    take_tokens program_id token_seed mint_info owner_associated_info bridge_associated_info
        owner_info 1
