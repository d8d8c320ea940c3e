-- ===== src/Bridge/Mint.antt =====
-- Wrapped tokens and collections: `try_mint_token_with_meta` and `process_create_collection` of
-- bridge/program/src/processor.rs.
pub mod Collection
pub mod Minted
use solana_bridge_program.Common.{Option, some, none, List, [], ◌∷◌, Bytes, length, ◌==◌, bytes_eq}
use solana_bridge_program.Runtime.{
  Pubkey, AccountInfo, M, pure, fail, account, require, when, next_account_info, ◌>>=◌, ◌>>◌,
}
use solana_bridge_program.Shared.Error.{wrong_token_seed, wrong_token_account, no_token_meta}
use solana_bridge_program.Env.{Env}
use solana_bridge_program.Shared.Calls.{call_create_account, call_create_associated_account}
use solana_bridge_program.Shared.Instructions.Bridge.{SignedMetadata}
use solana_bridge_program.Bridge.Access.{open_bridge_admin}
use solana_bridge_program.Bridge.Token.{call_init_mint, call_mint_to, call_create_metadata}

-- `if signed_meta.is_none() { return Err(…) }`, then `signed_meta.unwrap()`
abbrev pub require_meta : Option SignedMetadata → M SignedMetadata
require_meta none = fail no_token_meta
require_meta (some meta) = pure meta

module _ (env : Env) where
  unfoldable pub try_mint_token_with_meta :
      Pubkey
      → AccountInfo
      → Bytes
      → Option SignedMetadata
      → AccountInfo
      → AccountInfo
      → AccountInfo
      → AccountInfo
      → AccountInfo
      → Bytes
      → M (Unit {0})
  try_mint_token_with_meta program_id bridge_admin_info token_seed signed_meta mint_info
        metadata_info owner_info rent_info system_program seeds =
      do
        let found = env.find_program_address (token_seed ∷ []) program_id
        require (bytes_eq found.0 mint_info.key) wrong_token_seed
        meta ← require_meta signed_meta
        a ← account mint_info
        when (length a.data_bytes == 0) do
          call_create_account env owner_info mint_info rent_info system_program env.mint_len
              env.spl_token_id (token_seed ∷ (found.1 ∷ []) ∷ [])
          call_init_mint env mint_info bridge_admin_info rent_info meta.decimals
          call_create_metadata env metadata_info mint_info bridge_admin_info owner_info
              bridge_admin_info rent_info system_program meta seeds

  -- `if let Some(token_seed) = token_seed { try_mint_token_with_meta(…)? }`
  unfoldable pub mint_if_seeded :
      Pubkey
      → AccountInfo
      → Option Bytes
      → Option SignedMetadata
      → AccountInfo
      → AccountInfo
      → AccountInfo
      → AccountInfo
      → AccountInfo
      → Bytes
      → M (Unit {0})
  mint_if_seeded program_id bridge_admin_info none signed_meta mint_info metadata_info owner_info
        rent_info system_program seeds =
      pure tt
  mint_if_seeded program_id bridge_admin_info (some token_seed) signed_meta mint_info metadata_info
        owner_info rent_info system_program seeds =
      try_mint_token_with_meta program_id bridge_admin_info token_seed signed_meta mint_info
        metadata_info owner_info rent_info system_program seeds

  unfoldable pub process_create_collection :
      Pubkey → List AccountInfo → Bytes → SignedMetadata → Bytes → M (Unit {0})
  unfolding next_account_info
  process_create_collection program_id accounts seeds meta token_seed = do
    (bridge_admin_info, rest) ← next_account_info accounts
    (mint_info, rest) ← next_account_info rest
    (bridge_associated_info, rest) ← next_account_info rest
    (metadata_info, rest) ← next_account_info rest
    (payer_info, rest) ← next_account_info rest
    (token_program, rest) ← next_account_info rest
    (metadata_program, rest) ← next_account_info rest
    (rent_info, rest) ← next_account_info rest
    (system_program, rest) ← next_account_info rest
    (associated_program, rest) ← next_account_info rest
    (bridge_admin_key, bridge_admin) ← open_bridge_admin env program_id seeds bridge_admin_info
    require
        (bytes_eq bridge_associated_info.key
          (env.get_associated_token_address bridge_admin_key mint_info.key))
        wrong_token_account
    require (bytes_eq (env.find_program_address (token_seed ∷ []) program_id).0 mint_info.key)
        wrong_token_seed
    call_create_account env payer_info mint_info rent_info system_program env.mint_len
        env.spl_token_id []
    call_init_mint env mint_info bridge_admin_info rent_info 0
    call_create_associated_account env payer_info bridge_admin_info mint_info bridge_associated_info
        rent_info system_program token_program
    call_mint_to env mint_info bridge_associated_info bridge_admin_info seeds 1
    call_create_metadata env metadata_info mint_info bridge_admin_info payer_info bridge_admin_info
        rent_info system_program meta seeds
