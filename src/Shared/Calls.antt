-- ===== src/Shared/Calls.antt =====
-- lib/src/lib.rs: the calls that create accounts.
pub mod Created
pub mod Tokens
use solana_bridge_program.Common.{ℕ, List, [], ◌∷◌, Bytes}
use solana_bridge_program.Runtime.{Pubkey, AccountInfo, Instruction, M, read, ◌>>=◌}
use solana_bridge_program.Env.{Env}

module _ (env : Env) where
  -- `invoke` is `invoke_signed` with no seeds.
  abbrev pub invoke : Instruction → List AccountInfo → M (Unit {0})
  invoke instruction accounts = env.invoke_signed instruction accounts []

  -- `if seeds.len() > 0 { invoke_signed(…, &[seeds]) } else { invoke(…) }`
  abbrev pub invoke_with_seeds : Instruction → List AccountInfo → List Bytes → M (Unit {0})
  invoke_with_seeds instruction accounts [] = invoke instruction accounts
  invoke_with_seeds instruction accounts (s ∷ seeds) =
      env.invoke_signed instruction accounts ((s ∷ seeds) ∷ [])

  unfoldable pub call_create_account :
      AccountInfo → AccountInfo → AccountInfo → AccountInfo → ℕ → Pubkey → List Bytes → M (Unit {0})
  call_create_account payer account rent_info system_program space owner seeds = do
    minimum_balance ← read (env.rent_minimum_balance rent_info space)
    invoke_with_seeds (env.system_create_account payer.key account.key minimum_balance space owner)
        (payer ∷ account ∷ system_program ∷ []) seeds

  unfoldable pub call_create_associated_account :
      AccountInfo
      → AccountInfo
      → AccountInfo
      → AccountInfo
      → AccountInfo
      → AccountInfo
      → AccountInfo
      → M (Unit {0})
  call_create_associated_account payer wallet mint account rent_info system_program spl_token =
      invoke (env.create_associated_token_account payer.key wallet.key mint.key)
        (payer ∷ account ∷ wallet ∷ mint ∷ system_program ∷ spl_token ∷ rent_info ∷ [])
