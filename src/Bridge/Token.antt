-- ===== src/Bridge/Token.antt =====
-- The calls to the token and metadata programs in bridge/program/src/processor.rs.
use solana_bridge_program.Common.{
  ℕ, true, false, none, List, [], ◌∷◌, Bytes, length, ◌==◌, bytes_eq,
}
use solana_bridge_program.Runtime.{
  Pubkey, AccountInfo, M, account, lift, require, when, ◌>>=◌, ◌>>◌,
}
use solana_bridge_program.Shared.Error.{wrong_token_account}
use solana_bridge_program.Env.{Env}
use solana_bridge_program.Shared.Calls.{invoke, call_create_associated_account}
use solana_bridge_program.Shared.Instructions.Bridge.{SignedMetadata}

module _ (env : Env) where
  unfoldable pub call_burn_token : AccountInfo → AccountInfo → AccountInfo → ℕ → M (Unit {0})
  call_burn_token associated_info mint_info authority_info amount = do
    instruction ← lift (env.token_burn associated_info.key mint_info.key authority_info.key amount)
    invoke env instruction (associated_info ∷ mint_info ∷ authority_info ∷ [])

  unfoldable pub call_transfer_token :
      AccountInfo → AccountInfo → AccountInfo → ℕ → List (List Bytes) → M (Unit {0})
  call_transfer_token from to authority amount signers_seeds = do
    instruction ← lift (env.token_transfer from.key to.key authority.key amount)
    env.invoke_signed instruction (from ∷ to ∷ authority ∷ []) signers_seeds

  unfoldable pub call_mint_to : AccountInfo → AccountInfo → AccountInfo → Bytes → ℕ → M (Unit {0})
  call_mint_to mint token_account owner seeds amount = do
    instruction ← lift (env.token_mint_to mint.key token_account.key owner.key amount)
    env.invoke_signed instruction (mint ∷ token_account ∷ owner ∷ []) ((seeds ∷ []) ∷ [])

  unfoldable pub call_init_mint : AccountInfo → AccountInfo → AccountInfo → ℕ → M (Unit {0})
  call_init_mint mint mint_authority rent decimals = do
    instruction ← lift (env.token_initialize_mint mint.key mint_authority.key decimals)
    invoke env instruction (mint ∷ rent ∷ [])

  unfoldable pub call_create_metadata :
      AccountInfo
      → AccountInfo
      → AccountInfo
      → AccountInfo
      → AccountInfo
      → AccountInfo
      → AccountInfo
      → SignedMetadata
      → Bytes
      → M (Unit {0})
  call_create_metadata metadata_account mint mint_authority payer update_authority rent
        system_program meta seeds =
      env.invoke_signed
        (env.create_metadata_account_v3
          (record {
            metadata = metadata_account.key;
            mint = mint.key;
            mint_authority = mint_authority.key;
            payer = payer.key;
            update_authority = (mint_authority.key, true);
            system_program = env.system_program_id;
            rent = none;
          })
          (record {
            name = meta.name;
            symbol = meta.symbol;
            uri = meta.uri;
            seller_fee_basis_points = 0;
            creators = none;
            collection = none;
            uses = none;
            is_mutable = false;
            collection_details = none;
          }))
        (metadata_account ∷ mint ∷ mint_authority ∷ payer ∷ update_authority ∷ rent ∷ system_program
          ∷ [])
        ((seeds ∷ []) ∷ [])

  -- A token account must be the associated account of its wallet, and is created where it is empty.
  unfoldable pub ensure_associated_account :
      Pubkey
      → AccountInfo
      → AccountInfo
      → AccountInfo
      → AccountInfo
      → AccountInfo
      → AccountInfo
      → AccountInfo
      → M (Unit {0})
  ensure_associated_account wallet_key payer wallet mint associated rent_info system_program
        token_program =
      do
        require (bytes_eq associated.key (env.get_associated_token_address wallet_key mint.key))
            wrong_token_account
        a ← account associated
        when (length a.data_bytes == 0) (
            call_create_associated_account env payer wallet mint associated rent_info system_program
              token_program)
