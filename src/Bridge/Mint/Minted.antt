-- ===== src/Bridge/Mint/Minted.antt =====
-- The wrapped token of a withdrawal: its mint and metadata.
use solana_bridge_program.Common.{ℕ, ◌≡◌, ◌≢◌, [], ◌∷◌, Bytes, length}
use solana_bridge_program.Runtime.{Pubkey, AccountInfo, Bank, M, ok, ◌>>◌}
use solana_bridge_program.Env.{Env}
use solana_bridge_program.Shared.Calls.{call_create_account}
use solana_bridge_program.Shared.Instructions.Bridge.{SignedMetadata}
use solana_bridge_program.Bridge.Token.{call_init_mint, call_create_metadata}

module _ (env : Env) (program_id : Pubkey) (bridge_info : AccountInfo) (token_seed : Bytes)
    (mint_info metadata_info owner_info rent system : AccountInfo) (seeds : Bytes) where
  abbrev found : Pubkey × ℕ
  found = env.find_program_address (token_seed ∷ []) program_id

  abbrev create_mint : M (Unit {0})
  create_mint =
      call_create_account env owner_info mint_info rent system env.mint_len env.spl_token_id
        (token_seed ∷ (found.1 ∷ []) ∷ [])

  abbrev create_metadata : SignedMetadata → M (Unit {0})
  create_metadata meta =
      call_create_metadata env metadata_info mint_info bridge_info owner_info bridge_info rent
        system meta seeds

  -- From `b` to `b'` nothing happened where the mint had data; where it had none, it was created,
  -- initialised with the decimals and given the metadata.
  pub data Minted (meta : SignedMetadata) (b b' : Bank) : Type 0 where
    already : length (b mint_info.key).data_bytes ≢ 0 → b' ≡ b → Minted meta b b'
    made :
        (created initialized : Bank)
        → length (b mint_info.key).data_bytes ≡ 0
        → create_mint b ≡ ok (tt, created)
        → call_init_mint env mint_info bridge_info rent meta.decimals created ≡ ok (tt, initialized)
        → create_metadata meta initialized ≡ ok (tt, b')
        → Minted meta b b'

  abbrev steps : SignedMetadata → M (Unit {0})
  steps meta = do
    create_mint
    call_init_mint env mint_info bridge_info rent meta.decimals
    create_metadata meta
