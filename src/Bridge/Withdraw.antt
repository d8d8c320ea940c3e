-- ===== src/Bridge/Withdraw.antt =====
-- The withdraw handlers of bridge/program/src/processor.rs.
pub mod Signed
pub mod Lamports
pub mod Native
pub mod Release
pub mod Tokens
pub mod Passes
pub mod Accepted
use solana_bridge_program.Common.{
  ℕ, ◌+◌, ◌-◌, ◌==◌, ltb, not, if◌then◌else◌, Option, none, some, List, [], ◌∷◌, Bytes, bytes_eq,
  length,
}
use mathlib.Core.List.{reverse}
use solana_bridge_program.Runtime.{
  Pubkey, Account, AccountInfo, Bank, M, pure, abort, panicked, ok, account, lift, require, when,
  next_account_info, set_account, checked_add, ◌>>=◌, ◌>>◌,
}
use solana_bridge_program.Shared.Error.{wrong_balance, wrong_metadata_account, wrong_token_account}
use solana_bridge_program.Shared.Types.{TokenType}
use solana_bridge_program.Shared.Instructions.Bridge.{SignedMetadata}
use solana_bridge_program.Env.{Env, Metadata}
use solana_bridge_program.Shared.Merkle.{get_merkle_root}
use solana_bridge_program.Shared.Ecdsa.{verify_ecdsa_signature}
use solana_bridge_program.Bridge.State.{BridgeAdmin}
use solana_bridge_program.Bridge.Content
use solana_bridge_program.Bridge.Content.{
  TransferData, Content, new_native_transfer, new_ft_transfer, new_nft_transfer,
}
use solana_bridge_program.Bridge.Access.{open_bridge_admin}
use solana_bridge_program.Bridge.Token.{
  call_mint_to, call_transfer_token, ensure_associated_account,
}
use solana_bridge_program.Bridge.Mint.{mint_if_seeded}
use solana_bridge_program.Bridge.Record.{
  create_withdraw_account, init_withdraw_account, filled_withdraw,
}

-- `s.trim_matches(char::from(0))` on the bytes of a string.
unfoldable pub trim_start : Bytes → Bytes
trim_start [] = []
trim_start (c ∷ s) = let rest = trim_start s in if c == 0 then rest else c ∷ s

unfoldable pub trim_matches : Bytes → Bytes
unfolding trim_start
trim_matches s = reverse (trim_start (reverse (trim_start s)))

-- `**info.try_borrow_mut_lamports()? -= amount`
unfoldable pub sub_lamports : AccountInfo → ℕ → M (Unit {0})
sub_lamports info amount b =
    let a : Account = b info.key in
    if ltb a.lamports amount
    then abort panicked b
    else ok (tt, set_account info.key (record a { lamports = a.lamports - amount }) b)

-- `**info.try_borrow_mut_lamports()? += amount`
unfoldable pub add_lamports : AccountInfo → ℕ → M (Unit {0})
add_lamports info amount = do
  a ← account info
  lamports ← checked_add a.lamports amount
  λ b. ok (tt, set_account info.key (record (b info.key) { lamports = lamports }) b)

module _ (env : Env) where
  -- The content of a withdrawal to an owner, its root, and the signature over the root.
  unfoldable pub verify_content :
      Pubkey → Bytes → Bytes → TransferData → List Bytes → Bytes → ℕ → Bytes → M (Unit {0})
  verify_content program_id origin receiver transfer path signature recovery_id public_key = do
    root ← lift (
        get_merkle_root env (Content.hash env (Content.new origin receiver program_id transfer))
          path)
    lift (verify_ecdsa_signature env root signature recovery_id public_key)

  unfoldable pub process_withdraw_native :
      Pubkey → List AccountInfo → Bytes → Bytes → ℕ → List Bytes → Bytes → ℕ → M (Unit {0})
  unfolding next_account_info
  process_withdraw_native program_id accounts seeds signature recovery_id path origin amount = do
    (bridge_admin_info, rest) ← next_account_info accounts
    (owner_info, rest) ← next_account_info rest
    (withdraw_info, rest) ← next_account_info rest
    (system_program, rest) ← next_account_info rest
    (rent_info, rest) ← next_account_info rest
    (bridge_admin_key, bridge_admin) ← open_bridge_admin env program_id seeds bridge_admin_info
    verify_content program_id origin owner_info.key (new_native_transfer amount) path signature
        recovery_id bridge_admin.public_key
    a ← account bridge_admin_info
    require (not (ltb a.lamports amount)) wrong_balance
    create_withdraw_account env program_id origin owner_info withdraw_info rent_info system_program
    sub_lamports bridge_admin_info amount
    add_lamports owner_info amount
    init_withdraw_account env withdraw_info
        (filled_withdraw TokenType.native origin none amount owner_info.key)

  -- `Metadata::from_bytes(&mut info.data.borrow_mut().as_ref())?`
  unfoldable pub read_metadata : AccountInfo → M Metadata
  read_metadata info = do a ← account info; lift (env.metadata_from_bytes a.data_bytes)

  -- `spl_token::state::Account::unpack_from_slice(…)?.amount`
  unfoldable pub read_token_amount : AccountInfo → M ℕ
  read_token_amount info = do a ← account info; lift (env.unpack_account a.data_bytes)

  -- `if … { call_mint_to(…)? }`
  unfoldable pub mint_missing :
      AccountInfo → AccountInfo → AccountInfo → Bytes → Option ℕ → M (Unit {0})
  mint_missing mint_info bridge_associated_info bridge_admin_info seeds none = pure tt
  mint_missing mint_info bridge_associated_info bridge_admin_info seeds (some amount) =
      call_mint_to env mint_info bridge_associated_info bridge_admin_info seeds amount

  -- The end of a token withdrawal up to the record: the associated accounts of the bridge and of the
  -- owner, the tokens that the bridge lacks, given by a function of what it holds, and the transfer.
  unfoldable pub release_tokens :
      Pubkey
      → AccountInfo
      → AccountInfo
      → AccountInfo
      → AccountInfo
      → AccountInfo
      → AccountInfo
      → AccountInfo
      → AccountInfo
      → Bytes
      → ℕ
      → (ℕ → Option ℕ)
      → M (Unit {0})
  release_tokens bridge_admin_key bridge_admin_info mint_info owner_info owner_associated_info
        bridge_associated_info rent_info system_program token_program seeds amount missing =
      do
        ensure_associated_account env bridge_admin_key owner_info bridge_admin_info mint_info
            bridge_associated_info rent_info system_program token_program
        held ← read_token_amount bridge_associated_info
        ensure_associated_account env owner_info.key owner_info owner_info mint_info
            owner_associated_info rent_info system_program token_program
        mint_missing mint_info bridge_associated_info bridge_admin_info seeds (missing held)
        call_transfer_token env bridge_associated_info owner_associated_info bridge_admin_info
            amount ((seeds ∷ []) ∷ [])

  unfoldable pub process_withdraw_ft :
      Pubkey
      → List AccountInfo
      → Bytes
      → Bytes
      → ℕ
      → List Bytes
      → Bytes
      → ℕ
      → Option Bytes
      → Option SignedMetadata
      → M (Unit {0})
  unfolding next_account_info
  process_withdraw_ft program_id accounts seeds signature recovery_id path origin amount token_seed
        signed_meta =
      do
        (bridge_admin_info, rest) ← next_account_info accounts
        (mint_info, rest) ← next_account_info rest
        (metadata_info, rest) ← next_account_info rest
        (owner_info, rest) ← next_account_info rest
        (owner_associated_info, rest) ← next_account_info rest
        (bridge_associated_info, rest) ← next_account_info rest
        (withdraw_info, rest) ← next_account_info rest
        (token_program, rest) ← next_account_info rest
        (system_program, rest) ← next_account_info rest
        (rent_info, rest) ← next_account_info rest
        (metadata_program, rest) ← next_account_info rest
        (associated_program, rest) ← next_account_info rest
        (bridge_admin_key, bridge_admin) ← open_bridge_admin env program_id seeds bridge_admin_info
        require (bytes_eq metadata_info.key (env.find_pda mint_info.key)) wrong_metadata_account
        mint_if_seeded env program_id bridge_admin_info token_seed signed_meta mint_info
            metadata_info owner_info rent_info system_program seeds
        metadata ← read_metadata metadata_info
        mint_account ← account mint_info
        decimals ← lift (env.unpack_mint mint_account.data_bytes)
        verify_content program_id origin owner_info.key
            (new_ft_transfer mint_info.key amount (trim_matches metadata.name)
              (trim_matches metadata.symbol) (trim_matches metadata.uri) decimals)
            path signature recovery_id bridge_admin.public_key
        release_tokens bridge_admin_key bridge_admin_info mint_info owner_info owner_associated_info
            bridge_associated_info rent_info system_program token_program seeds amount
            (λ held. if ltb held amount then some (amount - held) else none)
        create_withdraw_account env program_id origin owner_info withdraw_info rent_info
            system_program
        init_withdraw_account env withdraw_info
            (filled_withdraw TokenType.ft origin (some mint_info.key) amount owner_info.key)

  -- The names that an NFT's content carries: its collection's, if it has one, and the collection.
  unfoldable pub read_collection :
      Metadata → List AccountInfo → Option Pubkey → M (Bytes × Bytes × Option Bytes)
  unfolding next_account_info
  read_collection metadata rest none = pure (metadata.name, metadata.symbol, none)
  read_collection metadata rest (some collection_key) = do
    (collection_metadata_info, rest) ← next_account_info rest
    require (bytes_eq collection_metadata_info.key (env.find_pda collection_key))
        wrong_metadata_account
    collection_metadata ← read_metadata collection_metadata_info
    pure (collection_metadata.name, collection_metadata.symbol, some collection_key)

  unfoldable pub process_withdraw_nft :
      Pubkey
      → List AccountInfo
      → Bytes
      → Bytes
      → ℕ
      → List Bytes
      → Bytes
      → Option Bytes
      → Option SignedMetadata
      → M (Unit {0})
  unfolding next_account_info
  process_withdraw_nft program_id accounts seeds signature recovery_id path origin token_seed
        signed_meta =
      do
        (bridge_admin_info, rest) ← next_account_info accounts
        (mint_info, rest) ← next_account_info rest
        (metadata_info, rest) ← next_account_info rest
        (owner_info, rest) ← next_account_info rest
        (owner_associated_info, rest) ← next_account_info rest
        (bridge_associated_info, rest) ← next_account_info rest
        (withdraw_info, rest) ← next_account_info rest
        (token_program, rest) ← next_account_info rest
        (system_program, rest) ← next_account_info rest
        (rent_info, rest) ← next_account_info rest
        (metadata_program, rest) ← next_account_info rest
        (associated_program, rest) ← next_account_info rest
        (bridge_admin_key, bridge_admin) ← open_bridge_admin env program_id seeds bridge_admin_info
        require (bytes_eq metadata_info.key (env.find_pda mint_info.key)) wrong_metadata_account
        mint_if_seeded env program_id bridge_admin_info token_seed signed_meta mint_info
            metadata_info owner_info rent_info system_program seeds
        metadata ← read_metadata metadata_info
        (name, symbol, collection) ← read_collection metadata rest metadata.collection
        verify_content program_id origin owner_info.key
            (new_nft_transfer mint_info.key collection (trim_matches name) (trim_matches symbol)
              (trim_matches metadata.uri))
            path signature recovery_id bridge_admin.public_key
        release_tokens bridge_admin_key bridge_admin_info mint_info owner_info owner_associated_info
            bridge_associated_info rent_info system_program token_program seeds 1
            (λ held. if held == 0 then some 1 else none)
        create_withdraw_account env program_id origin owner_info withdraw_info rent_info
            system_program
        init_withdraw_account env withdraw_info
            (filled_withdraw TokenType.nft origin (some mint_info.key) 1 owner_info.key)
