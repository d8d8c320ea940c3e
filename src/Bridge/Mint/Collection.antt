-- ===== src/Bridge/Mint/Collection.antt =====
-- The creation of a collection.
use solana_bridge_program.Common.{
  ℕ, ◌≡◌, ◌≢◌, false, true, List, [], ◌∷◌, Bytes, bytes_eq, bytes_eq→≡, sym, ◌∙◌,
}
use solana_bridge_program.Runtime.{
  Pubkey, AccountInfo, Bank, ok, bind-ok, read, require, require-ok, next_account_info,
}
use solana_bridge_program.Shared.Error.{wrong_token_seed, wrong_token_account}
use solana_bridge_program.Shared.Calls.{call_create_account}
use solana_bridge_program.Shared.Instructions.Bridge.{SignedMetadata}
use solana_bridge_program.Env.{Env}
use solana_bridge_program.Bridge.Access.{open_bridge_admin}
use solana_bridge_program.Bridge.Mint.{process_create_collection}

-- What the system program documents: where no seeds are given, an account is created only if its
-- handle is a signer.
abbrev pub NewAccountSigns : Env → Type 0
NewAccountSigns env =
    (payer new system : AccountInfo) (owner : Pubkey) (lamports space : ℕ) (b b' : Bank)
    → env.invoke_signed (env.system_create_account payer.key new.key lamports space owner)
        (payer ∷ new ∷ system ∷ []) [] b
      ≡ ok (tt, b')
    → new.is_signer ≡ true

-- What the runtime documents: an address that the program derives has no private key, so a handle of
-- it that is given to the program is not a signer (only the program itself could sign for it).
abbrev pub NoAddressSigns : Env → Pubkey → List AccountInfo → Type 0
NoAddressSigns env program_id [] = Unit
NoAddressSigns env program_id (info ∷ infos) =
    ((seed : Bytes)
      → (env.find_program_address (seed ∷ []) program_id).0 ≡ info.key
      → info.is_signer ≡ false)
    × NoAddressSigns env program_id infos

true-false : true ≡ false → ⊥
true-false e = cc

module _ (env : Env) (law : NewAccountSigns env) where
  call_create_account_signs :
      (payer new rent system : AccountInfo) (space : ℕ) (owner : Pubkey) (b b' : Bank)
      → call_create_account env payer new rent system space owner [] b ≡ ok (tt, b')
      → new.is_signer ≡ true
  unfolding call_create_account
  call_create_account_signs payer new rent system space owner b b' e =
      let (lamports, b1, e1, f1) =
        bind-ok (read (env.rent_minimum_balance rent space)) _ {b = b} e in
      law payer new system owner lamports space b1 b' f1

  -- No collection is ever created: whatever the accounts handed over, the seeds and the metadata,
  -- the instruction does not succeed, because the mint must be the program's address for the token
  -- seed and its account is then created without seeds. Assumed: the system program creates an
  -- account without seeds only where its handle signs (`NewAccountSigns`), and no handle of an
  -- address that the program derives is a signer (`NoAddressSigns`).
  pub collection_never_created :
      (program_id : Pubkey) (infos : List AccountInfo) (seeds : Bytes) (meta : SignedMetadata)
      (token_seed : Bytes) (b b' : Bank)
      → NoAddressSigns env program_id infos
      → process_create_collection env program_id infos seeds meta token_seed b ≢ ok (tt, b')
  unfolding process_create_collection next_account_info
  collection_never_created program_id [] seeds meta token_seed b b' silent e = cc
  collection_never_created program_id (admin_info ∷ []) seeds meta token_seed b b' silent e = cc
  collection_never_created program_id (admin_info ∷ mint_info ∷ []) seeds meta token_seed b b'
        silent e =
      cc
  collection_never_created program_id (admin_info ∷ mint_info ∷ token_info ∷ []) seeds meta
        token_seed b b' silent e =
      cc
  collection_never_created program_id (admin_info ∷ mint_info ∷ token_info ∷ metadata_info ∷ [])
        seeds meta token_seed b b' silent e =
      cc
  collection_never_created program_id
        (admin_info ∷ mint_info ∷ token_info ∷ metadata_info ∷ payer_info ∷ []) seeds meta
        token_seed b b' silent e =
      cc
  collection_never_created program_id
        (admin_info ∷ mint_info ∷ token_info ∷ metadata_info ∷ payer_info ∷ token ∷ []) seeds meta
        token_seed b b' silent e =
      cc
  collection_never_created program_id
        (admin_info ∷ mint_info ∷ token_info ∷ metadata_info ∷ payer_info ∷ token ∷ metaplex ∷ [])
        seeds meta token_seed b b' silent e =
      cc
  collection_never_created program_id
        (admin_info ∷ mint_info ∷ token_info ∷ metadata_info ∷ payer_info ∷ token ∷ metaplex ∷ rent
          ∷ [])
        seeds meta token_seed b b' silent e =
      cc
  collection_never_created program_id
        (admin_info ∷ mint_info ∷ token_info ∷ metadata_info ∷ payer_info ∷ token ∷ metaplex ∷ rent
          ∷ system ∷ [])
        seeds meta token_seed b b' silent e =
      cc
  collection_never_created program_id
        (admin_info ∷ mint_info ∷ token_info ∷ metadata_info ∷ payer_info ∷ token ∷ metaplex ∷ rent
          ∷ system ∷ associated ∷ rest)
        seeds meta token_seed b b' silent e =
      let ((key, admin), b1, e1, f1) =
        bind-ok (open_bridge_admin env program_id seeds admin_info) _ {b = b} e in
      let test = bytes_eq token_info.key (env.get_associated_token_address key mint_info.key) in
      let (_, b2, e2, f2) = bind-ok (require test wrong_token_account) _ f1 in
      let derived = (env.find_program_address (token_seed ∷ []) program_id).0 in
      let (_, b3, e3, f3) =
        bind-ok (require (bytes_eq derived mint_info.key) wrong_token_seed) _ f2 in
      let (same, _) = require-ok (bytes_eq derived mint_info.key) wrong_token_seed e3 in
      let unsigned = silent.1.0 token_seed (bytes_eq→≡ derived mint_info.key same) in
      let create =
        call_create_account env payer_info mint_info rent system env.mint_len env.spl_token_id [] in
      let (_, b4, e4, f4) = bind-ok create _ f3 in
      let signs =
        call_create_account_signs payer_info mint_info rent system env.mint_len env.spl_token_id b3
          b4 e4 in
      true-false (sym signs ∙ unsigned)
