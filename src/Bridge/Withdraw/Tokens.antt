-- ===== src/Bridge/Withdraw/Tokens.antt =====
-- The withdrawals of fungible and non-fungible tokens.
use solana_bridge_program.Common.{
  ℕ, ◌-◌, ◌≡◌, some, none, Option, List, ◌∷◌, Bytes, ltb, if◌then◌else◌, ◌∙◌, subst, bytes_eq,
  bytes_eq→≡,
}
use solana_bridge_program.Runtime.{
  M, ◌>>=◌, ◌>>◌, Bank, AccountInfo, Pubkey, ok, require, require-ok, bind-ok, lift, lift-ok,
}
use solana_bridge_program.Env.{Env, IsLawful, Metadata}
use solana_bridge_program.Shared.Error.{wrong_metadata_account}
use solana_bridge_program.Shared.Types.{TokenType}
use solana_bridge_program.Shared.Instructions.Bridge.{SignedMetadata}
use solana_bridge_program.Bridge.State.{BridgeAdmin, Withdraw}
use solana_bridge_program.Bridge.Access.{open_bridge_admin}
use solana_bridge_program.Bridge.Access.Opened.{Opened, open_bridge_admin-ok}
use solana_bridge_program.Bridge.Content.{TransferData, new_ft_transfer}
use solana_bridge_program.Bridge.Mint.{mint_if_seeded}
use solana_bridge_program.Bridge.Record.{
  create_withdraw_account, init_withdraw_account, filled_withdraw,
}
use solana_bridge_program.Bridge.Withdraw.{
  trim_matches, verify_content, read_metadata, release_tokens, read_collection, process_withdraw_ft,
}
use solana_bridge_program.Bridge.Withdraw.Release.{Payout, release_tokens-Payout}
use solana_bridge_program.Bridge.Withdraw.Signed.{
  IsSized, IsSigned, verify_content-ok, init_withdraw_account-ok,
}

module _ (env : Env) (program_id : Pubkey)
    (admin_info mint_info metadata_info owner_info owner_token bridge_token withdraw_info token
      system rent metaplex associated : AccountInfo)
    (rest : List AccountInfo) (seeds signature : Bytes) (recovery_id : ℕ) (path : List Bytes)
    (origin : Bytes) (token_seed : Option Bytes) (signed_meta : Option SignedMetadata) where
  abbrev infos : List AccountInfo
  infos =
      admin_info ∷ mint_info ∷ metadata_info ∷ owner_info ∷ owner_token ∷ bridge_token
      ∷ withdraw_info ∷ token ∷ system ∷ rent ∷ metaplex ∷ associated ∷ rest

  -- What a token withdrawal from `b` to `b'` was and did, with what was signed, paid out and
  -- recorded. The mint and the metadata are read in the state `minted`, after a wrapped token was
  -- created.
  pub record Released (transfer : TransferData) (filled : Withdraw) (amount : ℕ)
      (missing : ℕ → Option ℕ) (b minted b' : Bank) : Type 0 where
    pub admin : BridgeAdmin
    pub opened : Opened env program_id seeds admin_info b admin
    pub metadata_key : metadata_info.key ≡ env.find_pda mint_info.key
    pub mint :
        mint_if_seeded env program_id admin_info token_seed signed_meta mint_info metadata_info
          owner_info rent system seeds b
        ≡ ok (tt, minted)
    pub signed :
        IsSigned env program_id origin owner_info.key transfer path signature recovery_id
          admin.public_key
    pub released : Bank
    pub transferred :
        release_tokens env admin_info.key admin_info mint_info owner_info owner_token bridge_token
          rent system token seeds amount missing minted
        ≡ ok (tt, released)
    pub payout :
        Payout env admin_info mint_info owner_info owner_token bridge_token rent system token seeds
          amount missing minted released
    pub created : Bank
    pub creation :
        create_withdraw_account env program_id origin owner_info withdraw_info rent system released
        ≡ ok (tt, created)
    pub recorded : env.withdraw.deserialize (b' withdraw_info.key).data_bytes ≡ some filled

  read_metadata-ok :
      (info : AccountInfo) {b : Bank} {r : Metadata × Bank}
      → read_metadata env info b ≡ ok r
      → (env.metadata_from_bytes (b info.key).data_bytes ≡ ok r.0) × (r.1 ≡ b)
  unfolding read_metadata
  read_metadata-ok info {b} {r} e = lift-ok (env.metadata_from_bytes (b info.key).data_bytes) e

  -- The start of both handlers.
  abbrev start : (Pubkey → BridgeAdmin → M (Unit {0})) → M (Unit {0})
  start k = do
    (key, admin) ← open_bridge_admin env program_id seeds admin_info
    require (bytes_eq metadata_info.key (env.find_pda mint_info.key)) wrong_metadata_account
    mint_if_seeded env program_id admin_info token_seed signed_meta mint_info metadata_info
        owner_info rent system seeds
    k key admin

  start-ok :
      (k : Pubkey → BridgeAdmin → M (Unit {0})) (b b' : Bank)
      → start k b ≡ ok (tt, b')
      → (admin : BridgeAdmin) × (minted : Bank) × Opened env program_id seeds admin_info b admin
        × (metadata_info.key ≡ env.find_pda mint_info.key)
        × (mint_if_seeded env program_id admin_info token_seed signed_meta mint_info metadata_info
              owner_info rent system seeds b
            ≡ ok (tt, minted))
        × (k admin_info.key admin minted ≡ ok (tt, b'))
  start-ok k b b' e =
      let ((key, admin), b1, e1, f1) =
        bind-ok (open_bridge_admin env program_id seeds admin_info) _ {b = b} e in
      let (b1-b, is_key, opened) = open_bridge_admin-ok env program_id seeds admin_info e1 in
      let test = bytes_eq metadata_info.key (env.find_pda mint_info.key) in
      let (_, b2, e2, f2) = bind-ok (require test wrong_metadata_account) _ f1 in
      let (is_pda, b2-b1) = require-ok test wrong_metadata_account e2 in
      let mint =
        mint_if_seeded env program_id admin_info token_seed signed_meta mint_info metadata_info
          owner_info rent system seeds in
      let (_, b3, e3, f3) = bind-ok mint _ f2 in
      (
        admin,
        b3,
        opened,
        bytes_eq→≡ metadata_info.key (env.find_pda mint_info.key) is_pda,
        subst (λ (c : Bank). mint c ≡ ok (tt, b3)) (b2-b1 ∙ b1-b) e3,
        subst (λ (x : Pubkey). k x admin b3 ≡ ok (tt, b')) is_key f3,
      )

  -- The end of both handlers.
  abbrev finish : TransferData → Withdraw → ℕ → (ℕ → Option ℕ) → Pubkey → BridgeAdmin → M (Unit {0})
  finish transfer filled amount missing key admin = do
    verify_content env program_id origin owner_info.key transfer path signature recovery_id
        admin.public_key
    release_tokens env key admin_info mint_info owner_info owner_token bridge_token rent system
        token seeds amount missing
    create_withdraw_account env program_id origin owner_info withdraw_info rent system
    init_withdraw_account env withdraw_info filled

  finish-ok :
      (transfer : TransferData) (filled : Withdraw) (amount : ℕ) (missing : ℕ → Option ℕ)
      (admin : BridgeAdmin) (b minted m b' : Bank)
      → IsLawful IsSized env.withdraw
      → IsSized filled
      → Opened env program_id seeds admin_info b admin
      → metadata_info.key ≡ env.find_pda mint_info.key
      → mint_if_seeded env program_id admin_info token_seed signed_meta mint_info metadata_info
          owner_info rent system seeds b
        ≡ ok (tt, minted)
      → m ≡ minted
      → finish transfer filled amount missing admin_info.key admin m ≡ ok (tt, b')
      → Released transfer filled amount missing b minted b'
  finish-ok transfer filled amount missing admin b minted m b' law sized opened is_pda mint same e =
      let check =
        verify_content env program_id origin owner_info.key transfer path signature recovery_id
          admin.public_key in
      let release =
        release_tokens env admin_info.key admin_info mint_info owner_info owner_token bridge_token
          rent system token seeds amount missing in
      let (_, b1, e1, f1) = bind-ok check _ {b = m} e in
      let (signed, b1-m) =
        verify_content-ok env program_id origin owner_info.key transfer path signature recovery_id
          admin.public_key e1 in
      let (_, b2, e2, f2) = bind-ok release _ f1 in
      let (_, b3, e3, f3) =
        bind-ok (create_withdraw_account env program_id origin owner_info withdraw_info rent system)
          _ f2 in
      let run = subst (λ (c : Bank). release c ≡ ok (tt, b2)) (b1-m ∙ same) e2 in
      record {
        admin = admin;
        opened = opened;
        metadata_key = is_pda;
        mint = mint;
        signed = signed;
        released = b2;
        transferred = run;
        payout =
            release_tokens-Payout env admin_info mint_info owner_info owner_token bridge_token rent
              system token seeds amount missing minted b2 run;
        created = b3;
        creation = e3;
        recorded = (init_withdraw_account-ok env withdraw_info filled b3 b' law sized f3).0;
      }

  -- A withdrawal of fungible tokens that succeeds was signed with the key of the initialised admin
  -- of the seeds, for this origin, owner, program, mint and amount, and for the decimals and the
  -- trimmed name, symbol and address that the mint and its metadata account hold. Then the token
  -- program was invoked to mint to the bridge's associated account what that account lacked of the
  -- amount, if anything, and to transfer the amount from it to the owner's associated account, both
  -- signed with the seeds of the bridge. The withdraw account, which was created after that, holds
  -- the record. Assumed: the record's codec is lawful and its fields have their sizes.
  pub withdraw_ft_sound :
      (amount : ℕ) (b b' : Bank)
      → IsLawful IsSized env.withdraw
      → IsSized (filled_withdraw TokenType.ft origin (some mint_info.key) amount owner_info.key)
      → process_withdraw_ft env program_id infos seeds signature recovery_id path origin amount
          token_seed signed_meta b
        ≡ ok (tt, b')
      → (minted : Bank) × (metadata : Metadata) × (decimals : ℕ) × (env.metadata_from_bytes
            (minted metadata_info.key).data_bytes
          ≡ ok metadata)
        × (env.unpack_mint (minted mint_info.key).data_bytes ≡ ok decimals)
        × Released
            (new_ft_transfer mint_info.key amount
              (trim_matches metadata.name)
              (trim_matches metadata.symbol)
              (trim_matches metadata.uri)
              decimals)
            (filled_withdraw TokenType.ft origin (some mint_info.key) amount owner_info.key)
            amount
            (λ held. if ltb held amount then some (amount - held) else none)
            b
            minted
            b'
  unfolding process_withdraw_ft
  withdraw_ft_sound amount b b' law sized e =
      let (admin, b3, opened, is_pda, mint, f3) = start-ok _ b b' e in
      let (metadata, b4, e4, f4) = bind-ok (read_metadata env metadata_info) _ {b = b3} f3 in
      let (is_metadata, b4-b3) = read_metadata-ok metadata_info e4 in
      let unpacked = env.unpack_mint (b4 mint_info.key).data_bytes in
      let (decimals, b5, e5, f5) = bind-ok (lift unpacked) _ {b = b4} f4 in
      let (is_mint, b5-b4) = lift-ok unpacked e5 in
      (
        b3,
        metadata,
        decimals,
        is_metadata,
        subst (λ (c : Bank). env.unpack_mint (c mint_info.key).data_bytes ≡ ok decimals) b4-b3
            is_mint,
        finish-ok _ _ amount _ admin b b3 b5 b' law sized opened is_pda mint (b5-b4 ∙ b4-b3) f5,
      )

  -- The name, symbol and collection that are signed for an NFT: those of the collection's metadata
  -- account, which must be the next account, if the NFT has a collection, and its own otherwise.
  abbrev pub IsNamed : Bank → Metadata → Bytes → Bytes → Option Bytes → Type 0
  IsNamed b metadata name symbol collection =
      read_collection env metadata rest metadata.collection b ≡ ok ((name, symbol, collection), b)
