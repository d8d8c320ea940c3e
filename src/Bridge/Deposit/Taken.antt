-- ===== src/Bridge/Deposit/Taken.antt =====
-- What a deposit that succeeds has taken, and that its commission was charged.
use solana_bridge_program.Common.{
  ℕ, ◌≡◌, refl, none, some, Option, List, [], ◌∷◌, Bytes, bytes_eq, bytes_eq→≡, subst,
}
use solana_bridge_program.Runtime.{
  Pubkey, AccountInfo, Bank, M, ok, bind-ok, require, require-ok, ◌>>=◌, ◌>>◌,
}
use solana_bridge_program.Shared.Error.{wrong_token_seed}
use solana_bridge_program.Shared.Types.{TokenType}
use solana_bridge_program.Shared.Calls.{invoke}
use solana_bridge_program.Env.{Env}
use solana_bridge_program.Bridge.State.{BridgeAdmin}
use solana_bridge_program.Bridge.Access.{open_bridge_admin}
use solana_bridge_program.Bridge.Access.Opened.{Opened, open_bridge_admin-ok}
use solana_bridge_program.Bridge.Charge.{verify_commission_charged}
use solana_bridge_program.Bridge.Charge.Charged.{Charged, verify_commission_charged_sound}
use solana_bridge_program.Bridge.Token.{
  call_burn_token, call_transfer_token, ensure_associated_account,
}
use solana_bridge_program.Bridge.Deposit.{
  take_tokens, process_deposit_native, process_deposit_ft, process_deposit_nft,
}

module _ (env : Env) (program_id : Pubkey) (seeds : Bytes) where
  -- The checks of every deposit: the bridge admin, and the commission for the token and amount.
  pub record Admitted (bridge_info sysvar_info : AccountInfo) (token : TokenType) (amount : ℕ)
      (b : Bank) : Type 0 where
    pub admin : BridgeAdmin
    pub opened : Opened env program_id seeds bridge_info b admin
    pub charged : Charged env bridge_info sysvar_info admin token amount b

  abbrev admit : AccountInfo → AccountInfo → TokenType → ℕ → (Pubkey → M (Unit {0})) → M (Unit {0})
  admit bridge_info sysvar_info token amount k = do
    (key, admin) ← open_bridge_admin env program_id seeds bridge_info
    verify_commission_charged env bridge_info sysvar_info admin token amount
    k key

  admit-ok :
      (bridge_info sysvar_info : AccountInfo) (token : TokenType) (amount : ℕ)
      (k : Pubkey → M (Unit {0})) (b b' : Bank)
      → admit bridge_info sysvar_info token amount k b ≡ ok (tt, b')
      → Admitted bridge_info sysvar_info token amount b × (k bridge_info.key b ≡ ok (tt, b'))
  admit-ok bridge_info sysvar_info token amount k b b' e =
      let ((key, admin), b1, e1, f1) =
        bind-ok (open_bridge_admin env program_id seeds bridge_info) _ {b = b} e in
      let (b1-b, is_key, opened) = open_bridge_admin-ok env program_id seeds bridge_info e1 in
      let check = verify_commission_charged env bridge_info sysvar_info admin token amount in
      let (_, b2, e2, f2) = bind-ok check _ f1 in
      let (charged, b2-b) =
        verify_commission_charged_sound env bridge_info sysvar_info admin token amount b b2
          (subst (λ (c : Bank). check c ≡ ok (tt, b2)) b1-b e2) in
      (
        record { admin = admin; opened = opened; charged = charged },
        subst (λ (x : Pubkey). k x b ≡ ok (tt, b')) is_key
            (subst (λ (c : Bank). k key c ≡ ok (tt, b')) b2-b f2),
      )

  -- A deposit of SOL succeeds only for the initialised admin of the seeds, with the commission
  -- charged for SOL and this amount by the instruction before it, and all that it does is the
  -- transfer of the amount from the owner to the admin account.
  pub deposit_native_sound :
      (bridge_info owner_info system_program rent_info sysvar_info : AccountInfo)
      (rest : List AccountInfo) (network receiver : Bytes) (amount : ℕ) (b b' : Bank)
      → process_deposit_native env program_id
          (bridge_info ∷ owner_info ∷ system_program ∷ rent_info ∷ sysvar_info ∷ rest)
          seeds
          network
          receiver
          amount
          b
        ≡ ok (tt, b')
      → Admitted bridge_info sysvar_info TokenType.native amount b
        × (env.invoke_signed
              (env.system_transfer owner_info.key bridge_info.key amount)
              (owner_info ∷ bridge_info ∷ [])
              []
              b
            ≡ ok (tt, b'))
  unfolding process_deposit_native
  deposit_native_sound bridge_info owner_info system_program rent_info sysvar_info rest network
        receiver amount b b' e =
      admit-ok bridge_info sysvar_info TokenType.native amount
        (λ _.
          invoke env (env.system_transfer owner_info.key bridge_info.key amount)
            (owner_info ∷ bridge_info ∷ []))
        b b' e

  module _
      (bridge_info mint_info owner_token bridge_token owner_info token_program system_program
        rent_info sysvar_info associated_program : AccountInfo)
      (rest : List AccountInfo) (network receiver : Bytes) (token_seed : Option Bytes) where
    -- What became of the tokens: wrapped ones, whose mint is the program's address for the seed,
    -- were burnt, others went to the bridge's account.
    pub data Taken (amount : ℕ) (b b' : Bank) : Type 0 where
      burnt :
          (seed : Bytes)
          → token_seed ≡ some seed
          → (env.find_program_address (seed ∷ []) program_id).0 ≡ mint_info.key
          → call_burn_token env owner_token mint_info owner_info amount b ≡ ok (tt, b')
          → Taken amount b b'
      transferred :
          token_seed ≡ none
          → call_transfer_token env owner_token bridge_token owner_info amount [] b ≡ ok (tt, b')
          → Taken amount b b'

    take_tokens-ok :
        (seed : Option Bytes) (amount : ℕ) (b b' : Bank)
        → token_seed ≡ seed
        → take_tokens env program_id seed mint_info owner_token bridge_token owner_info amount b
          ≡ ok (tt, b')
        → Taken amount b b'
    unfolding take_tokens
    take_tokens-ok none amount b b' is e = transferred is e
    take_tokens-ok (some seed) amount b b' is e =
        let test = bytes_eq (env.find_program_address (seed ∷ []) program_id).0 mint_info.key in
        let (_, b1, e1, f1) = bind-ok (require test wrong_token_seed) _ {b = b} e in
        let (same, b1-b) = require-ok test wrong_token_seed e1 in
        burnt seed is
          (bytes_eq→≡ (env.find_program_address (seed ∷ []) program_id).0 mint_info.key same)
          (subst
            (λ (c : Bank).
              call_burn_token env owner_token mint_info owner_info amount c ≡ ok (tt, b'))
            b1-b f1)

    -- What a token deposit from `b` to `b'` was and did. In between, the bridge's token account
    -- was created if it was empty.
    pub record Deposited (token : TokenType) (amount : ℕ) (b b' : Bank) : Type 0 where
      pub admitted : Admitted bridge_info sysvar_info token amount b
      pub ensured : Bank
      pub ensure :
          ensure_associated_account env bridge_info.key owner_info bridge_info mint_info
            bridge_token rent_info system_program token_program b
          ≡ ok (tt, ensured)
      pub taken : Taken amount ensured b'

    abbrev ensure_and_take : ℕ → Pubkey → M (Unit {0})
    ensure_and_take amount key = do
      ensure_associated_account env key owner_info bridge_info mint_info bridge_token rent_info
          system_program token_program
      take_tokens env program_id token_seed mint_info owner_token bridge_token owner_info amount

    deposit_ok :
        (token : TokenType) (amount : ℕ) (b b' : Bank)
        → admit bridge_info sysvar_info token amount (ensure_and_take amount) b ≡ ok (tt, b')
        → Deposited token amount b b'
    deposit_ok token amount b b' e =
        let (admitted, f) =
          admit-ok bridge_info sysvar_info token amount (ensure_and_take amount) b b' e in
        let (_, b1, e1, f1) =
          bind-ok
            (ensure_associated_account env bridge_info.key owner_info bridge_info mint_info
              bridge_token rent_info system_program token_program)
            _ {b = b} f in
        record {
          admitted = admitted;
          ensured = b1;
          ensure = e1;
          taken = take_tokens-ok token_seed amount b1 b' refl f1;
        }

    abbrev infos : List AccountInfo
    infos =
        bridge_info ∷ mint_info ∷ owner_token ∷ bridge_token ∷ owner_info ∷ token_program
        ∷ system_program ∷ rent_info ∷ sysvar_info ∷ associated_program ∷ rest

    pub deposit_ft_sound :
        (amount : ℕ) (b b' : Bank)
        → process_deposit_ft env program_id infos seeds network receiver amount token_seed b
          ≡ ok (tt, b')
        → Deposited TokenType.ft amount b b'
    unfolding process_deposit_ft
    deposit_ft_sound amount b b' e = deposit_ok TokenType.ft amount b b' e

    pub deposit_nft_sound :
        (b b' : Bank)
        → process_deposit_nft env program_id infos seeds network receiver token_seed b ≡ ok (tt, b')
        → Deposited TokenType.nft 1 b b'
    unfolding process_deposit_nft
    deposit_nft_sound b b' e = deposit_ok TokenType.nft 1 b b' e
