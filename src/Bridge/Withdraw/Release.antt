-- ===== src/Bridge/Withdraw/Release.antt =====
-- What the end of a token withdrawal released.
use solana_bridge_program.Common.{
  ℕ, ◌≡◌, none, some, Option, [], ◌∷◌, Bytes, bytes_eq, bytes_eq→≡, subst, arith,
}
use solana_bridge_program.Runtime.{
  Pubkey, AccountInfo, Bank, ok, bind-ok, lift-ok, require, require-ok,
}
use solana_bridge_program.Shared.Error.{wrong_token_account}
use solana_bridge_program.Shared.Calls.Tokens.{
  Invoked, Moved, Provided, build_and_invoke-ok, when_empty-ok,
}
use solana_bridge_program.Env.{Env}
use solana_bridge_program.Bridge.Token.{
  call_mint_to, call_transfer_token, ensure_associated_account,
}
use solana_bridge_program.Bridge.Withdraw.{read_token_amount, mint_missing, release_tokens}

module _ (env : Env)
    (admin_info mint_info owner_info owner_token bridge_token rent system token : AccountInfo)
    (seeds : Bytes) where
  -- Tokens were minted to the bridge's account, the admin signing with its seeds, or none were.
  abbrev pub MintedTo : Option ℕ → Bank → Bank → Type 0
  MintedTo none b b' = b' ≡ b
  MintedTo (some n) b b' =
      Invoked env (env.token_mint_to mint_info.key bridge_token.key admin_info.key n)
        (mint_info ∷ bridge_token ∷ admin_info ∷ []) ((seeds ∷ []) ∷ []) b b'

  -- The release of the amount from `b` to `b'`: the two token accounts are the associated ones of
  -- the admin and of the owner, created where they were empty; what the bridge's account lacked was
  -- minted to it; then the amount was transferred from it to the owner's account, the admin signing
  -- with its seeds.
  pub record Payout (amount : ℕ) (missing : ℕ → Option ℕ) (b b' : Bank) : Type 0 where
    pub bridge_address :
        bridge_token.key ≡ env.get_associated_token_address admin_info.key mint_info.key
    pub owner_address :
        owner_token.key ≡ env.get_associated_token_address owner_info.key mint_info.key
    pub bridge_ready : Bank
    pub bridge_provided :
        Provided env owner_info admin_info mint_info bridge_token rent system token b bridge_ready
    pub held : ℕ
    pub holds : env.unpack_account (bridge_ready bridge_token.key).data_bytes ≡ ok held
    pub owner_ready : Bank
    pub owner_provided :
        Provided env owner_info owner_info mint_info owner_token rent system token bridge_ready
          owner_ready
    pub supplied : Bank
    pub supply : MintedTo (missing held) owner_ready supplied
    pub moved : Moved env bridge_token owner_token admin_info amount ((seeds ∷ []) ∷ []) supplied b'

  ensure-ok :
      (wallet_key : Pubkey) (payer wallet associated : AccountInfo) (b b' : Bank)
      → ensure_associated_account env wallet_key payer wallet mint_info associated rent system token
          b
        ≡ ok (tt, b')
      → (associated.key ≡ env.get_associated_token_address wallet_key mint_info.key)
        × Provided env payer wallet mint_info associated rent system token b b'
  unfolding ensure_associated_account
  ensure-ok wallet_key payer wallet associated b b' e =
      let address = env.get_associated_token_address wallet_key mint_info.key in
      let test = bytes_eq associated.key address in
      let (_, b1, e1, f1) = bind-ok (require test wrong_token_account) _ {b = b} e in
      let (same, b1-b) = require-ok test wrong_token_account e1 in
      (
        bytes_eq→≡ associated.key address same,
        subst (λ (c : Bank). Provided env payer wallet mint_info associated rent system token c b')
            b1-b (when_empty-ok env payer wallet mint_info associated rent system token b1 b' f1),
      )

  mint_missing-ok :
      (lacking : Option ℕ) (b b' : Bank)
      → mint_missing env mint_info bridge_token admin_info seeds lacking b ≡ ok (tt, b')
      → MintedTo lacking b b'
  unfolding mint_missing call_mint_to
  mint_missing-ok none b b' e = ground arith
  mint_missing-ok (some n) b b' e =
      build_and_invoke-ok env (env.token_mint_to mint_info.key bridge_token.key admin_info.key n) _
        _ b b' e

  pub release_tokens-Payout :
      (amount : ℕ) (missing : ℕ → Option ℕ) (b b' : Bank)
      → release_tokens env admin_info.key admin_info mint_info owner_info owner_token bridge_token
          rent system token seeds amount missing b
        ≡ ok (tt, b')
      → Payout amount missing b b'
  unfolding release_tokens read_token_amount call_transfer_token
  release_tokens-Payout amount missing b b' e =
      let (_, b1, e1, f1) =
        bind-ok
          (ensure_associated_account env admin_info.key owner_info admin_info mint_info bridge_token
            rent system token)
          _ {b = b} e in
      let (is_bridge, bridge) =
        ensure-ok admin_info.key owner_info admin_info bridge_token b b1 e1 in
      let (held, b2, e2, f2) = bind-ok (read_token_amount env bridge_token) _ {b = b1} f1 in
      let (holds, b2-b1) = lift-ok (env.unpack_account (b1 bridge_token.key).data_bytes) e2 in
      let provide =
        ensure_associated_account env owner_info.key owner_info owner_info mint_info owner_token
          rent system token in
      let (_, b3, e3, f3) = bind-ok provide _ {b = b2} f2 in
      let (is_owner, owner) =
        ensure-ok owner_info.key owner_info owner_info owner_token b1 b3
          (subst (λ (c : Bank). provide c ≡ ok (tt, b3)) b2-b1 e3) in
      let (_, b4, e4, f4) =
        bind-ok (mint_missing env mint_info bridge_token admin_info seeds (missing held)) _ {b = b3}
          f3 in
      record {
        bridge_address = is_bridge;
        owner_address = is_owner;
        bridge_ready = b1;
        bridge_provided = bridge;
        held = held;
        holds = holds;
        owner_ready = b3;
        owner_provided = owner;
        supplied = b4;
        supply = mint_missing-ok (missing held) b3 b4 e4;
        moved =
            build_and_invoke-ok env
              (env.token_transfer bridge_token.key owner_token.key admin_info.key amount) _ _ b4 b'
              f4;
      }
