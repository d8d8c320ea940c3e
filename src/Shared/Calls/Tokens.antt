-- ===== src/Shared/Calls/Tokens.antt =====
-- What the calls of lib/src/lib.rs and of the two processors that move tokens, mint them and create
-- associated accounts did where they succeed: the instruction that was invoked, with its accounts
-- and signers.
use solana_bridge_program.Common.{
  ℕ, ◌≡◌, true, false, List, [], ◌∷◌, Bytes, length, ◌==◌, Bool-cases, inl, inr, arith, subst,
}
use solana_bridge_program.Runtime.{
  AccountInfo, Instruction, Bank, Result, ok, bind-ok, lift, lift-ok, when, ◌>>=◌,
}
use solana_bridge_program.Env.{Env}
use solana_bridge_program.Shared.Calls.{call_create_associated_account}

-- An instruction that the caller built, as `r`, was invoked with these accounts and signers.
pub record Invoked (env : Env) (r : Result Instruction) (infos : List AccountInfo)
    (signers : List (List Bytes)) (b b' : Bank) : Type 0 where
  pub instruction : Instruction
  pub built : r ≡ ok instruction
  pub run : env.invoke_signed instruction infos signers b ≡ ok (tt, b')

-- The transfer of the amount between two token accounts was invoked.
abbrev pub Moved :
    Env → AccountInfo → AccountInfo → AccountInfo → ℕ → List (List Bytes) → Bank → Bank → Type 0
Moved env from to authority amount signers =
    Invoked env (env.token_transfer from.key to.key authority.key amount)
      (from ∷ to ∷ authority ∷ []) signers

module _ (env : Env) where
  pub build_and_invoke-ok :
      (r : Result Instruction) (infos : List AccountInfo) (signers : List (List Bytes))
      (b b' : Bank)
      → (lift r >>= (λ ix. env.invoke_signed ix infos signers)) b ≡ ok (tt, b')
      → Invoked env r infos signers b b'
  build_and_invoke-ok r infos signers b b' e =
      let (ix, b1, e1, f1) =
        bind-ok (lift r) (λ ix. env.invoke_signed ix infos signers) {b = b} e in
      let (is, b1-b) = lift-ok r e1 in
      record {
        instruction = ix;
        built = is;
        run = subst (λ (c : Bank). env.invoke_signed ix infos signers c ≡ ok (tt, b')) b1-b f1;
      }

  -- The associated account held data and nothing happened, or it was empty and was created for the
  -- wallet and the mint.
  pub data Provided (payer wallet mint associated rent system token : AccountInfo) (b b' : Bank)
      : Type 0 where
    there :
        length (b associated.key).data_bytes == 0 ≡ false
        → b' ≡ b
        → Provided payer wallet mint associated rent system token b b'
    created :
        length (b associated.key).data_bytes == 0 ≡ true
        → env.invoke_signed
            (env.create_associated_token_account payer.key wallet.key mint.key)
            (payer ∷ associated ∷ wallet ∷ mint ∷ system ∷ token ∷ rent ∷ [])
            []
            b
          ≡ ok (tt, b')
        → Provided payer wallet mint associated rent system token b b'

  pub when_empty-ok :
      (payer wallet mint associated rent system token : AccountInfo) (b b' : Bank)
      → when
          (length (b associated.key).data_bytes == 0)
          (call_create_associated_account env payer wallet mint associated rent system token)
          b
        ≡ ok (tt, b')
      → Provided payer wallet mint associated rent system token b b'
  unfolding call_create_associated_account
  when_empty-ok payer wallet mint associated rent system token b b' e =
      let create =
        call_create_associated_account env payer wallet mint associated rent system token in
      elim (Bool-cases (length (b associated.key).data_bytes == 0)) [
        | inl empty ↦ created empty (subst (λ t. when t create b ≡ ok (tt, b')) empty e)
        | inr full ↦
            let e' = subst (λ t. when t create b ≡ ok (tt, b')) full e in there full (ground arith)
      ]
