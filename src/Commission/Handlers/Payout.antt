-- ===== src/Commission/Handlers/Payout.antt =====
-- What the payment of a withdrawal of commission moved.
use solana_bridge_program.Common.{
  ℕ, ◌≡◌, refl, true, false, List, [], ◌∷◌, bytes_eq, bytes_eq→≡, subst, ◌∙◌, length, ◌==◌,
  Bool-cases, inl, inr, arith,
}
use solana_bridge_program.Runtime.{
  Pubkey, AccountInfo, Bank, ok, bind-ok, require, require-ok, next_account_info,
}
use solana_bridge_program.Shared.Error.{wrong_token_account}
use solana_bridge_program.Shared.Types.{CommissionToken as CommissionTokenKind}
use solana_bridge_program.Shared.Calls.{call_create_associated_account}
use solana_bridge_program.Shared.Calls.Tokens.{Moved, build_and_invoke-ok}
use solana_bridge_program.Env.{Env}
use solana_bridge_program.Commission.Access.{admin_seeds}
use solana_bridge_program.Commission.Payments.{
  call_transfer_native, call_transfer_ft, create_if_empty, pay_token,
}

module _ (env : Env) (info bridge_info receiver_info system_program rent_info : AccountInfo) where
  -- The receiver's associated account held data and nothing happened, or it was empty, and was
  -- created for the mint whose handle comes next.
  pub data ReceiverProvided (token_program receiver_token : AccountInfo) (others : List AccountInfo)
      (b b' : Bank) : Type 0 where
    there :
        length (b receiver_token.key).data_bytes == 0 ≡ false
        → b' ≡ b
        → ReceiverProvided token_program receiver_token others b b'
    created :
        (mint_info : AccountInfo) (after : List AccountInfo)
        → length (b receiver_token.key).data_bytes == 0 ≡ true
        → others ≡ mint_info ∷ after
        → env.invoke_signed
            (env.create_associated_token_account receiver_info.key receiver_info.key mint_info.key)
            (receiver_info ∷ receiver_token ∷ receiver_info ∷ mint_info ∷ system_program
              ∷ token_program ∷ rent_info ∷ [])
            []
            b
          ≡ ok (tt, b')
        → ReceiverProvided token_program receiver_token others b b'

  -- The commission admin paid the amount in the token to the receiver from `b` to `b'`, signing
  -- with its own seeds: SOL from its account to the receiver's, fungible tokens from its associated
  -- account to the receiver's, which was created if it was empty.
  pub data PaidOut (rest : List AccountInfo) (amount : ℕ) (token : CommissionTokenKind)
      (b b' : Bank) : Type 0 where
    in_sol :
        token ≡ CommissionTokenKind.native
        → env.invoke_signed
            (env.system_transfer info.key receiver_info.key amount)
            (info ∷ receiver_info ∷ [])
            (admin_seeds env bridge_info ∷ [])
            b
          ≡ ok (tt, b')
        → PaidOut rest amount token b b'
    in_tokens :
        (mint : Pubkey) (token_program receiver_token commission_token : AccountInfo)
        (others : List AccountInfo) (provided : Bank)
        → token ≡ CommissionTokenKind.ft mint
        → rest ≡ token_program ∷ receiver_token ∷ commission_token ∷ others
        → commission_token.key ≡ env.get_associated_token_address info.key mint
        → receiver_token.key ≡ env.get_associated_token_address receiver_info.key mint
        → ReceiverProvided token_program receiver_token others b provided
        → Moved env commission_token receiver_token info amount
            (admin_seeds env bridge_info ∷ [])
            provided
            b'
        → PaidOut rest amount token b b'

  create_if_empty-ok :
      (token_program receiver_token : AccountInfo) (others : List AccountInfo) (b b' : Bank)
      → create_if_empty env receiver_info receiver_info receiver_token rent_info system_program
          token_program others b
        ≡ ok (tt, b')
      → ReceiverProvided token_program receiver_token others b b'
  unfolding create_if_empty next_account_info call_create_associated_account
  create_if_empty-ok token_program receiver_token [] b b' e =
      elim (Bool-cases (length (b receiver_token.key).data_bytes == 0)) [
        | inl empty ↦ ground arith
        | inr full ↦ there full (ground arith)
      ]
  create_if_empty-ok token_program receiver_token (mint_info ∷ after) b b' e =
      elim (Bool-cases (length (b receiver_token.key).data_bytes == 0)) [
        | inl empty ↦ created mint_info after empty refl (ground arith)
        | inr full ↦ there full (ground arith)
      ]

  pub pay_token-PaidOut :
      (rest : List AccountInfo) (amount : ℕ) (token : CommissionTokenKind) (b b' : Bank)
      → pay_token env info.key info bridge_info receiver_info system_program rent_info rest amount
          token b
        ≡ ok (tt, b')
      → PaidOut rest amount token b b'
  unfolding pay_token next_account_info call_transfer_native call_transfer_ft
  pay_token-PaidOut rest amount CommissionTokenKind.native b b' e = in_sol refl e
  pay_token-PaidOut [] amount (CommissionTokenKind.ft mint) b b' e = cc
  pay_token-PaidOut (x ∷ []) amount (CommissionTokenKind.ft mint) b b' e = cc
  pay_token-PaidOut (x ∷ y ∷ []) amount (CommissionTokenKind.ft mint) b b' e = cc
  pay_token-PaidOut (x ∷ y ∷ z ∷ rest) amount (CommissionTokenKind.ft mint) b b' e =
      let from_key = env.get_associated_token_address info.key mint in
      let to_key = env.get_associated_token_address receiver_info.key mint in
      let (_, b1, e1, f1) =
        bind-ok (require (bytes_eq z.key from_key) wrong_token_account) _ {b = b} e in
      let (is_from, b1-b) = require-ok (bytes_eq z.key from_key) wrong_token_account e1 in
      let (_, b2, e2, f2) =
        bind-ok (require (bytes_eq y.key to_key) wrong_token_account) _ {b = b1} f1 in
      let (is_to, b2-b1) = require-ok (bytes_eq y.key to_key) wrong_token_account e2 in
      let create =
        create_if_empty env receiver_info receiver_info y rent_info system_program x rest in
      let (_, b3, e3, f3) = bind-ok create _ f2 in
      in_tokens mint x y z rest b3 refl refl (bytes_eq→≡ z.key from_key is_from)
        (bytes_eq→≡ y.key to_key is_to)
        (create_if_empty-ok x y rest b b3
          (subst (λ (c : Bank). create c ≡ ok (tt, b3)) (b2-b1 ∙ b1-b) e3))
        (build_and_invoke-ok env (env.token_transfer z.key y.key info.key amount) _ _ b3 b' f3)
  pay_token-PaidOut rest amount (CommissionTokenKind.nft mint) b b' e = cc
