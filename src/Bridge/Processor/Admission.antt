-- ===== src/Bridge/Processor/Admission.antt =====
-- Every deposit passes the checks of the bridge admin and of the commission.
use mathlib.Core.Option.{some-injective}
use solana_bridge_program.Common.{ℕ, ◌≡◌, none, some, Option, List, [], ◌∷◌, Bytes, subst}
use solana_bridge_program.Runtime.{
  Pubkey, AccountInfo, Bank, ok, bind-ok, lift, lift-ok, next_account_info,
}
use solana_bridge_program.Env.{Env}
use solana_bridge_program.Shared.Types.{TokenType}
use solana_bridge_program.Shared.Instructions.Bridge.{
  BridgeInstruction, deposit_native, deposit_ft, deposit_nft, validate_deposit_native,
  validate_deposit_ft, validate_deposit_nft,
}
use solana_bridge_program.Bridge.Deposit.{
  process_deposit_native, process_deposit_ft, process_deposit_nft,
}
use solana_bridge_program.Bridge.Deposit.Taken.{
  Admitted, deposit_native_sound, deposit_ft_sound, deposit_nft_sound,
}
use solana_bridge_program.Bridge.Processor.{dispatch}

-- The kind of token that an instruction deposits, and the amount.
abbrev pub deposited : BridgeInstruction → Option (TokenType × ℕ)
deposited (deposit_native args) = some (TokenType.native, args.amount)
deposited (deposit_ft args) = some (TokenType.ft, args.amount)
deposited (deposit_nft args) = some (TokenType.nft, 1)
deposited _ = none

module _ (env : Env) (program_id : Pubkey) (b b' : Bank) where
  native-Admitted :
      (bridge_info : AccountInfo) (rest : List AccountInfo) (seeds network receiver : Bytes)
      (amount : ℕ)
      → process_deposit_native env program_id (bridge_info ∷ rest) seeds network receiver amount b
        ≡ ok (tt, b')
      → (sysvar : AccountInfo) × Admitted env program_id seeds bridge_info sysvar TokenType.native
          amount b
  unfolding process_deposit_native next_account_info
  native-Admitted i (o ∷ s ∷ r ∷ v ∷ rest) seeds network receiver amount e = (
    v,
    (deposit_native_sound env program_id seeds i o s r v rest network receiver amount b b' e).0,
  )
  native-Admitted i (o ∷ s ∷ r ∷ []) seeds network receiver amount e = cc
  native-Admitted i (o ∷ s ∷ []) seeds network receiver amount e = cc
  native-Admitted i (o ∷ []) seeds network receiver amount e = cc
  native-Admitted i [] seeds network receiver amount e = cc

  ft-Admitted :
      (bridge_info : AccountInfo) (rest : List AccountInfo) (seeds network receiver : Bytes)
      (amount : ℕ) (token_seed : Option Bytes)
      → process_deposit_ft env program_id
          (bridge_info ∷ rest)
          seeds
          network
          receiver
          amount
          token_seed
          b
        ≡ ok (tt, b')
      → (sysvar : AccountInfo) × Admitted env program_id seeds bridge_info sysvar TokenType.ft
          amount b
  unfolding process_deposit_ft next_account_info
  ft-Admitted i (m ∷ o ∷ t ∷ w ∷ p ∷ s ∷ r ∷ v ∷ a ∷ rest) seeds network receiver amount seed e = (
    v,
    (deposit_ft_sound env program_id seeds i m o t w p s r v a rest network receiver seed amount b
        b' e).admitted,
  )
  ft-Admitted i _ seeds network receiver amount seed e = cc

  nft-Admitted :
      (bridge_info : AccountInfo) (rest : List AccountInfo) (seeds network receiver : Bytes)
      (token_seed : Option Bytes)
      → process_deposit_nft env program_id (bridge_info ∷ rest) seeds network receiver token_seed b
        ≡ ok (tt, b')
      → (sysvar : AccountInfo) × Admitted env program_id seeds bridge_info sysvar TokenType.nft 1 b
  unfolding process_deposit_nft next_account_info
  nft-Admitted i (m ∷ o ∷ t ∷ w ∷ p ∷ s ∷ r ∷ v ∷ a ∷ rest) seeds network receiver seed e = (
    v,
    (deposit_nft_sound env program_id seeds i m o t w p s r v a rest network receiver seed b b'
        e).admitted,
  )
  nft-Admitted i _ seeds network receiver seed e = cc

  pub dispatch-Admitted :
      (bridge_info : AccountInfo) (rest : List AccountInfo) (i : BridgeInstruction)
      (token : TokenType) (amount : ℕ)
      → deposited i ≡ some (token, amount)
      → dispatch env program_id (bridge_info ∷ rest) i b ≡ ok (tt, b')
      → (seeds : Bytes) × (sysvar : AccountInfo) × Admitted env program_id seeds bridge_info sysvar
          token amount b
  unfolding dispatch
  dispatch-Admitted info rest (deposit_native args) token amount is e =
      let check = validate_deposit_native args in
      let (_, b1, e1, f1) = bind-ok (lift check) _ {b = b} e in
      let (_, b1-b) = lift-ok check e1 in
      let run =
        process_deposit_native env program_id (info ∷ rest) args.seeds args.network_to
          args.receiver_address args.amount in
      let (sysvar, admitted) =
        native-Admitted info rest args.seeds args.network_to args.receiver_address args.amount
          (subst (λ (c : Bank). run c ≡ ok (tt, b')) b1-b f1) in
      let same = some-injective (TokenType.native, args.amount) (token, amount) is in
      (
        args.seeds,
        sysvar,
        subst (λ (p : TokenType × ℕ). Admitted env program_id args.seeds info sysvar p.0 p.1 b) same
            admitted,
      )
  dispatch-Admitted info rest (deposit_ft args) token amount is e =
      let check = validate_deposit_ft args in
      let (_, b1, e1, f1) = bind-ok (lift check) _ {b = b} e in
      let (_, b1-b) = lift-ok check e1 in
      let run =
        process_deposit_ft env program_id (info ∷ rest) args.seeds args.network_to
          args.receiver_address args.amount args.token_seed in
      let (sysvar, admitted) =
        ft-Admitted info rest args.seeds args.network_to args.receiver_address args.amount
          args.token_seed (subst (λ (c : Bank). run c ≡ ok (tt, b')) b1-b f1) in
      let same = some-injective (TokenType.ft, args.amount) (token, amount) is in
      (
        args.seeds,
        sysvar,
        subst (λ (p : TokenType × ℕ). Admitted env program_id args.seeds info sysvar p.0 p.1 b) same
            admitted,
      )
  dispatch-Admitted info rest (deposit_nft args) token amount is e =
      let check = validate_deposit_nft args in
      let (_, b1, e1, f1) = bind-ok (lift check) _ {b = b} e in
      let (_, b1-b) = lift-ok check e1 in
      let run =
        process_deposit_nft env program_id (info ∷ rest) args.seeds args.network_to
          args.receiver_address args.token_seed in
      let (sysvar, admitted) =
        nft-Admitted info rest args.seeds args.network_to args.receiver_address args.token_seed
          (subst (λ (c : Bank). run c ≡ ok (tt, b')) b1-b f1) in
      let one : ℕ = 1 in
      let same = some-injective (TokenType.nft, one) (token, amount) is in
      (
        args.seeds,
        sysvar,
        subst (λ (p : TokenType × ℕ). Admitted env program_id args.seeds info sysvar p.0 p.1 b) same
            admitted,
      )
  dispatch-Admitted info rest _ token amount is e = cc
