-- ===== src/Commission/Handlers/Charge.antt =====
-- What a charge of commission takes.
use solana_bridge_program.Common.{ℕ, ◌≡◌, refl, List, [], ◌∷◌, bytes_eq, bytes_eq→≡, subst, ◌∙◌}
use solana_bridge_program.Runtime.{
  Pubkey, AccountInfo, Bank, M, ok, bind-ok, lift, lift-ok, require, require-ok, next_account_info,
}
use solana_bridge_program.Shared.Error.{wrong_token_account}
use solana_bridge_program.Shared.Types.{CommissionToken as CommissionTokenKind}
use solana_bridge_program.Env.{Env}
use solana_bridge_program.Commission.State.{CommissionToken, CommissionAdmin}
use solana_bridge_program.Commission.Tokens.{check_token_is_acceptable}
use solana_bridge_program.Commission.Access.{open_commission_admin, admin_seeds}
use solana_bridge_program.Commission.Access.Opened.{Opened, open_commission_admin-ok}
use solana_bridge_program.Commission.Payments.{
  call_transfer_native, call_transfer_ft, create_if_empty, charge_token,
}
use solana_bridge_program.Commission.Handlers.{process_charge_commission}

module _ (env : Env) (program_id : Pubkey)
    (info bridge_info owner_info system_program rent_info : AccountInfo) where
  -- The owner paid the amount in the token to the commission admin from `b` to `b'`: SOL to its
  -- account, fungible tokens to its associated account, which was created if it was empty.
  pub data Paid (rest : List AccountInfo) (amount : ℕ) (token : CommissionTokenKind) (b b' : Bank)
      : Type 0 where
    in_sol :
        token ≡ CommissionTokenKind.native
        → call_transfer_native env owner_info info amount (admin_seeds env bridge_info) b
          ≡ ok (tt, b')
        → Paid rest amount token b b'
    in_tokens :
        (mint : Pubkey) (token_program owner_token commission_token : AccountInfo)
        (others : List AccountInfo) (created : Bank)
        → token ≡ CommissionTokenKind.ft mint
        → rest ≡ token_program ∷ owner_token ∷ commission_token ∷ others
        → commission_token.key ≡ env.get_associated_token_address info.key mint
        → create_if_empty env owner_info info commission_token rent_info system_program
            token_program others b
          ≡ ok (tt, created)
        → call_transfer_ft env owner_token commission_token owner_info amount
            (admin_seeds env bridge_info)
            created
          ≡ ok (tt, b')
        → Paid rest amount token b b'

  charge_token-Paid :
      (rest : List AccountInfo) (amount : ℕ) (token : CommissionTokenKind) (b b' : Bank)
      → charge_token env info.key info bridge_info owner_info system_program rent_info rest amount
          token b
        ≡ ok (tt, b')
      → Paid rest amount token b b'
  unfolding charge_token next_account_info
  charge_token-Paid rest amount CommissionTokenKind.native b b' e = in_sol refl e
  charge_token-Paid [] amount (CommissionTokenKind.ft mint) b b' e = cc
  charge_token-Paid (x ∷ []) amount (CommissionTokenKind.ft mint) b b' e = cc
  charge_token-Paid (x ∷ y ∷ []) amount (CommissionTokenKind.ft mint) b b' e = cc
  charge_token-Paid (x ∷ y ∷ z ∷ rest) amount (CommissionTokenKind.ft mint) b b' e =
      let test = bytes_eq z.key (env.get_associated_token_address info.key mint) in
      let (_, b1, e1, f1) = bind-ok (require test wrong_token_account) _ {b = b} e in
      let (same, b1-b) = require-ok test wrong_token_account e1 in
      let create = create_if_empty env owner_info info z rent_info system_program x rest in
      let (_, b2, e2, f2) = bind-ok create _ f1 in
      in_tokens mint x y z rest b2 refl refl
        (bytes_eq→≡ z.key (env.get_associated_token_address info.key mint) same)
        (subst (λ (c : Bank). create c ≡ ok (tt, b2)) b1-b e2) f2
  charge_token-Paid rest amount (CommissionTokenKind.nft mint) b b' e = cc

  -- What a charge from `b` to `b'` was and did.
  pub record ChargeTaken (rest : List AccountInfo) (token : CommissionTokenKind) (b b' : Bank)
      : Type 0 where
    pub admin : CommissionAdmin
    pub opened : Opened env program_id info bridge_info b admin
    pub fee : CommissionToken
    pub acceptable : check_token_is_acceptable admin.acceptable_tokens token ≡ ok fee
    pub paid : Paid rest fee.amount fee.token b b'

  -- A charge of commission succeeds only on the initialised commission admin of the bridge and for
  -- an acceptable token; the owner then pays the amount of the token's first entry, in SOL or in
  -- fungible tokens, to the commission admin or to its associated account.
  pub charge_commission_sound :
      (rest : List AccountInfo) (token : CommissionTokenKind) (b b' : Bank)
      → process_charge_commission env program_id
          (info ∷ bridge_info ∷ owner_info ∷ system_program ∷ rent_info ∷ rest)
          token
          b
        ≡ ok (tt, b')
      → ChargeTaken rest token b b'
  unfolding process_charge_commission
  charge_commission_sound rest token b b' e =
      let ((key, admin), b1, e1, f1) =
        bind-ok (open_commission_admin env program_id info bridge_info) _ {b = b} e in
      let (b1-b, is_key, opened) = open_commission_admin-ok env program_id info bridge_info e1 in
      let check = check_token_is_acceptable admin.acceptable_tokens token in
      let (fee, b2, e2, f2) = bind-ok (lift check) _ f1 in
      let (is_fee, b2-b1) = lift-ok check e2 in
      let pay : Pubkey → M (Unit {0}) = λ k.
        charge_token env k info bridge_info owner_info system_program rent_info rest fee.amount
          fee.token in
      record {
        admin = admin;
        opened = opened;
        fee = fee;
        acceptable = is_fee;
        paid = charge_token-Paid rest fee.amount fee.token b b' (
            subst (λ (k : Pubkey). pay k b ≡ ok (tt, b')) is_key
              (subst (λ (c : Bank). pay key c ≡ ok (tt, b')) (b2-b1 ∙ b1-b) f2));
      }
