-- ===== src/Commission/Handlers/Withdrawal.antt =====
-- What a withdrawal of commission does, and what its signature leaves open.
use solana_bridge_program.Common.{ℕ, ◌+◌, ◌<◌, ◌≡◌, some, List, ◌∷◌, Bytes, ◌∙◌, subst}
use solana_bridge_program.Runtime.{
  Pubkey, AccountInfo, Bank, M, ok, u64_mod, bind-ok, bind-step, ◌>>◌,
}
use solana_bridge_program.Shared.Instructions.Commission.{CommissionTokenArg}
use solana_bridge_program.Env.{Env}
use solana_bridge_program.Commission.State.{CommissionAdmin, withdraw_token, from_arg}
use solana_bridge_program.Commission.Content
use solana_bridge_program.Commission.Access.{open_commission_admin}
use solana_bridge_program.Commission.Access.Opened.{
  Opened, Signed, authorise, open_commission_admin-ok, open_commission_admin-passes, authorise-ok,
  authorise-passes,
}
use solana_bridge_program.Commission.Payments.{pay_token}
use solana_bridge_program.Commission.Handlers.{process_withdraw}
use solana_bridge_program.Commission.Handlers.Payout.{PaidOut, pay_token-PaidOut}
use solana_bridge_program.Commission.Handlers.Changes.{Stored, finish, finish-ok}

module _ (env : Env) (program_id : Pubkey)
    (info bridge_info receiver_info system_program rent_info : AccountInfo)
    (rest : List AccountInfo) (signature : Bytes) (recovery_id : ℕ) (path : List Bytes)
    (token : CommissionTokenArg) where
  -- The payment of the amount, in the token.
  abbrev pay : ℕ → M (Unit {0})
  pay amount =
      pay_token env info.key info bridge_info receiver_info system_program rent_info rest amount
        token.token

  abbrev counted : CommissionAdmin → ℕ → CommissionAdmin
  counted admin nonce = record admin { withdraw_token_nonce = nonce }

  -- What follows the checks.
  abbrev pub pay_and_count : CommissionAdmin → ℕ → M (Unit {0})
  pay_and_count admin amount = do
    pay amount
    finish env program_id info bridge_info rest signature recovery_id path token
        admin.withdraw_token_nonce (counted admin)

  abbrev pub content : CommissionAdmin → Content.Content
  content admin =
      Content.new admin.withdraw_token_nonce (some receiver_info.key) program_id withdraw_token
        (from_arg token)

  abbrev pub request : ℕ → M (Unit {0})
  request amount =
      process_withdraw env program_id
        (info ∷ bridge_info ∷ receiver_info ∷ system_program ∷ rent_info ∷ rest) signature
        recovery_id path token amount

  -- What a withdrawal of commission from `b` to `b'` was and did.
  pub record Withdrawn (amount : ℕ) (b b' : Bank) : Type 0 where
    pub admin : CommissionAdmin
    pub opened : Opened env program_id info bridge_info b admin
    pub signed : Signed env bridge_info b (content admin) path signature recovery_id
    pub no_overflow : admin.withdraw_token_nonce + 1 < u64_mod
    pub paid : Bank
    pub payment : pay amount b ≡ ok (tt, paid)
    pub paid_out :
        PaidOut env info bridge_info receiver_info system_program rent_info rest amount token.token
          b paid
    pub stored : Stored env info (counted admin (admin.withdraw_token_nonce + 1)) paid b'

  checks_ok :
      (amount : ℕ) (b b' : Bank)
      → request amount b ≡ ok (tt, b')
      → (admin : CommissionAdmin) × Opened env program_id info bridge_info b admin
        × Signed env bridge_info b (content admin) path signature recovery_id
        × (pay_and_count admin amount b ≡ ok (tt, b'))
  unfolding process_withdraw
  checks_ok amount b b' e =
      let ((key, admin), b1, e1, f1) =
        bind-ok (open_commission_admin env program_id info bridge_info) _ {b = b} e in
      let (b1-b, is_key, opened) = open_commission_admin-ok env program_id info bridge_info e1 in
      let rest_of : Pubkey → M (Unit {0}) = λ k. (do
        pay_token env k info bridge_info receiver_info system_program rent_info rest amount
            token.token
        finish env program_id info bridge_info rest signature recovery_id path token
            admin.withdraw_token_nonce (counted admin)) in
      let (signed, f2) =
        authorise-ok env bridge_info (content admin) path signature recovery_id (rest_of key) b b' (
          subst
            (λ (c : Bank).
              authorise env bridge_info (content admin) path signature recovery_id (rest_of key) c
              ≡ ok (tt, b'))
            b1-b f1) in
      (admin, opened, signed, subst (λ (k : Pubkey). rest_of k b ≡ ok (tt, b')) is_key f2)

  -- A withdrawal of commission succeeds only with a signature of the bridge's key over the
  -- receiver, the token, the token argument's amount and the withdraw nonce. It invokes the
  -- transfer of the withdraw amount from the commission admin to the receiver, in SOL, or for a
  -- fungible token from the associated account of the one to that of the other, signed with the
  -- admin's seeds. After that the account starts with the bytes of the admin with the nonce one
  -- higher.
  pub withdraw_sound :
      (amount : ℕ) (b b' : Bank)
      → process_withdraw env program_id
          (info ∷ bridge_info ∷ receiver_info ∷ system_program ∷ rent_info ∷ rest)
          signature
          recovery_id
          path
          token
          amount
          b
        ≡ ok (tt, b')
      → Withdrawn amount b b'
  withdraw_sound amount b b' e =
      let (admin, opened, signed, f) = checks_ok amount b b' e in
      let (_, paid, e1, f1) = bind-ok (pay amount) _ {b = b} f in
      let (small, stored) =
        finish-ok env program_id info bridge_info rest signature recovery_id path token
          admin.withdraw_token_nonce (counted admin) paid b' f1 in
      record {
        admin = admin;
        opened = opened;
        signed = signed;
        no_overflow = small;
        paid = paid;
        payment = e1;
        paid_out =
            pay_token-PaidOut env info bridge_info receiver_info system_program rent_info rest
              amount token.token b paid e1;
        stored = stored;
      }

  -- The signature of a withdrawal does not bind the amount: where a request succeeds with one
  -- withdraw amount, the same request with any other amount passes all checks, and is the payment
  -- of the other amount and the count of the nonce.
  pub withdraw_amount_unsigned :
      (amount other : ℕ) (b b' : Bank)
      → request amount b ≡ ok (tt, b')
      → (admin : CommissionAdmin) × Opened env program_id info bridge_info b admin
        × (request other b ≡ pay_and_count admin other b)
  unfolding process_withdraw
  withdraw_amount_unsigned amount other b b' e =
      let (admin, opened, signed, _) = checks_ok amount b b' e in
      (
        admin,
        opened,
        bind-step (open_commission_admin env program_id info bridge_info) _
              (open_commission_admin-passes env program_id info bridge_info opened)
            ∙ (authorise-passes env bridge_info (content admin) path signature recovery_id
                (pay_and_count admin other) b signed),
      )
