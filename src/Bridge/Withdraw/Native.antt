-- ===== src/Bridge/Withdraw/Native.antt =====
-- The withdrawal of SOL.
use solana_bridge_program.Common.{
  ℕ, ◌≤◌, ◌≡◌, ◌≢◌, not, true, none, some, List, ◌∷◌, Bytes, arith, ltb, ◌∙◌, subst,
}
use solana_bridge_program.Runtime.{Bank, AccountInfo, Pubkey, ok, require, require-ok, bind-ok}
use solana_bridge_program.Env.{Env, IsLawful}
use solana_bridge_program.Shared.Error.{wrong_balance}
use solana_bridge_program.Shared.Types.{TokenType}
use solana_bridge_program.Bridge.State.{BridgeAdmin, Withdraw}
use solana_bridge_program.Bridge.Access.{open_bridge_admin}
use solana_bridge_program.Bridge.Access.Opened.{Opened, open_bridge_admin-ok}
use solana_bridge_program.Bridge.Content.{new_native_transfer}
use solana_bridge_program.Bridge.Record.{create_withdraw_account, filled_withdraw}
use solana_bridge_program.Bridge.Withdraw.{
  verify_content, sub_lamports, add_lamports, process_withdraw_native,
}
use solana_bridge_program.Bridge.Withdraw.Signed.{
  IsSized, IsSigned, verify_content-ok, init_withdraw_account-ok,
}
use solana_bridge_program.Bridge.Withdraw.Lamports.{Paid, Paid-OnlyData, move_lamports}

le_of_test : (balance amount : ℕ) → not (ltb balance amount) ≡ true → amount ≤ balance
le_of_test balance amount h = ground arith

module _ (env : Env) (program_id : Pubkey)
    (admin_info owner_info withdraw_info system rent : AccountInfo) (rest : List AccountInfo)
    (seeds signature : Bytes) (recovery_id : ℕ) (path : List Bytes) (origin : Bytes)
    (amount : ℕ) where
  abbrev native_record : Withdraw
  native_record = filled_withdraw TokenType.native origin none amount owner_info.key

  -- What a SOL withdrawal from `b` to `b'` was and did. `funded` is the state after the owner has
  -- paid for the withdraw account.
  pub record Withdrawn (b b' : Bank) : Type 0 where
    pub admin : BridgeAdmin
    pub opened : Opened env program_id seeds admin_info b admin
    pub signed :
        IsSigned env program_id origin owner_info.key
          (new_native_transfer amount)
          path
          signature
          recovery_id
          admin.public_key
    pub covered : amount ≤ (b admin_info.key).lamports
    pub funded : Bank
    pub created :
        create_withdraw_account env program_id origin owner_info withdraw_info rent system b
        ≡ ok (tt, funded)
    pub paid : Paid admin_info.key owner_info.key amount funded b'
    pub recorded : env.withdraw.deserialize (b' withdraw_info.key).data_bytes ≡ some native_record

  -- A SOL withdrawal that succeeds was signed with the key of the initialised admin of the seeds,
  -- for this origin, owner, program and amount, and the admin's balance covered it. After the
  -- withdraw account was created, exactly the amount went from the admin to the owner, no other
  -- balance changed, and the withdraw account holds the record of the withdrawal. Assumed: the
  -- record's codec is lawful, its fields have their sizes, and the admin and the owner are two
  -- accounts.
  pub withdraw_native_sound :
      (b b' : Bank)
      → IsLawful IsSized env.withdraw
      → IsSized native_record
      → admin_info.key ≢ owner_info.key
      → process_withdraw_native env program_id
          (admin_info ∷ owner_info ∷ withdraw_info ∷ system ∷ rent ∷ rest)
          seeds
          signature
          recovery_id
          path
          origin
          amount
          b
        ≡ ok (tt, b')
      → Withdrawn b b'
  unfolding process_withdraw_native
  withdraw_native_sound b b' law sized ne e =
      let ((key, admin), b1, e1, f1) =
        bind-ok (open_bridge_admin env program_id seeds admin_info) _ {b = b} e in
      let (b1-b, _, opened) = open_bridge_admin-ok env program_id seeds admin_info e1 in
      let (_, b2, e2, f2) =
        bind-ok
          (verify_content env program_id origin owner_info.key (new_native_transfer amount) path
            signature recovery_id admin.public_key)
          _ f1 in
      let (signed, b2-b1) =
        verify_content-ok env program_id origin owner_info.key (new_native_transfer amount) path
          signature recovery_id admin.public_key e2 in
      let test = not (ltb (b2 admin_info.key).lamports amount) in
      let (_, b3, e3, f3) = bind-ok (require test wrong_balance) _ {b = b2} f2 in
      let (covered, b3-b2) = require-ok test wrong_balance e3 in
      let b2-b : b2 ≡ b = b2-b1 ∙ b1-b in
      let (_, b4, e4, f4) =
        bind-ok (create_withdraw_account env program_id origin owner_info withdraw_info rent system)
          _ f3 in
      let (_, b5, e5, f5) = bind-ok (sub_lamports admin_info amount) _ f4 in
      let (_, b6, e6, f6) = bind-ok (add_lamports owner_info amount) _ f5 in
      let paid = move_lamports admin_info owner_info amount b4 b5 b6 ne e5 e6 in
      let (recorded, only) =
        init_withdraw_account-ok env withdraw_info native_record b6 b' law sized f6 in
      record {
        admin = admin;
        opened = opened;
        signed = signed;
        covered = le_of_test _ _ (
            subst (λ (c : Bank). not (ltb (c admin_info.key).lamports amount) ≡ true) b2-b covered);
        funded = b4;
        created =
            subst
              (λ (c : Bank).
                create_withdraw_account env program_id origin owner_info withdraw_info rent system c
                ≡ ok (tt, b4))
              (b3-b2 ∙ b2-b) e4;
        paid = Paid-OnlyData paid only;
        recorded = recorded;
      }
