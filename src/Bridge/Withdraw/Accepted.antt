-- ===== src/Bridge/Withdraw/Accepted.antt =====
-- A signed withdrawal of SOL is not refused.
use solana_bridge_program.Common.{
  ℕ, ◌+◌, ◌-◌, ◌≤◌, ◌<◌, ◌≡◌, ◌≢◌, ap, sym, not, false, none, some, List, [], ◌∷◌, Bytes, arith,
  length, replicate, length-replicate, ltb, ◌∙◌,
}
use solana_bridge_program.Runtime.{
  Pubkey, AccountInfo, Bank, M, ok, u64_mod, require, bind-step, next_account_info, ◌>>◌,
}
use solana_bridge_program.Runtime.Store.{set_account_ne}
use solana_bridge_program.Runtime.Laws.{RecordLaws}
use solana_bridge_program.Env.{Env, IsLawful}
use solana_bridge_program.Shared.Error.{wrong_balance}
use solana_bridge_program.Shared.Types.{TokenType}
use solana_bridge_program.Shared.Calls.{call_create_account}
use solana_bridge_program.Shared.Calls.Created.{call_create_account_done}
use solana_bridge_program.Bridge.State.{BridgeAdmin, Withdraw, withdraw_size}
use solana_bridge_program.Bridge.Content.{new_native_transfer}
use solana_bridge_program.Bridge.Access.{open_bridge_admin}
use solana_bridge_program.Bridge.Access.Opened.{Opened, open_bridge_admin-passes}
use solana_bridge_program.Bridge.Record.{
  create_withdraw_account, init_withdraw_account, filled_withdraw,
}
use solana_bridge_program.Bridge.Withdraw.{
  verify_content, sub_lamports, add_lamports, process_withdraw_native,
}
use solana_bridge_program.Bridge.Withdraw.Native.{Withdrawn, withdraw_native_sound}
use solana_bridge_program.Bridge.Withdraw.Signed.{IsSized, IsSigned}
use solana_bridge_program.Bridge.Withdraw.Passes.{
  with_lamports, with_lamports-data, sub_lamports-passes, add_lamports-passes, require_covered,
  verify_content-passes, create_withdraw_account-passes, init_withdraw_account-passes,
}

module _ (env : Env) (program_id : Pubkey)
    (admin_info owner_info withdraw_info system rent : AccountInfo) (rest : List AccountInfo)
    (seeds signature : Bytes) (recovery_id : ℕ) (path : List Bytes) (origin : Bytes)
    (amount : ℕ) where
  abbrev filled : Withdraw
  filled = filled_withdraw TokenType.native origin none amount owner_info.key

  -- The end of the handler, after the withdraw account was created.
  abbrev move_and_record : M (Unit {0})
  move_and_record = do
    sub_lamports admin_info amount
    add_lamports owner_info amount
    init_withdraw_account env withdraw_info filled

  move_and_record-passes :
      (fresh : Withdraw) (b : Bank)
      → admin_info.key ≢ owner_info.key
      → amount ≤ (b admin_info.key).lamports
      → (b owner_info.key).lamports + amount < u64_mod
      → env.withdraw.deserialize (b withdraw_info.key).data_bytes ≡ some fresh
      → fresh.is_initialized ≡ false
      → length (env.withdraw.serialize filled) ≤ length (b withdraw_info.key).data_bytes
      → (b' : Bank) × (move_and_record b ≡ ok (tt, b'))
  move_and_record-passes fresh b ne covered small read new room =
      let b1 = with_lamports admin_info.key ((b admin_info.key).lamports - amount) b in
      let owner : b1 owner_info.key ≡ b owner_info.key =
        set_account_ne admin_info.key owner_info.key _ b (λ q. ne (sym q)) in
      let small' : (b1 owner_info.key).lamports + amount < u64_mod =
        omega (arith, small, ap (λ a. a.lamports) owner) in
      let b2 = with_lamports owner_info.key ((b1 owner_info.key).lamports + amount) b1 in
      let same : (b2 withdraw_info.key).data_bytes ≡ (b withdraw_info.key).data_bytes =
        with_lamports-data owner_info.key withdraw_info.key _ b1
        ∙ with_lamports-data admin_info.key withdraw_info.key _ b in
      let (b', written) =
        init_withdraw_account-passes env withdraw_info fresh filled b2
          (ap env.withdraw.deserialize same ∙ read) new (rw same room) in
      (
        b',
        bind-step (sub_lamports admin_info amount) _
              (sub_lamports-passes admin_info amount b covered)
            ∙ bind-step (add_lamports owner_info amount) _
                (add_lamports-passes owner_info amount b1 small')
            ∙ written,
      )

  -- The state after the creation of the withdraw account: its data was filled with zeros, and the
  -- balances are enough.
  pub record IsFunded (b funded : Bank) : Type 0 where
    pub address : (env.find_program_address (origin ∷ []) program_id).0 ≡ withdraw_info.key
    pub created :
        call_create_account env owner_info withdraw_info rent system
          (withdraw_size env.size_of_token_type)
          program_id
          (origin ∷ ((env.find_program_address (origin ∷ []) program_id).1 ∷ []) ∷ [])
          b
        ≡ ok (tt, funded)
    pub covered : amount ≤ (funded admin_info.key).lamports
    pub small : (funded owner_info.key).lamports + amount < u64_mod

  -- A SOL withdrawal succeeds, pays and leaves its record, where it is signed with the key of the
  -- initialised admin of the seeds, the admin's balance covers the amount before and after the
  -- withdraw account at the address of the origin is created, that creation succeeds, and the
  -- owner's balance stays below 2^64. Assumed: the laws of the runtime (`RecordLaws`), a lawful codec
  -- of the record that reads an account of zeros as not initialised, fields of the right sizes, a
  -- record that fits the account, and that the admin and the owner are two accounts.
  pub signed_withdrawal_succeeds :
      (admin : BridgeAdmin) (fresh : Withdraw) (b funded : Bank)
      → RecordLaws env program_id
      → env.withdraw.deserialize (replicate (withdraw_size env.size_of_token_type) 0) ≡ some fresh
      → fresh.is_initialized ≡ false
      → length (env.withdraw.serialize filled) ≤ withdraw_size env.size_of_token_type
      → IsLawful IsSized env.withdraw
      → IsSized filled
      → admin_info.key ≢ owner_info.key
      → Opened env program_id seeds admin_info b admin
      → IsSigned env program_id origin owner_info.key
          (new_native_transfer amount)
          path
          signature
          recovery_id
          admin.public_key
      → amount ≤ (b admin_info.key).lamports
      → IsFunded b funded
      → (b' : Bank) × (process_withdraw_native env program_id
            (admin_info ∷ owner_info ∷ withdraw_info ∷ system ∷ rent ∷ rest)
            seeds
            signature
            recovery_id
            path
            origin
            amount
            b
          ≡ ok (tt, b'))
        × Withdrawn env program_id admin_info owner_info withdraw_info system rent rest seeds
            signature recovery_id path origin amount b b'
  unfolding process_withdraw_native next_account_info
  signed_withdrawal_succeeds admin fresh b funded laws read new room law sized ne opened signed
        covered f =
      let zeros : (funded withdraw_info.key).data_bytes
          ≡ replicate (withdraw_size env.size_of_token_type) 0 =
        (call_create_account_done env owner_info withdraw_info rent system
          (withdraw_size env.size_of_token_type) program_id origin _ b funded program_id laws
          f.created).1 in
      let length_zeros = length-replicate {A = ℕ} (withdraw_size env.size_of_token_type) 0 in
      let (b', moved) =
        move_and_record-passes fresh funded ne f.covered f.small
          (ap env.withdraw.deserialize zeros ∙ read) new (rw (zeros, length_zeros) room) in
      let run : process_withdraw_native env program_id
            (admin_info ∷ owner_info ∷ withdraw_info ∷ system ∷ rent ∷ rest) seeds signature
            recovery_id path origin amount b
          ≡ ok (tt, b') =
        bind-step (open_bridge_admin env program_id seeds admin_info) _
          (open_bridge_admin-passes env program_id seeds admin_info opened)
        ∙ bind-step
            (verify_content env program_id origin owner_info.key (new_native_transfer amount) path
              signature recovery_id admin.public_key)
            _
            (verify_content-passes env program_id origin owner_info.key (new_native_transfer amount)
              path signature recovery_id admin.public_key b signed)
        ∙ bind-step (require (not (ltb (b admin_info.key).lamports amount)) wrong_balance) _ {b = b}
            {b' = b} (require_covered (b admin_info.key).lamports amount b covered)
        ∙ bind-step
            (create_withdraw_account env program_id origin owner_info withdraw_info rent system) _
            (create_withdraw_account-passes env program_id origin owner_info withdraw_info rent
              system b funded f.address f.created)
        ∙ moved in
      (
        b',
        run,
        withdraw_native_sound env program_id admin_info owner_info withdraw_info system rent rest
            seeds signature recovery_id path origin amount b b' law sized ne run,
      )
