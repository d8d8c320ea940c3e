-- ===== src/Bridge/Withdraw/Signed.antt =====
-- What the signature of a withdrawal covers, and the record that the withdrawal leaves.
use solana_bridge_program.Common.{
  ℕ, ◌≡◌, ◌<◌, ◌^◌, not, some, List, Bytes, arith, length, ◌∙◌, subst,
}
use solana_bridge_program.Runtime.{
  Bank, AccountInfo, Pubkey, ok, lift-ok, bind-ok, require, require-ok, from_option, from_option-ok,
  borsh_io_error, write_data,
}
use solana_bridge_program.Runtime.Store.{OnlyData, write_data-ok, write-read}
use solana_bridge_program.Env.{Env, IsLawful}
use solana_bridge_program.Shared.Error.{already_in_use}
use solana_bridge_program.Shared.Merkle.{merkle_loop, get_merkle_root}
use solana_bridge_program.Shared.Ecdsa.{verify_ecdsa_signature, verify_ecdsa_signature_iff}
use solana_bridge_program.Bridge.State.{Withdraw}
use solana_bridge_program.Bridge.Content
use solana_bridge_program.Bridge.Content.{TransferData}
use solana_bridge_program.Bridge.Record.{init_withdraw_account}
use solana_bridge_program.Bridge.Withdraw.{verify_content}

-- The sizes of the fields of a `Withdraw`.
abbrev pub IsSized : Withdraw → Type 0
IsSized w =
    (length w.origin ≡ 32)
    × (length w.receiver_address ≡ 32)
    × (w.amount < 2 ^ 64)
    × ((k : Pubkey) → w.mint ≡ some k → length k ≡ 32)

-- The key recovers from the signature over the root to which the path leads from the withdrawal.
abbrev pub IsSigned :
    Env → Pubkey → Bytes → Pubkey → TransferData → List Bytes → Bytes → ℕ → Bytes → Type 0
IsSigned env program_id origin receiver transfer path signature recovery_id public_key =
    env.secp256k1_recover
      (merkle_loop env (Content.hash env (Content.new origin receiver program_id transfer)) path)
      recovery_id signature
    ≡ some public_key

module _ (env : Env) where
  pub verify_content-ok :
      (program_id : Pubkey) (origin receiver : Bytes) (transfer : TransferData) (path : List Bytes)
      (signature : Bytes) (recovery_id : ℕ) (public_key : Bytes) {b : Bank} {r : Unit {0} × Bank}
      → verify_content env program_id origin receiver transfer path signature recovery_id public_key
          b
        ≡ ok r
      → IsSigned env program_id origin receiver transfer path signature recovery_id public_key
        × (r.1 ≡ b)
  unfolding verify_content get_merkle_root
  verify_content-ok pid o rc t p s n k {b} {r} e =
      let root = merkle_loop env (Content.hash env (Content.new o rc pid t)) p in
      let checked = lift-ok (verify_ecdsa_signature env root s n k) {b = b} {r = r} e in
      ((verify_ecdsa_signature_iff env root s n k).0 (ground (arith, checked)), checked.1)

  -- The record is written where none was, and can be read back.
  pub init_withdraw_account-ok :
      (info : AccountInfo) (w : Withdraw) (b b' : Bank)
      → IsLawful IsSized env.withdraw
      → IsSized w
      → init_withdraw_account env info w b ≡ ok (tt, b')
      → (env.withdraw.deserialize (b' info.key).data_bytes ≡ some w) × OnlyData info.key b b'
  unfolding init_withdraw_account
  init_withdraw_account-ok info w b b' law sized e =
      let stored = env.withdraw.deserialize (b info.key).data_bytes in
      let (old, b1, e1, f1) = bind-ok (from_option stored borsh_io_error) _ {b = b} e in
      let read = from_option-ok stored borsh_io_error e1 in
      let (_, b2, e2, f2) = bind-ok (require (not old.is_initialized) already_in_use) _ f1 in
      let checked = require-ok (not old.is_initialized) already_in_use e2 in
      let b2-b : b2 ≡ b = checked.1 ∙ read.1 in
      let written =
        subst (λ (c : Bank). write_data info (env.withdraw.serialize w) c ≡ ok (tt, b')) b2-b f2 in
      (
        write-read env.withdraw IsSized info w b b' law sized written,
        (write_data-ok info (env.withdraw.serialize w) written).2,
      )
