-- ===== src/Bridge/Withdraw/Passes.antt =====
-- The steps of a SOL withdrawal, where nothing refuses them.
use solana_bridge_program.Common.{
  ℕ, ◌+◌, ◌-◌, ◌≤◌, ◌<◌, ◌≡◌, refl, ap, not, false, some, List, [], ◌∷◌, Bytes, arith, length, ltb,
  bytes_eq_refl, Bytes-cases, inl, inr,
}
use solana_bridge_program.Runtime.{
  Pubkey, AccountInfo, Bank, ok, set_account, u64_mod, require, checked_add,
}
use solana_bridge_program.Runtime.Store.{set_account_self, set_account_ne, write_data-passes}
use solana_bridge_program.Env.{Env}
use solana_bridge_program.Shared.Error.{wrong_balance}
use solana_bridge_program.Shared.Merkle.{get_merkle_root, merkle_loop}
use solana_bridge_program.Shared.Ecdsa.{verify_ecdsa_signature_iff}
use solana_bridge_program.Shared.Calls.{call_create_account}
use solana_bridge_program.Bridge.State.{Withdraw, withdraw_size}
use solana_bridge_program.Bridge.Content
use solana_bridge_program.Bridge.Content.{TransferData, new_native_transfer}
use solana_bridge_program.Bridge.Record.{create_withdraw_account, init_withdraw_account}
use solana_bridge_program.Bridge.Withdraw.{verify_content, sub_lamports, add_lamports}
use solana_bridge_program.Bridge.Withdraw.Signed.{IsSigned}

-- The account with other lamports.
abbrev pub with_lamports : Pubkey → ℕ → Bank → Bank
with_lamports k n b = set_account k (record (b k) { lamports = n }) b

pub with_lamports-data :
    (k j : Pubkey) (n : ℕ) (b : Bank) → (with_lamports k n b j).data_bytes ≡ (b j).data_bytes
with_lamports-data k j n b = elim (Bytes-cases j k) [
  | inl same ↦ rw (same, set_account_self k (record (b k) { lamports = n }) b) refl
  | inr other ↦ ap (λ a. a.data_bytes) (set_account_ne k j (record (b k) { lamports = n }) b other)
]

pub sub_lamports-passes :
    (info : AccountInfo) (n : ℕ) (b : Bank)
    → n ≤ (b info.key).lamports
    → sub_lamports info n b ≡ ok (tt, with_lamports info.key ((b info.key).lamports - n) b)
unfolding sub_lamports
sub_lamports-passes info n b covered = ground arith

pub add_lamports-passes :
    (info : AccountInfo) (n : ℕ) (b : Bank)
    → (b info.key).lamports + n < u64_mod
    → add_lamports info n b ≡ ok (tt, with_lamports info.key ((b info.key).lamports + n) b)
unfolding add_lamports checked_add
add_lamports-passes info n b room = ground arith

pub require_covered :
    (balance amount : ℕ) (b : Bank)
    → amount ≤ balance
    → require (not (ltb balance amount)) wrong_balance b ≡ ok (tt, b)
require_covered balance amount b covered = ground arith

module _ (env : Env) where
  pub verify_content-passes :
      (program_id : Pubkey) (origin receiver : Bytes) (transfer : TransferData) (path : List Bytes)
      (signature : Bytes) (recovery_id : ℕ) (public_key : Bytes) (b : Bank)
      → IsSigned env program_id origin receiver transfer path signature recovery_id public_key
      → verify_content env program_id origin receiver transfer path signature recovery_id public_key
          b
        ≡ ok (tt, b)
  unfolding verify_content get_merkle_root
  verify_content-passes pid o rc t p s n k b signed =
      let root = merkle_loop env (Content.hash env (Content.new o rc pid t)) p in
      ground (arith, (verify_ecdsa_signature_iff env root s n k).1 signed)

  pub create_withdraw_account-passes :
      (program_id origin : Bytes) (owner withdraw rent system : AccountInfo) (b b' : Bank)
      → (env.find_program_address (origin ∷ []) program_id).0 ≡ withdraw.key
      → call_create_account env owner withdraw rent system
          (withdraw_size env.size_of_token_type)
          program_id
          (origin ∷ ((env.find_program_address (origin ∷ []) program_id).1 ∷ []) ∷ [])
          b
        ≡ ok (tt, b')
      → create_withdraw_account env program_id origin owner withdraw rent system b ≡ ok (tt, b')
  unfolding create_withdraw_account
  create_withdraw_account-passes program_id origin owner withdraw rent system b b' found made =
      rw (found, bytes_eq_refl withdraw.key) made

  pub init_withdraw_account-passes :
      (info : AccountInfo) (fresh w : Withdraw) (b : Bank)
      → env.withdraw.deserialize (b info.key).data_bytes ≡ some fresh
      → fresh.is_initialized ≡ false
      → length (env.withdraw.serialize w) ≤ length (b info.key).data_bytes
      → (b' : Bank) × (init_withdraw_account env info w b ≡ ok (tt, b'))
  unfolding init_withdraw_account
  init_withdraw_account-passes info fresh w b read new room =
      let (b', written) = write_data-passes info (env.withdraw.serialize w) b room in
      (b', rw (read, new) written)
