-- ===== src/Upgrade/Handlers/Upgraded.antt =====
-- What an upgrade and a transfer of ownership of the upgrade program do.
use solana_bridge_program.Common.{
  ℕ, ◌+◌, ◌<◌, ◌≡◌, true, some, List, [], ◌∷◌, Bytes, length, arith, bytes_eq, bytes_eq→≡, ◌∙◌, ap,
  subst,
}
use solana_bridge_program.Runtime.{
  Pubkey, AccountInfo, Bank, Result, ok, write_data, checked_add, checked_add-ok, u64_mod, bind-ok,
  lift, lift-ok, require, require-ok, from_option-ok, borsh_io_error,
}
use solana_bridge_program.Runtime.Store.{OnlyData, write_data-ok, write-read}
use solana_bridge_program.Shared.Error.{wrong_seeds, not_initialized}
use solana_bridge_program.Shared.Types.{upgrade_admin_pda_seed}
use solana_bridge_program.Shared.Merkle.{get_merkle_root, merkle_loop}
use solana_bridge_program.Shared.Ecdsa.{verify_ecdsa_signature, verify_ecdsa_signature_iff}
use solana_bridge_program.Env.{Env, IsLawful}
use solana_bridge_program.Upgrade.State.{UpgradeAdmin}
use solana_bridge_program.Upgrade.Content
use solana_bridge_program.Upgrade.Handlers.{
  read_upgrade_admin, process_transfer_ownership, process_upgrade,
}

-- The sizes of the fields of an `UpgradeAdmin`.
abbrev pub IsSized : UpgradeAdmin → Type 0
IsSized a = (length a.public_key ≡ 64) × (length a.contract ≡ 32) × (a.nonce < u64_mod)

module _ (env : Env) (program_id : Pubkey) where
  -- The account is the program's address for the upgraded program, and holds an initialised admin.
  pub record Opened (info : AccountInfo) (contract : Pubkey) (b : Bank) (admin : UpgradeAdmin)
      : Type 0 where
    pub key :
        env.create_program_address (upgrade_admin_pda_seed ∷ contract ∷ []) program_id ≡ ok info.key
    pub stored : env.upgrade_admin.deserialize (b info.key).data_bytes ≡ some admin
    pub initialized : admin.is_initialized ≡ true

  pub read_upgrade_admin-ok :
      (info : AccountInfo) {b b' : Bank} {admin : UpgradeAdmin}
      → read_upgrade_admin env info b ≡ ok (admin, b')
      → (b' ≡ b) × (env.upgrade_admin.deserialize (b info.key).data_bytes ≡ some admin)
  unfolding read_upgrade_admin
  read_upgrade_admin-ok info {b} {b'} {admin} e =
      let stored =
        from_option-ok (env.upgrade_admin.deserialize (b info.key).data_bytes) borsh_io_error e in
      ground (arith, stored)

  module _ (info data_info upgraded buffer spill rent clock : AccountInfo) (rest : List AccountInfo)
      (signature : Bytes) (recovery_id : ℕ) (path : List Bytes) where
    -- What an upgrade from `b` to `b'` was and did.
    pub record Upgraded (b b' : Bank) : Type 0 where
      pub admin : UpgradeAdmin
      pub opened : Opened info upgraded.key b admin
      pub signed :
          env.secp256k1_recover
            (merkle_loop env
              (Content.hash env (Content.new admin.nonce admin.contract buffer.key))
              path)
            recovery_id
            signature
          ≡ some admin.public_key
      pub loaded : Bank
      pub load :
          env.invoke_signed
            (env.loader_upgrade upgraded.key buffer.key info.key spill.key)
            (data_info ∷ upgraded ∷ buffer ∷ spill ∷ rent ∷ clock ∷ info ∷ [])
            ((upgrade_admin_pda_seed ∷ upgraded.key ∷ []) ∷ [])
            b
          ≡ ok (tt, loaded)
      pub stored :
          env.upgrade_admin.deserialize (b' info.key).data_bytes
          ≡ some (record admin { nonce = admin.nonce + 1 })
      pub only : OnlyData info.key loaded b'

    -- An upgrade succeeds only with a signature over the admin's nonce, its contract and the
    -- buffer, with the key that the initialised admin of the upgraded program holds. It runs the
    -- loader's upgrade of that program from that buffer; afterwards the admin's nonce is one
    -- higher, and the account holds the admin otherwise as it was before. Assumed: the admin's
    -- codec is lawful.
    pub upgrade_sound :
        (b b' : Bank)
        → IsLawful IsSized env.upgrade_admin
        → process_upgrade env program_id
            (info ∷ data_info ∷ upgraded ∷ buffer ∷ spill ∷ rent ∷ clock ∷ rest)
            signature
            recovery_id
            path
            b
          ≡ ok (tt, b')
        → Upgraded b b'
    unfolding process_upgrade get_merkle_root
    upgrade_sound b b' law e =
        let made =
          env.create_program_address (upgrade_admin_pda_seed ∷ upgraded.key ∷ []) program_id in
        let (key, b1, e1, f1) = bind-ok (lift made) _ {b = b} e in
        let (is_made, b1-b) = lift-ok made e1 in
        let (_, b2, e2, f2) = bind-ok (require (bytes_eq key info.key) wrong_seeds) _ f1 in
        let (key_test, b2-b1) = require-ok (bytes_eq key info.key) wrong_seeds e2 in
        let is_key = bytes_eq→≡ key info.key key_test in
        let (admin, b3, e3, f3) = bind-ok (read_upgrade_admin env info) _ f2 in
        let (b3-b2, stored) = read_upgrade_admin-ok info e3 in
        let (_, b4, e4, f4) = bind-ok (require admin.is_initialized not_initialized) _ f3 in
        let (init, b4-b3) = require-ok admin.is_initialized not_initialized e4 in
        let root =
          merkle_loop env (Content.hash env (Content.new admin.nonce admin.contract buffer.key))
            path in
        let check = verify_ecdsa_signature env root signature recovery_id admin.public_key in
        let (_, b6, e6, f6) = bind-ok (lift check) _ f4 in
        let (checked, b6-b4) = lift-ok check e6 in
        let load : Pubkey → Bank → Result (Unit {0} × Bank) = λ k.
          env.invoke_signed (env.loader_upgrade upgraded.key buffer.key k spill.key)
            (data_info ∷ upgraded ∷ buffer ∷ spill ∷ rent ∷ clock ∷ info ∷ [])
            ((upgrade_admin_pda_seed ∷ upgraded.key ∷ []) ∷ []) in
        let (_, b7, e7, f7) = bind-ok (load key) _ f6 in
        let (next, b8, e8, f8) = bind-ok (checked_add admin.nonce 1) _ f7 in
        let (is_next, small, b8-b7) = checked_add-ok admin.nonce 1 e8 in
        let b2-b : b2 ≡ b = b2-b1 ∙ b1-b in
        let b6-b : b6 ≡ b = b6-b4 ∙ b4-b3 ∙ b3-b2 ∙ b2-b in
        let read =
          subst (λ (c : Bank). env.upgrade_admin.deserialize (c info.key).data_bytes ≡ some admin)
            b2-b stored in
        let new : UpgradeAdmin = record admin { nonce = admin.nonce + 1 } in
        let written =
          subst
            (λ (n : ℕ).
              write_data info (env.upgrade_admin.serialize (record admin { nonce = n })) b7
              ≡ ok (tt, b'))
            is_next
            (subst
              (λ (c : Bank).
                write_data info (env.upgrade_admin.serialize (record admin { nonce = next })) c
                ≡ ok (tt, b'))
              b8-b7 f8) in
        let old = law.sized (b info.key).data_bytes admin read in
        record {
          admin = admin;
          opened = record { key = is_made ∙ ap ok is_key; stored = read; initialized = init };
          signed =
              (verify_ecdsa_signature_iff env root signature recovery_id admin.public_key).0
                checked;
          loaded = b7;
          load =
              subst (λ (k : Pubkey). load k b ≡ ok (tt, b7)) is_key
                (subst (λ (c : Bank). load key c ≡ ok (tt, b7)) b6-b e7);
          stored =
              write-read env.upgrade_admin IsSized info new b7 b' law (old.0, old.1, small) written;
          only = (write_data-ok info (env.upgrade_admin.serialize new) {b = b7} written).2;
        }

  -- A transfer of ownership of the upgrade admin succeeds only with a signature over the hash of
  -- the new key, with the key that the initialised account held, which is the program's address
  -- for its contract. Afterwards the account holds the new key, and its contract and nonce as
  -- before. Assumed: the admin's codec is lawful and the new key has 64 bytes.
  pub upgrade_ownership_sound :
      (info : AccountInfo) (rest : List AccountInfo) (new_public_key signature : Bytes)
      (recovery_id : ℕ) (b b' : Bank)
      → IsLawful IsSized env.upgrade_admin
      → length new_public_key ≡ 64
      → process_transfer_ownership env program_id
          (info ∷ rest)
          new_public_key
          signature
          recovery_id
          b
        ≡ ok (tt, b')
      → (admin : UpgradeAdmin) × Opened info admin.contract b admin
        × (env.secp256k1_recover (env.keccak new_public_key) recovery_id signature
            ≡ some admin.public_key)
        × (env.upgrade_admin.deserialize (b' info.key).data_bytes
            ≡ some (record admin { public_key = new_public_key }))
        × OnlyData info.key b b'
  unfolding process_transfer_ownership
  upgrade_ownership_sound info rest new_public_key signature recovery_id b b' law size e =
      let (admin, b1, e1, f1) = bind-ok (read_upgrade_admin env info) _ {b = b} e in
      let (b1-b, stored) = read_upgrade_admin-ok info e1 in
      let (_, b2, e2, f2) = bind-ok (require admin.is_initialized not_initialized) _ f1 in
      let (init, b2-b1) = require-ok admin.is_initialized not_initialized e2 in
      let made =
        env.create_program_address (upgrade_admin_pda_seed ∷ admin.contract ∷ []) program_id in
      let (key, b3, e3, f3) = bind-ok (lift made) _ f2 in
      let (is_made, b3-b2) = lift-ok made e3 in
      let (_, b4, e4, f4) = bind-ok (require (bytes_eq key info.key) wrong_seeds) _ f3 in
      let (key_test, b4-b3) = require-ok (bytes_eq key info.key) wrong_seeds e4 in
      let check =
        verify_ecdsa_signature env (env.keccak new_public_key) signature recovery_id
          admin.public_key in
      let (_, b5, e5, f5) = bind-ok (lift check) _ f4 in
      let (checked, b5-b4) = lift-ok check e5 in
      let b5-b : b5 ≡ b = b5-b4 ∙ b4-b3 ∙ b3-b2 ∙ b2-b1 ∙ b1-b in
      let new : UpgradeAdmin = record admin { public_key = new_public_key } in
      let bytes = env.upgrade_admin.serialize new in
      let written = subst (λ (c : Bank). write_data info bytes c ≡ ok (tt, b')) b5-b f5 in
      let old = law.sized (b info.key).data_bytes admin stored in
      (
        admin,
        record {
          key = is_made ∙ ap ok (bytes_eq→≡ key info.key key_test);
          stored = stored;
          initialized = init;
        },
        (verify_ecdsa_signature_iff env (env.keccak new_public_key) signature recovery_id
              admin.public_key).0
            checked,
        write-read env.upgrade_admin IsSized info new b b' law (size, old.1, old.2) written,
        (write_data-ok info bytes {b = b} written).2,
      )
