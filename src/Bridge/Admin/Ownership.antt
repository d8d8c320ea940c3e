-- ===== src/Bridge/Admin/Ownership.antt =====
-- Who can change the key of the bridge.
use solana_bridge_program.Common.{ℕ, ◌≡◌, some, List, ◌∷◌, Bytes, arith, length}
use solana_bridge_program.Runtime.{
  Pubkey, AccountInfo, Bank, ok, write_data, bind-ok, lift, lift-ok,
}
use solana_bridge_program.Runtime.Store.{OnlyData, write_data-ok, write-read}
use solana_bridge_program.Env.{Env, IsLawful}
use solana_bridge_program.Shared.Ecdsa.{verify_ecdsa_signature, verify_ecdsa_signature_iff}
use solana_bridge_program.Bridge.State.{BridgeAdmin}
use solana_bridge_program.Bridge.Access.{open_bridge_admin}
use solana_bridge_program.Bridge.Access.Opened.{Opened, open_bridge_admin-ok}
use solana_bridge_program.Bridge.Admin.{process_transfer_ownership}

-- The sizes of the arrays in a `BridgeAdmin`.
abbrev pub IsSized : BridgeAdmin → Type 0
IsSized a = (length a.public_key ≡ 64) × (length a.commission_program ≡ 32)

-- The account holds the admin, as the next instruction reads it.
abbrev pub Holds : Env → AccountInfo → Bank → BridgeAdmin → Type 0
Holds env info b admin = env.bridge_admin.deserialize (b info.key).data_bytes ≡ some admin

module _ (env : Env) (program_id : Pubkey) (info : AccountInfo) (rest : List AccountInfo)
    (seeds new_public_key signature : Bytes) (recovery_id : ℕ) where
  abbrev transferred : BridgeAdmin → BridgeAdmin
  transferred admin = record admin { public_key = new_public_key }

  transfer_ownership_cases :
      {b b' : Bank}
      → process_transfer_ownership env program_id
          (info ∷ rest)
          seeds
          new_public_key
          signature
          recovery_id
          b
        ≡ ok (tt, b')
      → (admin : BridgeAdmin) × Opened env program_id seeds info b admin
        × (env.secp256k1_recover (env.keccak new_public_key) recovery_id signature
            ≡ some admin.public_key)
        × (write_data info (env.bridge_admin.serialize (transferred admin)) b ≡ ok (tt, b'))
  unfolding process_transfer_ownership
  transfer_ownership_cases {b} {b'} e =
      let ((key, admin), b1, e1, f1) = bind-ok (open_bridge_admin env program_id seeds info) _ e in
      let check =
        verify_ecdsa_signature env (env.keccak new_public_key) signature recovery_id
          admin.public_key in
      let (u, b2, e2, f2) = bind-ok (lift check) _ f1 in
      let opened = open_bridge_admin-ok env program_id seeds info e1 in
      let checked = lift-ok check e2 in
      let recovered =
        (verify_ecdsa_signature_iff env (env.keccak new_public_key) signature recovery_id
            admin.public_key).0
          (ground (arith, checked)) in
      (admin, opened.2, recovered, ground (arith, opened, checked))

  -- A transfer of ownership that succeeds was signed, over the hash of the new key, with the key
  -- that the account of the seeds held, which was initialised. Afterwards the account holds the
  -- new key, its commission program and its initialisation are as before, and no other account,
  -- balance or owner has changed. Assumed: the admin's codec is lawful and the new key has 64
  -- bytes.
  pub transfer_ownership_sound :
      (b b' : Bank)
      → IsLawful IsSized env.bridge_admin
      → length new_public_key ≡ 64
      → process_transfer_ownership env program_id
          (info ∷ rest)
          seeds
          new_public_key
          signature
          recovery_id
          b
        ≡ ok (tt, b')
      → (admin : BridgeAdmin) × Opened env program_id seeds info b admin
        × (env.secp256k1_recover (env.keccak new_public_key) recovery_id signature
            ≡ some admin.public_key)
        × Holds env info b' (transferred admin)
        × OnlyData info.key b b'
  transfer_ownership_sound b b' law size e =
      let (admin, opened, signed, written) = transfer_ownership_cases e in
      let old = law.sized (b info.key).data_bytes admin opened.stored in
      (
        admin,
        opened,
        signed,
        write-read env.bridge_admin IsSized info (transferred admin) b b' law (size, old.1) written,
        (write_data-ok info (env.bridge_admin.serialize (transferred admin)) written).2,
      )
