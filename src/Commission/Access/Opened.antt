-- ===== src/Commission/Access/Opened.antt =====
-- What a handler of the commission program knows once its opening checks have passed.
use solana_bridge_program.Common.{
  ℕ, ◌≡◌, true, some, List, Bytes, [], arith, bytes_eq, bytes_eq_iff, bytes_eq_refl, ◌∙◌, subst,
}
use solana_bridge_program.Runtime.{
  Pubkey, AccountInfo, Bank, M, ok, bind-ok, bind-step, lift-ok, require-ok, from_option-ok,
  require, lift, borsh_io_error, ◌>>=◌, ◌>>◌,
}
use solana_bridge_program.Shared.Error.{wrong_admin, not_initialized}
use solana_bridge_program.Shared.Merkle.{get_merkle_root, merkle_loop}
use solana_bridge_program.Shared.Ecdsa.{verify_ecdsa_signature, verify_ecdsa_signature_iff}
use solana_bridge_program.Env.{Env}
use solana_bridge_program.Bridge.State.{BridgeAdmin}
use solana_bridge_program.Bridge.Access.{read_bridge_admin}
use solana_bridge_program.Bridge.Access.Opened.{read_bridge_admin-ok}
use solana_bridge_program.Commission.State.{CommissionAdmin}
use solana_bridge_program.Commission.Content
use solana_bridge_program.Commission.Access.{
  read_commission_admin, admin_seeds, check_admin_key, open_commission_admin, open_signer,
  verify_content,
}

-- The account is the program's address for the bridge admin, and holds an initialised admin.
pub record Opened (env : Env) (program_id : Pubkey) (info bridge_info : AccountInfo) (b : Bank)
    (admin : CommissionAdmin) : Type 0 where
  pub key : env.create_program_address (admin_seeds env bridge_info) program_id ≡ ok info.key
  pub stored : env.commission_admin.deserialize (b info.key).data_bytes ≡ some admin
  pub initialized : admin.is_initialized ≡ true

-- The signature is over the root that the path leads to from the content, with the key that the
-- initialised bridge admin holds.
pub record Signed (env : Env) (bridge_info : AccountInfo) (b : Bank) (content : Content.Content)
    (path : List Bytes) (signature : Bytes) (recovery_id : ℕ) : Type 0 where
  pub signer : BridgeAdmin
  pub stored : env.bridge_admin.deserialize (b bridge_info.key).data_bytes ≡ some signer
  pub initialized : signer.is_initialized ≡ true
  pub recovered :
      env.secp256k1_recover (merkle_loop env (Content.hash env content) path) recovery_id signature
      ≡ some signer.public_key

module _ (env : Env) where
  pub check_admin_key-ok :
      (program_id : Pubkey) (info bridge_info : AccountInfo) {b b' : Bank} {key : Pubkey}
      → check_admin_key env program_id info bridge_info b ≡ ok (key, b')
      → (b' ≡ b)
        × (key ≡ info.key)
        × (env.create_program_address (admin_seeds env bridge_info) program_id ≡ ok info.key)
  unfolding check_admin_key
  check_admin_key-ok program_id info bridge_info {b} {b'} {key} e =
      let made = env.create_program_address (admin_seeds env bridge_info) program_id in
      let (k, b1, e1, f1) = bind-ok (lift made) _ e in
      let (u, b2, e2, f2) = bind-ok (require (bytes_eq k info.key) wrong_admin) _ f1 in
      let found = lift-ok made e1 in
      let same = require-ok (bytes_eq k info.key) wrong_admin e2 in
      ground (arith, found, same, bytes_eq_iff k info.key)

  pub read_commission_admin-ok :
      (info : AccountInfo) {b b' : Bank} {admin : CommissionAdmin}
      → read_commission_admin env info b ≡ ok (admin, b')
      → (b' ≡ b) × (env.commission_admin.deserialize (b info.key).data_bytes ≡ some admin)
  unfolding read_commission_admin
  read_commission_admin-ok info {b} {b'} {admin} e =
      let stored =
        from_option-ok (env.commission_admin.deserialize (b info.key).data_bytes) borsh_io_error
          e in
      ground (arith, stored)

  pub open_commission_admin-ok :
      (program_id : Pubkey) (info bridge_info : AccountInfo) {b b' : Bank} {key : Pubkey}
      {admin : CommissionAdmin}
      → open_commission_admin env program_id info bridge_info b ≡ ok ((key, admin), b')
      → (b' ≡ b) × (key ≡ info.key) × Opened env program_id info bridge_info b admin
  unfolding open_commission_admin
  open_commission_admin-ok program_id info bridge_info {b} {b'} {key} {admin} e =
      let (k, b1, e1, f1) = bind-ok (check_admin_key env program_id info bridge_info) _ e in
      let (a, b2, e2, f2) = bind-ok (read_commission_admin env info) _ f1 in
      let (u, b3, e3, f3) = bind-ok (require a.is_initialized not_initialized) _ f2 in
      let p = check_admin_key-ok program_id info bridge_info e1 in
      let q = read_commission_admin-ok info e2 in
      let r = require-ok a.is_initialized not_initialized e3 in ground (arith, p, q, r)

  open_signer-ok :
      (info : AccountInfo) {b b' : Bank} {signer : BridgeAdmin}
      → open_signer env info b ≡ ok (signer, b')
      → (b' ≡ b)
        × (env.bridge_admin.deserialize (b info.key).data_bytes ≡ some signer)
        × (signer.is_initialized ≡ true)
  unfolding open_signer
  open_signer-ok info {b} {b'} {signer} e =
      let (a, b2, e2, f2) = bind-ok (read_bridge_admin env info) _ e in
      let (u, b3, e3, f3) = bind-ok (require a.is_initialized not_initialized) _ f2 in
      let q = read_bridge_admin-ok env [] [] info e2 in
      let r = require-ok a.is_initialized not_initialized e3 in ground (arith, q, r)

  verify_content-ok :
      (content : Content.Content) (path : List Bytes) (signature : Bytes) (recovery_id : ℕ)
      (signer : BridgeAdmin) {b b' : Bank}
      → verify_content env content path signature recovery_id signer b ≡ ok (tt, b')
      → (b' ≡ b)
        × (env.secp256k1_recover
              (merkle_loop env (Content.hash env content) path)
              recovery_id
              signature
            ≡ some signer.public_key)
  unfolding verify_content get_merkle_root
  verify_content-ok content path signature recovery_id signer {b} {b'} e =
      let root = merkle_loop env (Content.hash env content) path in
      let check = verify_ecdsa_signature env root signature recovery_id signer.public_key in
      let checked = lift-ok check {b = b} {r = (tt, b')} e in
      (
        checked.1,
        (verify_ecdsa_signature_iff env root signature recovery_id signer.public_key).0 checked.0,
      )

  -- The two steps that authorise a change.
  abbrev pub authorise :
      AccountInfo → Content.Content → List Bytes → Bytes → ℕ → M (Unit {0}) → M (Unit {0})
  authorise bridge_info content path signature recovery_id k = do
    bridge_admin ← open_signer env bridge_info
    verify_content env content path signature recovery_id bridge_admin
    k

  pub authorise-ok :
      (bridge_info : AccountInfo) (content : Content.Content) (path : List Bytes)
      (signature : Bytes) (recovery_id : ℕ) (k : M (Unit {0})) (b b' : Bank)
      → authorise bridge_info content path signature recovery_id k b ≡ ok (tt, b')
      → Signed env bridge_info b content path signature recovery_id × (k b ≡ ok (tt, b'))
  authorise-ok bridge_info content path signature recovery_id k b b' e =
      let (s, b1, e1, f1) = bind-ok (open_signer env bridge_info) _ {b = b} e in
      let (b1-b, stored, init) = open_signer-ok bridge_info e1 in
      let (_, b2, e2, f2) =
        bind-ok (verify_content env content path signature recovery_id s) _ f1 in
      let (b2-b1, recovered) = verify_content-ok content path signature recovery_id s e2 in
      (
        record { signer = s; stored = stored; initialized = init; recovered = recovered },
        subst (λ (c : Bank). k c ≡ ok (tt, b')) (b2-b1 ∙ b1-b) f2,
      )

  -- The other way: where the facts hold, the checks pass and change nothing.
  pub open_commission_admin-passes :
      (program_id : Pubkey) (info bridge_info : AccountInfo) {b : Bank} {admin : CommissionAdmin}
      → Opened env program_id info bridge_info b admin
      → open_commission_admin env program_id info bridge_info b ≡ ok ((info.key, admin), b)
  unfolding open_commission_admin check_admin_key read_commission_admin
  open_commission_admin-passes program_id info bridge_info {b} {admin} o =
      ground (arith, o.key, bytes_eq_refl info.key, o.stored, o.initialized)

  verify_content-passes :
      (content : Content.Content) (path : List Bytes) (signature : Bytes) (recovery_id : ℕ)
      (signer : BridgeAdmin) (b : Bank)
      → env.secp256k1_recover
          (merkle_loop env (Content.hash env content) path)
          recovery_id
          signature
        ≡ some signer.public_key
      → verify_content env content path signature recovery_id signer b ≡ ok (tt, b)
  unfolding verify_content get_merkle_root
  verify_content-passes content path signature recovery_id signer b e =
      let root = merkle_loop env (Content.hash env content) path in
      ground
        (arith, (verify_ecdsa_signature_iff env root signature recovery_id signer.public_key).1 e)

  open_signer-passes :
      (info : AccountInfo) (signer : BridgeAdmin) (b : Bank)
      → env.bridge_admin.deserialize (b info.key).data_bytes ≡ some signer
      → signer.is_initialized ≡ true
      → open_signer env info b ≡ ok (signer, b)
  unfolding open_signer read_bridge_admin
  open_signer-passes info signer b stored init = ground arith

  pub authorise-passes :
      (bridge_info : AccountInfo) (content : Content.Content) (path : List Bytes)
      (signature : Bytes) (recovery_id : ℕ) (k : M (Unit {0})) (b : Bank)
      → Signed env bridge_info b content path signature recovery_id
      → authorise bridge_info content path signature recovery_id k b ≡ k b
  authorise-passes bridge_info content path signature recovery_id k b s =
      bind-step (open_signer env bridge_info) _
        (open_signer-passes bridge_info s.signer b s.stored s.initialized)
      ∙ bind-step (verify_content env content path signature recovery_id s.signer) (λ _. k)
          (verify_content-passes content path signature recovery_id s.signer b s.recovered)
