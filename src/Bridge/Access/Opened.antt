-- ===== src/Bridge/Access/Opened.antt =====
-- What a handler knows once the opening checks have passed.
use solana_bridge_program.Common.{
  ◌≡◌, true, some, [], ◌∷◌, Bytes, arith, bytes_eq, bytes_eq_iff, bytes_eq_refl,
}
use solana_bridge_program.Runtime.{
  Pubkey, AccountInfo, Bank, ok, bind-ok, lift-ok, require-ok, from_option-ok, require, lift,
  borsh_io_error,
}
use solana_bridge_program.Shared.Error.{wrong_seeds, not_initialized}
use solana_bridge_program.Env.{Env}
use solana_bridge_program.Bridge.State.{BridgeAdmin}
use solana_bridge_program.Bridge.Access.{check_seeds, read_bridge_admin, open_bridge_admin}

-- The account is the program's address for the seeds, and holds an initialised admin.
pub record Opened (env : Env) (program_id seeds : Bytes) (info : AccountInfo) (b : Bank)
    (admin : BridgeAdmin) : Type 0 where
  pub key : env.create_program_address (seeds ∷ []) program_id ≡ ok info.key
  pub stored : env.bridge_admin.deserialize (b info.key).data_bytes ≡ some admin
  pub initialized : admin.is_initialized ≡ true

module _ (env : Env) (program_id seeds : Bytes) (info : AccountInfo) where
  pub check_seeds-ok :
      {b b' : Bank} {key : Pubkey}
      → check_seeds env program_id seeds info b ≡ ok (key, b')
      → (b' ≡ b)
        × (key ≡ info.key)
        × (env.create_program_address (seeds ∷ []) program_id ≡ ok info.key)
  unfolding check_seeds
  check_seeds-ok {b} {b'} {key} e =
      let (k, b1, e1, f1) =
        bind-ok (lift (env.create_program_address (seeds ∷ []) program_id)) _ e in
      let (u, b2, e2, f2) = bind-ok (require (bytes_eq k info.key) wrong_seeds) _ f1 in
      let found = lift-ok (env.create_program_address (seeds ∷ []) program_id) e1 in
      let same = require-ok (bytes_eq k info.key) wrong_seeds e2 in
      ground (arith, found, same, bytes_eq_iff k info.key)

  pub read_bridge_admin-ok :
      {b b' : Bank} {admin : BridgeAdmin}
      → read_bridge_admin env info b ≡ ok (admin, b')
      → (b' ≡ b) × (env.bridge_admin.deserialize (b info.key).data_bytes ≡ some admin)
  unfolding read_bridge_admin
  read_bridge_admin-ok {b} {b'} {admin} e =
      let stored =
        from_option-ok (env.bridge_admin.deserialize (b info.key).data_bytes) borsh_io_error e in
      ground (arith, stored)

  pub open_bridge_admin-ok :
      {b b' : Bank} {key : Pubkey} {admin : BridgeAdmin}
      → open_bridge_admin env program_id seeds info b ≡ ok ((key, admin), b')
      → (b' ≡ b) × (key ≡ info.key) × Opened env program_id seeds info b admin
  unfolding open_bridge_admin
  open_bridge_admin-ok {b} {b'} {key} {admin} e =
      let (k, b1, e1, f1) = bind-ok (check_seeds env program_id seeds info) _ e in
      let (a, b2, e2, f2) = bind-ok (read_bridge_admin env info) _ f1 in
      let (u, b3, e3, f3) = bind-ok (require a.is_initialized not_initialized) _ f2 in
      let p = check_seeds-ok e1 in
      let q = read_bridge_admin-ok e2 in
      let r = require-ok a.is_initialized not_initialized e3 in ground (arith, p, q, r)

  -- The other way: where the facts hold, the checks pass and change nothing.
  pub open_bridge_admin-passes :
      {b : Bank} {admin : BridgeAdmin}
      → Opened env program_id seeds info b admin
      → open_bridge_admin env program_id seeds info b ≡ ok ((info.key, admin), b)
  unfolding open_bridge_admin check_seeds read_bridge_admin
  open_bridge_admin-passes {b} {admin} o =
      ground (arith, o.key, bytes_eq_refl info.key, o.stored, o.initialized)
