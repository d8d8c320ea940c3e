-- ===== src/Commission/Access.antt =====
-- The checks that open the handlers of commission/program/src/processor.rs, and the check of a
-- signed message.
pub mod Opened
use solana_bridge_program.Common.{ℕ, List, [], ◌∷◌, Bytes, bytes_eq}
use solana_bridge_program.Runtime.{
  Pubkey, AccountInfo, M, pure, account, lift, require, from_option, borsh_io_error, ◌>>=◌, ◌>>◌,
}
use solana_bridge_program.Shared.Error.{wrong_admin, not_initialized}
use solana_bridge_program.Shared.Types.{commission_admin_pda_seed}
use solana_bridge_program.Env.{Env}
use solana_bridge_program.Shared.Merkle.{get_merkle_root}
use solana_bridge_program.Shared.Ecdsa.{verify_ecdsa_signature}
use solana_bridge_program.Bridge.State.{BridgeAdmin}
use solana_bridge_program.Bridge.Access.{read_bridge_admin}
use solana_bridge_program.Commission.State.{CommissionAdmin}
use solana_bridge_program.Commission.Content

module _ (env : Env) where
  unfoldable pub read_commission_admin : AccountInfo → M CommissionAdmin
  read_commission_admin info = do
    a ← account info
    from_option (env.commission_admin.deserialize a.data_bytes) borsh_io_error

  -- `&[lib::COMMISSION_ADMIN_PDA_SEED.as_bytes(), bridge_admin_info.key.as_ref()]`
  abbrev pub admin_seeds : AccountInfo → List Bytes
  admin_seeds bridge_admin_info = commission_admin_pda_seed ∷ bridge_admin_info.key ∷ []

  -- The address check at the start of every handler.
  unfoldable pub check_admin_key : Pubkey → AccountInfo → AccountInfo → M Pubkey
  check_admin_key program_id commission_admin_info bridge_admin_info = do
    commission_key ← lift (env.create_program_address (admin_seeds bridge_admin_info) program_id)
    require (bytes_eq commission_key commission_admin_info.key) wrong_admin
    pure commission_key

  -- The address check and the commission admin, which must be initialised.
  unfoldable pub open_commission_admin :
      Pubkey → AccountInfo → AccountInfo → M (Pubkey × CommissionAdmin)
  open_commission_admin program_id commission_admin_info bridge_admin_info = do
    commission_key ← check_admin_key program_id commission_admin_info bridge_admin_info
    commission_admin ← read_commission_admin commission_admin_info
    require commission_admin.is_initialized not_initialized
    pure (commission_key, commission_admin)

  -- The bridge admin, which must be initialised.
  unfoldable pub open_signer : AccountInfo → M BridgeAdmin
  open_signer bridge_admin_info = do
    bridge_admin ← read_bridge_admin env bridge_admin_info
    require bridge_admin.is_initialized not_initialized
    pure bridge_admin

  -- The signature of the bridge's key over the root that the content's path leads to.
  unfoldable pub verify_content :
      Content.Content → List Bytes → Bytes → ℕ → BridgeAdmin → M (Unit {0})
  verify_content content path signature recovery_id bridge_admin = do
    root ← lift (get_merkle_root env (Content.hash env content) path)
    lift (verify_ecdsa_signature env root signature recovery_id bridge_admin.public_key)
