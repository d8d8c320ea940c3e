-- ===== src/Bridge/Access.antt =====
-- The start of every bridge handler in bridge/program/src/processor.rs: the bridge admin account
-- is the one of the seeds, and it is initialised.
pub mod Opened
use solana_bridge_program.Common.{[], ◌∷◌, Bytes, bytes_eq}
use solana_bridge_program.Runtime.{
  Pubkey, AccountInfo, M, pure, lift, account, require, from_option, borsh_io_error, ◌>>=◌, ◌>>◌,
}
use solana_bridge_program.Shared.Error.{wrong_seeds, not_initialized}
use solana_bridge_program.Env.{Env}
use solana_bridge_program.Bridge.State.{BridgeAdmin}

module _ (env : Env) where
  -- `BridgeAdmin::deserialize(&mut info.data.borrow_mut().as_ref())?`
  unfoldable pub read_bridge_admin : AccountInfo → M BridgeAdmin
  read_bridge_admin info = do
    a ← account info
    from_option (env.bridge_admin.deserialize a.data_bytes) borsh_io_error

  -- The key derived from the seeds, after the check that it is the key of the account.
  unfoldable pub check_seeds : Pubkey → Bytes → AccountInfo → M Pubkey
  check_seeds program_id seeds bridge_admin_info = do
    bridge_admin_key ← lift (env.create_program_address (seeds ∷ []) program_id)
    require (bytes_eq bridge_admin_key bridge_admin_info.key) wrong_seeds
    pure bridge_admin_key

  -- The checks that open every handler but `process_init_admin`, with the admin that they read.
  unfoldable pub open_bridge_admin : Pubkey → Bytes → AccountInfo → M (Pubkey × BridgeAdmin)
  open_bridge_admin program_id seeds bridge_admin_info = do
    bridge_admin_key ← check_seeds program_id seeds bridge_admin_info
    bridge_admin ← read_bridge_admin bridge_admin_info
    require bridge_admin.is_initialized not_initialized
    pure (bridge_admin_key, bridge_admin)
