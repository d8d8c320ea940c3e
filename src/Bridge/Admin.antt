-- ===== src/Bridge/Admin.antt =====
-- `process_init_admin` and `process_transfer_ownership` of bridge/program/src/processor.rs.
pub mod Ownership
pub mod Initialized
use solana_bridge_program.Common.{ℕ, true, not, List, [], ◌∷◌, Bytes}
use solana_bridge_program.Runtime.{
  Pubkey, AccountInfo, M, lift, require, next_account_info, write_data, ◌>>=◌, ◌>>◌,
}
use solana_bridge_program.Shared.Error.{already_in_use}
use solana_bridge_program.Env.{Env}
use solana_bridge_program.Shared.Ecdsa.{verify_ecdsa_signature}
use solana_bridge_program.Shared.Calls.{call_create_account}
use solana_bridge_program.Bridge.State.{BridgeAdmin, bridge_admin_size}
use solana_bridge_program.Bridge.Access.{check_seeds, read_bridge_admin, open_bridge_admin}

module _ (env : Env) where
  unfoldable pub process_init_admin :
      Pubkey → List AccountInfo → Bytes → Bytes → Pubkey → M (Unit {0})
  unfolding next_account_info
  process_init_admin program_id accounts seeds public_key commission_program = do
    (bridge_admin_info, rest) ← next_account_info accounts
    (fee_payer_info, rest) ← next_account_info rest
    (system_program, rest) ← next_account_info rest
    (rent_info, rest) ← next_account_info rest
    _ ← check_seeds env program_id seeds bridge_admin_info
    call_create_account env fee_payer_info bridge_admin_info rent_info system_program
        bridge_admin_size program_id (seeds ∷ [])
    bridge_admin ← read_bridge_admin env bridge_admin_info
    require (not bridge_admin.is_initialized) already_in_use
    write_data bridge_admin_info (
        env.bridge_admin.serialize (record {
          public_key = public_key;
          commission_program = commission_program;
          is_initialized = true;
        }))

  unfoldable pub process_transfer_ownership :
      Pubkey → List AccountInfo → Bytes → Bytes → Bytes → ℕ → M (Unit {0})
  unfolding next_account_info
  process_transfer_ownership program_id accounts seeds new_public_key signature recovery_id = do
    (bridge_admin_info, rest) ← next_account_info accounts
    (bridge_admin_key, bridge_admin) ← open_bridge_admin env program_id seeds bridge_admin_info
    lift (
        verify_ecdsa_signature env (env.keccak new_public_key) signature recovery_id
          bridge_admin.public_key)
    write_data bridge_admin_info
        (env.bridge_admin.serialize (record bridge_admin { public_key = new_public_key }))
