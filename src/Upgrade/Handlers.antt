-- ===== src/Upgrade/Handlers.antt =====
-- The handlers of upgrade/program/src/processor.rs.
pub mod Upgraded
use solana_bridge_program.Common.{ℕ, true, not, List, [], ◌∷◌, Bytes, bytes_eq}
use solana_bridge_program.Runtime.{
  Pubkey, AccountInfo, M, account, lift, require, from_option, borsh_io_error, next_account_info,
  write_data, checked_add, ◌>>=◌, ◌>>◌,
}
use solana_bridge_program.Shared.Error.{wrong_admin, already_in_use, wrong_seeds, not_initialized}
use solana_bridge_program.Shared.Types.{upgrade_admin_pda_seed}
use solana_bridge_program.Env.{Env}
use solana_bridge_program.Shared.Merkle.{get_merkle_root}
use solana_bridge_program.Shared.Ecdsa.{verify_ecdsa_signature}
use solana_bridge_program.Shared.Calls.{call_create_account}
use solana_bridge_program.Upgrade.State.{UpgradeAdmin, max_admin_size}
use solana_bridge_program.Upgrade.Content

module _ (env : Env) where
  unfoldable pub read_upgrade_admin : AccountInfo → M UpgradeAdmin
  read_upgrade_admin info = do
    a ← account info
    from_option (env.upgrade_admin.deserialize a.data_bytes) borsh_io_error

  unfoldable pub process_init_admin : Pubkey → List AccountInfo → Bytes → Pubkey → M (Unit {0})
  unfolding next_account_info
  process_init_admin program_id accounts public_key upgrade_program = do
    (upgrade_admin_info, rest) ← next_account_info accounts
    (fee_payer_info, rest) ← next_account_info rest
    (system_program, rest) ← next_account_info rest
    (rent_info, rest) ← next_account_info rest
    upgrade_key ←
        lift (env.create_program_address (upgrade_admin_pda_seed ∷ upgrade_program ∷ []) program_id)
    require (bytes_eq upgrade_key upgrade_admin_info.key) wrong_admin
    call_create_account env fee_payer_info upgrade_admin_info rent_info system_program
        max_admin_size program_id (upgrade_admin_pda_seed ∷ upgrade_program ∷ [])
    upgrade_admin ← read_upgrade_admin upgrade_admin_info
    require (not upgrade_admin.is_initialized) already_in_use
    write_data upgrade_admin_info (
        env.upgrade_admin.serialize (record upgrade_admin {
          contract = upgrade_program;
          public_key = public_key;
          is_initialized = true;
        }))

  unfoldable pub process_transfer_ownership :
      Pubkey → List AccountInfo → Bytes → Bytes → ℕ → M (Unit {0})
  unfolding next_account_info
  process_transfer_ownership program_id accounts new_public_key signature recovery_id = do
    (upgrade_admin_info, rest) ← next_account_info accounts
    upgrade_admin ← read_upgrade_admin upgrade_admin_info
    require upgrade_admin.is_initialized not_initialized
    upgrade_admin_key ← lift (
        env.create_program_address (upgrade_admin_pda_seed ∷ upgrade_admin.contract ∷ [])
          program_id)
    require (bytes_eq upgrade_admin_key upgrade_admin_info.key) wrong_seeds
    lift (
        verify_ecdsa_signature env (env.keccak new_public_key) signature recovery_id
          upgrade_admin.public_key)
    write_data upgrade_admin_info
        (env.upgrade_admin.serialize (record upgrade_admin { public_key = new_public_key }))

  unfoldable pub process_upgrade : Pubkey → List AccountInfo → Bytes → ℕ → List Bytes → M (Unit {0})
  unfolding next_account_info
  process_upgrade program_id accounts signature recovery_id path = do
    (upgrade_admin_info, rest) ← next_account_info accounts
    (upgrade_program_data, rest) ← next_account_info rest
    (upgrade_program, rest) ← next_account_info rest
    (upgrade_buffer, rest) ← next_account_info rest
    (upgrade_spill, rest) ← next_account_info rest
    (rent_info, rest) ← next_account_info rest
    (clock_info, rest) ← next_account_info rest
    upgrade_admin_key ←
        lift (
          env.create_program_address (upgrade_admin_pda_seed ∷ upgrade_program.key ∷ []) program_id)
    require (bytes_eq upgrade_admin_key upgrade_admin_info.key) wrong_seeds
    upgrade_admin ← read_upgrade_admin upgrade_admin_info
    require upgrade_admin.is_initialized not_initialized
    root ← lift (
        get_merkle_root env
          (Content.hash env
            (Content.new upgrade_admin.nonce upgrade_admin.contract upgrade_buffer.key))
          path)
    lift (verify_ecdsa_signature env root signature recovery_id upgrade_admin.public_key)
    env.invoke_signed
        (env.loader_upgrade upgrade_program.key upgrade_buffer.key upgrade_admin_key
          upgrade_spill.key)
        (upgrade_program_data ∷ upgrade_program ∷ upgrade_buffer ∷ upgrade_spill ∷ rent_info
          ∷ clock_info ∷ upgrade_admin_info ∷ [])
        ((upgrade_admin_pda_seed ∷ upgrade_program.key ∷ []) ∷ [])
    nonce ← checked_add upgrade_admin.nonce 1
    write_data upgrade_admin_info
        (env.upgrade_admin.serialize (record upgrade_admin { nonce = nonce }))
