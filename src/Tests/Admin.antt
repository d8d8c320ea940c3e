-- ===== src/Tests/Admin.antt =====
-- The theorems on the bridge admin, at a concrete creation and a concrete change of its key.
use solana_bridge_program.Common.{◌≡◌, refl, some, [], ◌∷◌, ◌++◌, Bytes, replicate, bytes_eq}
use solana_bridge_program.Runtime.{Bank, Result, ok, next_account_info, write_data}
use solana_bridge_program.Runtime.Store.{OnlyData}
use solana_bridge_program.Shared.Ecdsa.{verify_ecdsa_signature}
use solana_bridge_program.Bridge.State.{BridgeAdmin}
use solana_bridge_program.Bridge.Access.{open_bridge_admin, check_seeds, read_bridge_admin}
use solana_bridge_program.Bridge.Access.Opened.{Opened}
use solana_bridge_program.Bridge.Admin.{process_init_admin, process_transfer_ownership}
use solana_bridge_program.Bridge.Admin.Initialized.{Initialized}
use solana_bridge_program.Bridge.Admin.Ownership.{Holds, transfer_ownership_sound}
use solana_bridge_program.Tests.Platform.{test_env}
use solana_bridge_program.Tests.Accounts.{bridge_admin_codec-IsLawful}
use solana_bridge_program.Tests.Scene.{
  program, commission_program, seeds, bridge_info, owner_info, other_info, handle, accounts, after,
}

abbrev new_key : Bytes
new_key = replicate 64 8

abbrev key_signature : Bytes
key_signature = test_env.keccak new_key ++ test_env.keccak new_key

abbrev transfer_run : Result (Unit {0} × Bank)
transfer_run =
    process_transfer_ownership test_env program (bridge_info ∷ []) seeds new_key key_signature 0
      (accounts 0 0)

transfer_runs : transfer_run ≡ ok (tt, after (accounts 0 0) transfer_run)
unfolding process_transfer_ownership open_bridge_admin check_seeds read_bridge_admin
    verify_ecdsa_signature bytes_eq next_account_info write_data
transfer_runs = refl

transfer_ownership_sound_example :
    (admin : BridgeAdmin) × Opened test_env program seeds bridge_info (accounts 0 0) admin
    × (test_env.secp256k1_recover (test_env.keccak new_key) 0 key_signature ≡ some admin.public_key)
    × Holds test_env bridge_info
        (after (accounts 0 0) transfer_run)
        (record admin { public_key = new_key })
    × OnlyData bridge_info.key (accounts 0 0) (after (accounts 0 0) transfer_run)
transfer_ownership_sound_example =
    transfer_ownership_sound test_env program bridge_info [] seeds new_key key_signature 0
      (accounts 0 0) (after (accounts 0 0) transfer_run) bridge_admin_codec-IsLawful refl
      transfer_runs

-- The seeds of another bridge, whose account does not exist yet.
abbrev new_seeds : Bytes
new_seeds = replicate 32 21

abbrev init_run : Result (Unit {0} × Bank)
init_run =
    process_init_admin test_env program
      (handle new_seeds ∷ owner_info ∷ other_info ∷ other_info ∷ []) new_seeds new_key
      commission_program (accounts 0 0)
