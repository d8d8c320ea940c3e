-- ===== src/Tests/Upgrade.antt =====
-- The theorems on the upgrade program, at a concrete upgrade and a concrete change of its key.
use solana_bridge_program.Common.{
  ℕ, arith, ◌≢◌, ◌≡◌, refl, some, List, [], ◌∷◌, ◌++◌, Bytes, replicate, bytes_eq,
}
use solana_bridge_program.Runtime.{
  Bank, Result, ok, next_account_info, write_data, checked_add, AccountInfo,
}
use solana_bridge_program.Runtime.Laws.{IsUsed, RecordLaws}
use solana_bridge_program.Runtime.Store.{OnlyData}
use solana_bridge_program.Shared.Types.{upgrade_admin_pda_seed}
use solana_bridge_program.Shared.Ecdsa.{verify_ecdsa_signature}
use solana_bridge_program.Shared.Merkle.{
  merkle_loop, merkle_step, get_merkle_root, amount_bytes, bytes_leb,
}
use solana_bridge_program.Upgrade.State.{UpgradeAdmin}
use solana_bridge_program.Upgrade.Content
use solana_bridge_program.Env.{Env}
use solana_bridge_program.Upgrade.Processor.{dispatch, process_instruction}
use solana_bridge_program.Shared.Instructions.Upgrade.{UpgradeInstruction}
use solana_bridge_program.Upgrade.Handlers.{
  read_upgrade_admin, process_transfer_ownership, process_upgrade,
}
use solana_bridge_program.Upgrade.Handlers.Upgraded.{
  Opened, Upgraded, upgrade_sound, upgrade_ownership_sound,
}
use solana_bridge_program.Runtime.History.{here, own, others}
use solana_bridge_program.Upgrade.Replay.{nonce_never_falls, upgrade_not_replayed}
use solana_bridge_program.Upgrade.Replay.Admin.{Held}
use solana_bridge_program.Upgrade.Replay.Kept.{ReadsKeys}
use solana_bridge_program.Tests.Laws.{test_laws}
use solana_bridge_program.Tests.Platform.{test_env, no_codec}
use solana_bridge_program.Tests.Accounts.{upgrade_admin_codec-IsLawful}
use solana_bridge_program.Tests.Scene.{
  test_upgrade_admin, program, upgrade_info, upgraded_program, other_info, handle, accounts, after,
}

abbrev new_key : Bytes
new_key = replicate 64 8

abbrev key_signature : Bytes
key_signature = test_env.keccak new_key ++ test_env.keccak new_key

abbrev transfer_run : Result (Unit {0} × Bank)
transfer_run =
    process_transfer_ownership test_env program (upgrade_info ∷ []) new_key key_signature 0
      (accounts 0 0)

transfer_runs : transfer_run ≡ ok (tt, after (accounts 0 0) transfer_run)
unfolding process_transfer_ownership read_upgrade_admin verify_ecdsa_signature bytes_eq
    next_account_info write_data upgrade_admin_pda_seed
transfer_runs = refl

upgrade_ownership_sound_example :
    (admin : UpgradeAdmin) × Opened test_env program upgrade_info admin.contract
      (accounts 0 0)
      admin
    × (test_env.secp256k1_recover (test_env.keccak new_key) 0 key_signature ≡ some admin.public_key)
    × (test_env.upgrade_admin.deserialize
          (after (accounts 0 0) transfer_run upgrade_info.key).data_bytes
        ≡ some (record admin { public_key = new_key }))
    × OnlyData upgrade_info.key (accounts 0 0) (after (accounts 0 0) transfer_run)
upgrade_ownership_sound_example =
    upgrade_ownership_sound test_env program upgrade_info [] new_key key_signature 0 (accounts 0 0)
      (after (accounts 0 0) transfer_run) upgrade_admin_codec-IsLawful refl transfer_runs

abbrev upgraded_info : AccountInfo
upgraded_info = handle upgraded_program

abbrev path : List Bytes
path = replicate 32 77 ∷ []

abbrev upgrade_signature : ℕ → Bytes
upgrade_signature nonce =
    let root =
      merkle_loop test_env
        (Content.hash test_env (Content.new nonce upgraded_program other_info.key)) path in
    root ++ root

abbrev upgrade_run : Result (Unit {0} × Bank)
upgrade_run =
    process_upgrade test_env program
      (upgrade_info ∷ other_info ∷ upgraded_info ∷ other_info ∷ other_info ∷ other_info ∷ other_info
        ∷ [])
      (upgrade_signature 4) 0 path (accounts 0 0)

upgrade_runs : upgrade_run ≡ ok (tt, after (accounts 0 0) upgrade_run)
unfolding process_upgrade read_upgrade_admin verify_ecdsa_signature bytes_eq next_account_info
    write_data upgrade_admin_pda_seed get_merkle_root merkle_loop merkle_step bytes_leb amount_bytes
    Content.hash Content.message Content.new checked_add
upgrade_runs = refl

upgrade_sound_example :
    Upgraded test_env program upgrade_info other_info upgraded_info other_info other_info other_info
      other_info []
      (upgrade_signature 4)
      0
      path
      (accounts 0 0)
      (after (accounts 0 0) upgrade_run)
upgrade_sound_example =
    upgrade_sound test_env program upgrade_info other_info upgraded_info other_info other_info
      other_info other_info [] (upgrade_signature 4) 0 path (accounts 0 0)
      (after (accounts 0 0) upgrade_run) upgrade_admin_codec-IsLawful upgrade_runs

abbrev once : Bank
once = after (accounts 0 0) upgrade_run

abbrev again : Result (Unit {0} × Bank)
again =
    process_upgrade test_env program
      (upgrade_info ∷ other_info ∷ upgraded_info ∷ other_info ∷ other_info ∷ other_info ∷ other_info
        ∷ [])
      (upgrade_signature 5) 0 path once

again_runs : again ≡ ok (tt, after once again)
unfolding process_upgrade read_upgrade_admin verify_ecdsa_signature bytes_eq next_account_info
    write_data upgrade_admin_pda_seed get_merkle_root merkle_loop merkle_step bytes_leb amount_bytes
    Content.hash Content.message Content.new checked_add
again_runs = refl

reads-ReadsKeys : ReadsKeys test_env
reads-ReadsKeys input args e = cc

admin-IsUsed : IsUsed program upgrade_info.key (accounts 0 0)
unfolding bytes_eq
admin-IsUsed = record { owner = refl; filled = omega arith }

-- The platform, with a codec that reads the signed upgrade.
abbrev upgrading_env : Env
upgrading_env = record test_env {
  upgrade_instruction = record no_codec {
    try_from_slice = λ input. some (
        UpgradeInstruction.upgrade
          (record { signature = upgrade_signature 4; recovery_id = 0; path = path }));
  };
}

upgrading_laws : RecordLaws upgrading_env program
upgrading_laws =
    let laws = test_laws program in
    record {
      owned_kept = laws.owned_kept;
      create_fresh = laws.create_fresh;
      create_done = laws.create_done;
    }

upgrading-ReadsKeys : ReadsKeys upgrading_env
upgrading-ReadsKeys input args e = cc

upgrading-Held : Held upgrading_env program upgrade_info.key upgraded_program 4 (accounts 0 0)
unfolding bytes_eq
upgrading-Held = record {
  used = admin-IsUsed;
  admin = test_upgrade_admin;
  stored = refl;
  initialized = refl;
  same_contract = refl;
  least = omega arith;
}

abbrev instruction_run : Result (Unit {0} × Bank)
instruction_run =
    process_instruction upgrading_env program
      (upgrade_info ∷ other_info ∷ upgraded_info ∷ other_info ∷ other_info ∷ other_info ∷ other_info
        ∷ [])
      [] (accounts 0 0)

instruction_runs : instruction_run ≡ ok (tt, after (accounts 0 0) instruction_run)
unfolding process_instruction dispatch process_upgrade read_upgrade_admin verify_ecdsa_signature
    bytes_eq next_account_info write_data upgrade_admin_pda_seed get_merkle_root merkle_loop
    merkle_step bytes_leb amount_bytes Content.hash Content.message Content.new checked_add
instruction_runs = refl

-- The program runs an upgrade, and another program runs after it.
nonce_never_falls_example :
    Held upgrading_env program upgrade_info.key upgraded_program 4
      (after (accounts 0 0) instruction_run)
nonce_never_falls_example =
    nonce_never_falls upgrading_env program upgrading_laws upgrade_admin_codec-IsLawful
      upgrading-ReadsKeys upgrade_info.key upgraded_program 4 upgrading-Held
      (others
        (own
          (upgrade_info ∷ other_info ∷ upgraded_info ∷ other_info ∷ other_info ∷ other_info
            ∷ other_info ∷ [])
          [] here instruction_runs)
        (λ k used. (refl, refl)))

upgrade_not_replayed_example :
    (first : Upgraded test_env program upgrade_info other_info upgraded_info other_info other_info
      other_info other_info []
      (upgrade_signature 4)
      0
      path
      (accounts 0 0)
      once)
    × (second : Upgraded test_env program upgrade_info other_info upgraded_info other_info
        other_info other_info other_info []
        (upgrade_signature 5)
        0
        path
        once
        (after once again))
    × (Content.message (Content.new first.admin.nonce first.admin.contract other_info.key)
        ≢ Content.message (Content.new second.admin.nonce second.admin.contract other_info.key))
upgrade_not_replayed_example =
    upgrade_not_replayed test_env program (test_laws program) upgrade_admin_codec-IsLawful
      reads-ReadsKeys upgrade_info other_info upgraded_info other_info other_info other_info
      other_info [] (upgrade_signature 4) 0 path other_info upgraded_info other_info other_info
      other_info other_info [] (upgrade_signature 5) 0 path (accounts 0 0) once once
      (after once again) admin-IsUsed upgrade_runs (others here (λ k used. (refl, refl))) again_runs
