-- ===== src/Tests/Scene.antt =====
-- The accounts of the tests: an initialised bridge, commission and upgrade admin, a sysvar that
-- gives a charge of commission, an owner and empty accounts.
use solana_bridge_program.Common.{ℕ, true, [], ◌∷◌, ◌++◌, Bytes, replicate, bytes_eq, if◌then◌else◌}
use solana_bridge_program.Runtime.{Pubkey, AccountInfo, Bank, Result, ok, err}
use solana_bridge_program.Shared.Types.{as_bytes}
use solana_bridge_program.Bridge.State.{BridgeAdmin}
use solana_bridge_program.Upgrade.State.{UpgradeAdmin}
use solana_bridge_program.Tests.Platform.{test_env, main_key, pad}

abbrev pub program : Pubkey
program = replicate 32 2

abbrev pub seeds : Bytes
seeds = replicate 32 1

abbrev pub commission_program : Pubkey
commission_program = replicate 32 3

abbrev pub handle : Pubkey → AccountInfo
handle k = record { key = k; is_signer = true; is_writable = true }

abbrev pub bridge_info : AccountInfo
bridge_info = handle seeds

-- The program's address for the commission seed and the bridge.
abbrev pub commission_info : AccountInfo
commission_info = handle (pad 32 (as_bytes "commission_admin" ++ seeds))

abbrev pub upgraded_program : Pubkey
upgraded_program = replicate 32 12

abbrev pub upgrade_info : AccountInfo
upgrade_info = handle (pad 32 (as_bytes "upgrade_admin" ++ upgraded_program))

abbrev pub sysvar_info : AccountInfo
sysvar_info = handle (replicate 32 4)

abbrev pub owner_info : AccountInfo
owner_info = handle (replicate 32 10)

abbrev pub mint_info : AccountInfo
mint_info = handle (replicate 32 13)

abbrev pub metadata_info : AccountInfo
metadata_info = handle (pad 32 (5 ∷ replicate 32 13))

abbrev pub bridge_token : AccountInfo
bridge_token = handle (pad 32 (7 ∷ (pad 15 seeds ++ replicate 32 13)))

abbrev pub owner_token : AccountInfo
owner_token = handle (pad 32 (7 ∷ (replicate 15 10 ++ replicate 32 13)))

-- An account that plays no part.
abbrev pub other_info : AccountInfo
other_info = handle (replicate 32 20)

abbrev pub origin : Bytes
origin = replicate 32 11

abbrev pub withdraw_info : AccountInfo
withdraw_info = handle (pad 32 (255 ∷ origin))

abbrev pub test_bridge_admin : BridgeAdmin
test_bridge_admin = record {
  public_key = main_key;
  commission_program = commission_program;
  is_initialized = true;
}

abbrev pub test_upgrade_admin : UpgradeAdmin
test_upgrade_admin = record {
  public_key = main_key;
  contract = upgraded_program;
  nonce = 4;
  is_initialized = true;
}

-- The accounts, where the instruction before charges for the token of this tag and this amount.
abbrev pub accounts : ℕ → ℕ → Bank
accounts tag amount k =
    if bytes_eq k seeds
    then record {
      lamports = 1000;
      data_bytes = test_env.bridge_admin.serialize test_bridge_admin;
      owner = program;
    }
    else if bytes_eq k sysvar_info.key
    then record { lamports = 1; data_bytes = tag ∷ amount ∷ []; owner = commission_program }
    else if bytes_eq k commission_info.key
    then record { lamports = 50; data_bytes = 0 ∷ 0 ∷ 0 ∷ 0 ∷ 1 ∷ []; owner = commission_program }
    else if bytes_eq k upgrade_info.key
    then record {
      lamports = 9;
      data_bytes = test_env.upgrade_admin.serialize test_upgrade_admin;
      owner = program;
    }
    else if bytes_eq k bridge_token.key
    then record { lamports = 3; data_bytes = 1 ∷ []; owner = replicate 32 6 }
    else record { lamports = 20; data_bytes = []; owner = replicate 32 0 }

abbrev pub after : Bank → Result (Unit {0} × Bank) → Bank
after b (ok (u, b')) = b'
after b (err e) = b
