-- ===== src/Tests/Client.antt =====
-- The theorems on the client's builders, at concrete instructions.
use solana_bridge_program.Common.{
  ◌≡◌, ◌≢◌, ◌≤◌, refl, true, false, none, some, Option, [], ◌∷◌, ◌++◌, Bytes, replicate, bytes_eq,
  ◌==◌, if◌then◌else◌, arith, length,
}
use solana_bridge_program.Runtime.{Bank, ok}
use solana_bridge_program.Env.{Env}
use solana_bridge_program.Shared.Client.Bridge as Client
use solana_bridge_program.Shared.Instructions.Bridge.{BridgeInstruction}
use solana_bridge_program.Bridge.Access.Opened.{Opened}
use solana_bridge_program.Bridge.Admin.Ownership.{Holds}
use solana_bridge_program.Bridge.Processor.Built.{execute, built_instructions_fail}
use solana_bridge_program.Bridge.Processor.Accepted.{built_transfer_succeeds}
use solana_bridge_program.Tests.Platform.{test_env}
use solana_bridge_program.Tests.Accounts.{bridge_admin_codec-IsLawful}
use solana_bridge_program.Tests.Scene.{
  program, seeds, bridge_info, owner_info, withdraw_info, mint_info, origin, test_bridge_admin,
  accounts,
}

abbrev new_key : Bytes
new_key = replicate 64 8

abbrev key_signature : Bytes
key_signature = test_env.keccak new_key ++ test_env.keccak new_key

-- An instruction of each kind.
abbrev native_request : BridgeInstruction
native_request = BridgeInstruction.deposit_native (record {
  amount = 7;
  network_to = [];
  receiver_address = [];
  seeds = seeds;
  bundle_data = none;
  bundle_seed = none;
})

abbrev ft_request : BridgeInstruction
ft_request = BridgeInstruction.deposit_ft (record {
  amount = 7;
  network_to = [];
  receiver_address = [];
  seeds = seeds;
  token_seed = none;
  bundle_data = none;
  bundle_seed = none;
})

abbrev nft_request : BridgeInstruction
nft_request = BridgeInstruction.deposit_nft (record {
  network_to = [];
  receiver_address = [];
  seeds = seeds;
  token_seed = none;
  bundle_data = none;
  bundle_seed = none;
})

abbrev withdraw_request : BridgeInstruction
withdraw_request = BridgeInstruction.withdraw_ft (record {
  origin = origin;
  amount = 7;
  signature = [];
  recovery_id = 0;
  path = [];
  seeds = seeds;
  token_seed = none;
  signed_meta = none;
})

abbrev transfer_request : BridgeInstruction
transfer_request =
    BridgeInstruction.transfer_ownership (record {
      new_public_key = new_key;
      signature = key_signature;
      recovery_id = 0;
      seeds = seeds;
    })

-- A codec of these instructions: a byte tells the kind.
abbrev write_request : BridgeInstruction → Bytes
write_request (BridgeInstruction.deposit_native args) = 0 ∷ []
write_request (BridgeInstruction.deposit_ft args) = 1 ∷ []
write_request (BridgeInstruction.deposit_nft args) = 2 ∷ []
write_request (BridgeInstruction.withdraw_ft args) = 3 ∷ []
write_request _ = 4 ∷ []

abbrev read_request : Bytes → Option BridgeInstruction
read_request [] = none
read_request (tag ∷ bytes) = some (
    if tag == 0
    then native_request
    else if tag == 1
    then ft_request
    else if tag == 2
    then nft_request
    else if tag == 3
    then withdraw_request
    else transfer_request)

abbrev client_env : Env
client_env = record test_env {
  bridge_instruction = record {
    serialize = write_request;
    deserialize = read_request;
    try_from_slice = read_request;
  };
}

built_instructions_fail_example :
    (execute client_env program
        (Client.deposit_native client_env program bridge_info.key owner_info.key seeds [] 7 [] none
          none)
        (accounts 0 7)
      ≢ ok (tt, accounts 0 7))
    × (execute client_env program
          (Client.deposit_ft client_env program bridge_info.key mint_info.key owner_info.key seeds
            [] [] 7 none none none)
          (accounts 0 7)
        ≢ ok (tt, accounts 0 7))
    × (execute client_env program
          (Client.deposit_nft client_env program bridge_info.key mint_info.key owner_info.key seeds
            [] [] none none none)
          (accounts 0 7)
        ≢ ok (tt, accounts 0 7))
    × (execute client_env program
          (Client.withdraw_ft client_env program bridge_info.key mint_info.key owner_info.key
            withdraw_info.key seeds origin 7 [] 0 [] none none)
          (accounts 0 7)
        ≢ ok (tt, accounts 0 7))
built_instructions_fail_example =
    built_instructions_fail client_env program bridge_info.key mint_info.key owner_info.key
      withdraw_info.key seeds [] [] origin 7 none none none [] 0 [] none (accounts 0 7)
      (accounts 0 7) refl refl refl refl

admin-Opened :
    Opened client_env program seeds
      (record { key = bridge_info.key; is_signer = false; is_writable = true })
      (accounts 0 0)
      test_bridge_admin
unfolding bytes_eq
admin-Opened = record { key = refl; stored = refl; initialized = refl }

key_recovered :
    client_env.secp256k1_recover (client_env.keccak new_key) 0 key_signature
    ≡ some test_bridge_admin.public_key
unfolding bytes_eq
key_recovered = refl

room :
    length (client_env.bridge_admin.serialize (record test_bridge_admin { public_key = new_key }))
    ≤ length (accounts 0 0 bridge_info.key).data_bytes
unfolding bytes_eq
room = omega arith

built_transfer_succeeds_example :
    (b' : Bank) × (execute client_env program
        (Client.transfer_ownership client_env program bridge_info.key key_signature new_key 0 seeds)
        (accounts 0 0)
      ≡ ok (tt, b'))
    × Holds client_env
        (record { key = bridge_info.key; is_signer = false; is_writable = true })
        b'
        (record test_bridge_admin { public_key = new_key })
built_transfer_succeeds_example =
    built_transfer_succeeds client_env program bridge_info.key seeds new_key key_signature 0
      test_bridge_admin (accounts 0 0) refl bridge_admin_codec-IsLawful refl admin-Opened
      key_recovered room
