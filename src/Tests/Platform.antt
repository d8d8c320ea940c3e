-- ===== src/Tests/Platform.antt =====
-- A concrete platform for the tests. Its hash pads or cuts to 32 bytes; its only valid signature of
-- a hash is the hash written twice, and recovers one key. Of the calls of other programs only the
-- creation of an account does something, and it takes no rent. An account's data begins with the
-- index and the instruction that the sysvar gives.
use solana_bridge_program.Common.{
  ℕ, zero, suc, ◌+◌, false, Option, none, some, List, [], ◌∷◌, ◌++◌, Bytes, length, replicate,
  bytes_eq, ◌==◌, if◌then◌else◌,
}
use solana_bridge_program.Runtime.{
  Pubkey, AccountMeta, Instruction, Bank, Result, ok, err, external, M, set_account,
}
use solana_bridge_program.Shared.Types.{CommissionToken as CommissionTokenKind, as_bytes}
use solana_bridge_program.Shared.Instructions.Commission.{CommissionInstruction, charge_commission}
use solana_bridge_program.Commission.State.{CommissionAdmin}
use solana_bridge_program.Env.{Env, Solana, SplToken, Metaplex, Metadata, Borsh}
use solana_bridge_program.Tests.Accounts.{
  bridge_admin_codec, upgrade_admin_codec, withdraw_codec, byte_type,
}

abbrev pub pad : ℕ → Bytes → Bytes
pad zero xs = []
pad (suc n) [] = 0 ∷ pad n []
pad (suc n) (x ∷ xs) = x ∷ pad n xs

abbrev concat : List Bytes → Bytes
concat [] = []
concat (x ∷ xs) = x ++ concat xs

abbrev meta : Pubkey → AccountMeta
meta k = record { pubkey = k; is_signer = false; is_writable = false }

-- A call of a foreign program, told by one byte.
abbrev call : ℕ → List Pubkey → Bytes → Instruction
call tag keys bytes = record {
  program_id = replicate 32 0;
  accounts = metas keys;
  data_bytes = tag ∷ bytes;
}
  where
    metas : List Pubkey → List AccountMeta
    metas [] = []
    metas (k ∷ keys) = meta k ∷ metas keys

abbrev pub main_key : Bytes
main_key = replicate 64 9

-- The creation of an account that has no data.
abbrev pub create : Pubkey → ℕ → ℕ → Pubkey → M (Unit {0})
create new lamports space owner b =
    if length (b new).data_bytes == 0
    then ok (
      tt,
      set_account new
          (record { lamports = lamports; data_bytes = replicate space 0; owner = owner }) b,
    )
    else err (external 0)

abbrev pub run_create : List AccountMeta → Bytes → M (Unit {0})
run_create (payer ∷ new ∷ []) (lamports ∷ space ∷ owner) b =
    create new.pubkey lamports space owner b
run_create _ _ b = ok (tt, b)

abbrev pub run : Instruction → M (Unit {0})
run ix b = run_tag ix.data_bytes
  where
    run_tag : Bytes → Result (Unit {0} × Bank)
    run_tag (zero ∷ bytes) = run_create ix.accounts bytes b
    run_tag _ = ok (tt, b)

abbrev test_solana : Solana
test_solana = record {
  create_program_address = λ seeds program. ok (pad 32 (concat seeds));
  find_program_address = λ seeds program. (pad 32 (255 ∷ concat seeds), 255);
  keccak = pad 32;
  secp256k1_recover = λ hash reid sig. if bytes_eq sig (hash ++ hash) then some main_key else none;
  rent_minimum_balance = λ info space b. ok (space + 128);
  load_current_index_checked = λ info b. ok 1;
  load_instruction_at_checked = λ index info b. ok (record {
    program_id = (b info.key).owner;
    accounts = meta (pad 32 (as_bytes "commission_admin" ++ replicate 16 1)) ∷ [];
    data_bytes = (b info.key).data_bytes;
  });
  system_program_id = replicate 32 0;
  rent_id = replicate 32 5;
  system_create_account =
      λ payer new lamports space owner. call 0 (payer ∷ new ∷ []) (lamports ∷ space ∷ owner);
  system_transfer = λ from to amount. call 2 (from ∷ to ∷ []) (amount ∷ []);
  loader_upgrade =
      λ program buffer authority spill. call 3 (program ∷ buffer ∷ spill ∷ authority ∷ []) [];
  invoke_signed = λ ix infos seeds. run ix;
  size_of_token_type = 1;
  size_of_commission_token = 33;
}

abbrev test_spl : SplToken
test_spl = record {
  spl_token_id = replicate 32 6;
  spl_associated_token_account_id = replicate 32 7;
  mint_len = 82;
  unpack_mint = λ bytes. ok 6;
  unpack_account = λ bytes. ok 100;
  token_transfer =
      λ from to authority amount. ok (call 3 (from ∷ to ∷ authority ∷ []) (amount ∷ []));
  token_burn =
      λ from mint authority amount. ok (call 8 (from ∷ mint ∷ authority ∷ []) (amount ∷ []));
  token_mint_to =
      λ mint to authority amount. ok (call 7 (mint ∷ to ∷ authority ∷ []) (amount ∷ []));
  token_initialize_mint =
      λ mint authority decimals. ok (call 1 (mint ∷ authority ∷ []) (decimals ∷ []));
  get_associated_token_address = λ wallet mint. pad 32 (7 ∷ (pad 15 wallet ++ mint));
  create_associated_token_account = λ payer wallet mint. call 4 (payer ∷ wallet ∷ mint ∷ []) [];
}

abbrev pub test_metadata : Metadata
test_metadata = record {
  name = as_bytes "Gold";
  symbol = as_bytes "GLD";
  uri = as_bytes "g";
  collection = none;
}

abbrev test_metaplex : Metaplex
test_metaplex = record {
  limits = record { max_name_length = 32; max_symbol_length = 10; max_uri_length = 200 };
  mpl_token_metadata_id = replicate 32 8;
  find_pda = λ mint. pad 32 (5 ∷ mint);
  metadata_from_bytes = λ bytes. ok test_metadata;
  create_metadata_account_v3 = λ accounts args. call 33 (accounts.metadata ∷ []) [];
}

abbrev pub no_codec : {A : Type 0} → Borsh A
no_codec = record {
  serialize = λ x. [];
  deserialize = λ bytes. none;
  try_from_slice = λ bytes. none;
}

-- Only the nonces are kept; the acceptable tokens are always SOL, at 5.
abbrev write_commission : CommissionAdmin → Bytes
write_commission x =
    x.add_token_nonce
    ∷ x.update_token_nonce
    ∷ x.remove_token_nonce
    ∷ x.withdraw_token_nonce
    ∷ (if x.is_initialized then 1 else 0)
    ∷ []

abbrev read_commission : Bytes → Option CommissionAdmin
read_commission (a ∷ u ∷ r ∷ w ∷ i ∷ rest) = some (record {
  acceptable_tokens = record { token = CommissionTokenKind.native; amount = 5 } ∷ [];
  add_token_nonce = a;
  update_token_nonce = u;
  remove_token_nonce = r;
  withdraw_token_nonce = w;
  is_initialized = i == 1;
})
read_commission _ = none

abbrev read_charge : Bytes → Option CommissionInstruction
read_charge (t ∷ amount ∷ []) = some (
    charge_commission (record {
      token = CommissionTokenKind.native;
      deposit_token = byte_type t;
      deposit_token_amount = amount;
    }))
read_charge _ = none

abbrev pub test_env : Env
test_env = record {
  solana = test_solana;
  spl = test_spl;
  metaplex = test_metaplex;
  bridge_admin = bridge_admin_codec;
  withdraw = withdraw_codec;
  commission_admin = record {
    serialize = write_commission;
    deserialize = read_commission;
    try_from_slice = read_commission;
  };
  upgrade_admin = upgrade_admin_codec;
  bridge_instruction = no_codec;
  commission_instruction = record {
    serialize = λ x. [];
    deserialize = read_charge;
    try_from_slice = read_charge;
  };
  upgrade_instruction = no_codec;
}
