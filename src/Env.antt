-- ===== src/Env.antt =====
-- What the programs use and do not implement: the Solana SDK and runtime, the SPL token and the
-- Metaplex crates, and the Borsh codecs. Each is a parameter of the model.
use solana_bridge_program.Common.{ℕ, Bool, Option, some, List, ◌++◌, ◌≡◌, Bytes}
use solana_bridge_program.Runtime.{Pubkey, Bank, AccountInfo, Instruction, Result, M}
use solana_bridge_program.Shared.Instructions.Bridge.{BridgeInstruction, MetadataLimits}
use solana_bridge_program.Shared.Instructions.Commission.{CommissionInstruction}
use solana_bridge_program.Shared.Instructions.Upgrade.{UpgradeInstruction}
use solana_bridge_program.Bridge.State.{BridgeAdmin, Withdraw}
use solana_bridge_program.Commission.State.{CommissionAdmin}
use solana_bridge_program.Upgrade.State.{UpgradeAdmin}

-- solana_program. `rent_minimum_balance` is `Rent::from_account_info(info)?.minimum_balance(space)`,
-- `invoke_signed` runs another program on the accounts.
pub record Solana : Type 0 where
  pub create_program_address : List Bytes → Pubkey → Result Pubkey
  pub find_program_address : List Bytes → Pubkey → Pubkey × ℕ
  pub keccak : Bytes → Bytes
  pub secp256k1_recover : Bytes → ℕ → Bytes → Option Bytes
  pub rent_minimum_balance : AccountInfo → ℕ → Bank → Result ℕ
  pub load_current_index_checked : AccountInfo → Bank → Result ℕ
  pub load_instruction_at_checked : ℕ → AccountInfo → Bank → Result Instruction
  pub system_program_id : Pubkey
  pub rent_id : Pubkey
  pub system_create_account : Pubkey → Pubkey → ℕ → ℕ → Pubkey → Instruction
  pub system_transfer : Pubkey → Pubkey → ℕ → Instruction
  pub loader_upgrade : Pubkey → Pubkey → Pubkey → Pubkey → Instruction
  pub invoke_signed : Instruction → List AccountInfo → List (List Bytes) → M (Unit {0})
  -- `size_of::<TokenType>()` and `size_of::<CommissionToken>()`
  pub size_of_token_type : ℕ
  pub size_of_commission_token : ℕ

-- spl_token and spl_associated_token_account. `unpack_mint` gives the decimals of a mint and
-- `unpack_account` the amount of a token account, the only fields that the programs read.
pub record SplToken : Type 0 where
  pub spl_token_id : Pubkey
  pub spl_associated_token_account_id : Pubkey
  pub mint_len : ℕ
  pub unpack_mint : Bytes → Result ℕ
  pub unpack_account : Bytes → Result ℕ
  pub token_transfer : Pubkey → Pubkey → Pubkey → ℕ → Result Instruction
  pub token_burn : Pubkey → Pubkey → Pubkey → ℕ → Result Instruction
  pub token_mint_to : Pubkey → Pubkey → Pubkey → ℕ → Result Instruction
  pub token_initialize_mint : Pubkey → Pubkey → ℕ → Result Instruction
  pub get_associated_token_address : Pubkey → Pubkey → Pubkey
  pub create_associated_token_account : Pubkey → Pubkey → Pubkey → Instruction

-- The fields of `mpl_token_metadata::accounts::Metadata` that the bridge reads.
pub record Metadata : Type 0 where
  pub name : Bytes
  pub symbol : Bytes
  pub uri : Bytes
  pub collection : Option Pubkey

-- `DataV2` and the fields of `CreateMetadataAccountV3InstructionArgs` beside it. The optional fields
-- that the bridge sets to `None` are bytes here.
pub record CreateMetadataArgs : Type 0 where
  pub name : Bytes
  pub symbol : Bytes
  pub uri : Bytes
  pub seller_fee_basis_points : ℕ
  pub creators : Option Bytes
  pub collection : Option Bytes
  pub uses : Option Bytes
  pub is_mutable : Bool
  pub collection_details : Option Bytes

pub record CreateMetadataAccountV3 : Type 0 where
  pub metadata : Pubkey
  pub mint : Pubkey
  pub mint_authority : Pubkey
  pub payer : Pubkey
  pub update_authority : Pubkey × Bool
  pub system_program : Pubkey
  pub rent : Option Pubkey

-- mpl_token_metadata. `find_pda` is the address alone.
pub record Metaplex : Type 0 where
  pub limits : MetadataLimits
  pub mpl_token_metadata_id : Pubkey
  pub find_pda : Pubkey → Pubkey
  pub metadata_from_bytes : Bytes → Result Metadata
  pub create_metadata_account_v3 : CreateMetadataAccountV3 → CreateMetadataArgs → Instruction

-- A derived Borsh codec. `deserialize` reads a value off the front of a buffer, `try_from_slice`
-- reads a buffer to its end.
pub record Borsh (A : Type 0) : Type 0 where
  pub serialize : A → Bytes
  pub deserialize : Bytes → Option A
  pub try_from_slice : Bytes → Option A

pub record Env : Type 0 where
  pub solana : Solana
  pub open solana use *
  pub spl : SplToken
  pub open spl use *
  pub metaplex : Metaplex
  pub open metaplex use *
  pub bridge_admin : Borsh BridgeAdmin
  pub withdraw : Borsh Withdraw
  pub commission_admin : Borsh CommissionAdmin
  pub upgrade_admin : Borsh UpgradeAdmin
  pub bridge_instruction : Borsh BridgeInstruction
  pub commission_instruction : Borsh CommissionInstruction
  pub upgrade_instruction : Borsh UpgradeInstruction

-- What Borsh documents, for the values of the right sizes: the arrays and the integers of the
-- source have a fixed length and width, which the lists and the numbers of the model lack.
pub record IsLawful {A : Type 0} (IsSized : A → Type 0) (c : Borsh A) : Type 0 where
  pub round_trip :
      (x : A) (rest : Bytes) → IsSized x → c.deserialize (c.serialize x ++ rest) ≡ some x
  pub sized : (bytes : Bytes) (x : A) → c.deserialize bytes ≡ some x → IsSized x
