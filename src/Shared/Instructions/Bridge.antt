-- ===== src/Shared/Instructions/Bridge.antt =====
-- lib/src/instructions/bridge.rs: the instructions of the bridge program and their validation.
-- A string is its UTF-8 bytes.
use solana_bridge_program.Common.{
  ℕ, Bool, ◌||◌, Option, List, Bytes, length, ltb, ◌==◌, if◌then◌else◌,
}
use solana_bridge_program.Runtime.{Pubkey, Result, ok, err, into}
use solana_bridge_program.Shared.Error.{wrong_args_size}

abbrev pub max_networks_size : ℕ
max_networks_size = 20

abbrev pub max_address_size : ℕ
max_address_size = 100

pub record InitializeAdminArgs : Type 0 where
  pub public_key : Bytes
  pub seeds : Bytes
  pub commission_program : Pubkey

pub record TransferOwnershipArgs : Type 0 where
  pub new_public_key : Bytes
  pub signature : Bytes
  pub recovery_id : ℕ
  pub seeds : Bytes

pub record DepositNativeArgs : Type 0 where
  pub amount : ℕ
  pub network_to : Bytes
  pub receiver_address : Bytes
  pub seeds : Bytes
  pub bundle_data : Option Bytes
  pub bundle_seed : Option Bytes

pub record DepositFtArgs : Type 0 where
  pub amount : ℕ
  pub network_to : Bytes
  pub receiver_address : Bytes
  pub seeds : Bytes
  pub token_seed : Option Bytes
  pub bundle_data : Option Bytes
  pub bundle_seed : Option Bytes

pub record DepositNftArgs : Type 0 where
  pub network_to : Bytes
  pub receiver_address : Bytes
  pub seeds : Bytes
  pub token_seed : Option Bytes
  pub bundle_data : Option Bytes
  pub bundle_seed : Option Bytes

pub record SignedMetadata : Type 0 where
  pub name : Bytes
  pub symbol : Bytes
  pub uri : Bytes
  pub decimals : ℕ

pub record WithdrawArgs : Type 0 where
  pub origin : Bytes
  pub amount : ℕ
  pub signature : Bytes
  pub recovery_id : ℕ
  pub path : List Bytes
  pub seeds : Bytes
  pub token_seed : Option Bytes
  pub signed_meta : Option SignedMetadata

pub record MintCollectionArgs : Type 0 where
  pub meta : SignedMetadata
  pub seeds : Bytes
  pub token_seed : Bytes

pub data BridgeInstruction : Type 0 where
  initialize_admin : InitializeAdminArgs → BridgeInstruction
  transfer_ownership : TransferOwnershipArgs → BridgeInstruction
  deposit_native : DepositNativeArgs → BridgeInstruction
  deposit_ft : DepositFtArgs → BridgeInstruction
  deposit_nft : DepositNftArgs → BridgeInstruction
  withdraw_native withdraw_ft withdraw_nft : WithdrawArgs → BridgeInstruction
  mint_collection : MintCollectionArgs → BridgeInstruction

-- `mpl_token_metadata::{MAX_NAME_LENGTH, MAX_SYMBOL_LENGTH, MAX_URI_LENGTH}`
pub record MetadataLimits : Type 0 where
  pub max_name_length : ℕ
  pub max_symbol_length : ℕ
  pub max_uri_length : ℕ

abbrev size_check : Bool → Result (Unit {0})
size_check wrong = if wrong then err (into wrong_args_size) else ok tt

unfoldable pub validate_deposit_native : DepositNativeArgs → Result (Unit {0})
validate_deposit_native a = size_check (
    ltb max_address_size (length a.receiver_address)
    || ltb max_networks_size (length a.network_to)
    || a.amount == 0)

unfoldable pub validate_deposit_ft : DepositFtArgs → Result (Unit {0})
validate_deposit_ft a = size_check (
    ltb max_address_size (length a.receiver_address)
    || ltb max_networks_size (length a.network_to)
    || a.amount == 0)

unfoldable pub validate_deposit_nft : DepositNftArgs → Result (Unit {0})
validate_deposit_nft a = size_check (
    ltb max_address_size (length a.receiver_address) || ltb max_networks_size (length a.network_to))

unfoldable pub validate_withdraw : WithdrawArgs → Result (Unit {0})
validate_withdraw a = size_check (a.amount == 0)

unfoldable pub validate_signed_metadata : MetadataLimits → SignedMetadata → Result (Unit {0})
validate_signed_metadata l m = size_check (
    ltb l.max_name_length (length m.name)
    || ltb l.max_symbol_length (length m.symbol)
    || ltb l.max_uri_length (length m.uri))

unfoldable pub validate_mint_collection : MetadataLimits → MintCollectionArgs → Result (Unit {0})
unfolding validate_signed_metadata
validate_mint_collection l a = validate_signed_metadata l a.meta
