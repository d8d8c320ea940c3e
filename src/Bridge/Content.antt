-- ===== src/Bridge/Content.antt =====
-- bridge/program/src/merkle.rs: the message that the core signs for a withdrawal.
pub mod Layout
use solana_bridge_program.Common.{ℕ, Option, none, some, [], ◌∷◌, ◌++◌, Bytes}
use solana_bridge_program.Env.{Env}
use solana_bridge_program.Shared.Types.{solana_network}
use solana_bridge_program.Shared.Merkle.{amount_bytes}

pub record TransferData : Type 0 where
  pub address_to : Option Bytes
  pub token_id_to : Option Bytes
  pub amount : Option ℕ
  pub name : Option Bytes
  pub symbol : Option Bytes
  pub uri : Option Bytes
  pub decimals : Option ℕ

abbrev pub new_ft_transfer : Bytes → ℕ → Bytes → Bytes → Bytes → ℕ → TransferData
new_ft_transfer mint amount name symbol uri decimals = record {
  address_to = some mint;
  token_id_to = none;
  amount = some amount;
  name = some name;
  symbol = some symbol;
  uri = some uri;
  decimals = some decimals;
}

abbrev pub new_nft_transfer : Bytes → Option Bytes → Bytes → Bytes → Bytes → TransferData
new_nft_transfer mint collection name symbol uri = record {
  address_to = collection;
  token_id_to = some mint;
  amount = none;
  name = some name;
  symbol = some symbol;
  uri = some uri;
  decimals = none;
}

abbrev pub new_native_transfer : ℕ → TransferData
new_native_transfer amount = record {
  address_to = none;
  token_id_to = none;
  amount = some amount;
  name = none;
  symbol = none;
  uri = none;
  decimals = none;
}

-- `if let Some(val) = … { data.append(…) }`
abbrev bytes_of : Option Bytes → Bytes
bytes_of none = []
bytes_of (some val) = val

abbrev amount_of : Option ℕ → Bytes
amount_of none = []
amount_of (some val) = amount_bytes val

abbrev byte_of : Option ℕ → Bytes
byte_of none = []
byte_of (some val) = val ∷ []

unfoldable pub get_operation : TransferData → Bytes
get_operation t =
    bytes_of t.address_to
    ++ (bytes_of t.name
        ++ (bytes_of t.token_id_to
            ++ (bytes_of t.uri
                ++ (amount_of t.amount ++ (bytes_of t.symbol ++ byte_of t.decimals)))))

pub record Content : Type 0 where
  pub origin : Bytes
  pub network_to : Bytes
  pub receiver : Bytes
  pub program_id : Bytes
  pub operation : Bytes

-- `Content::new`
unfoldable pub new : Bytes → Bytes → Bytes → TransferData → Content
unfolding solana_network get_operation
new origin receiver program_id transfer = record {
  origin = origin;
  network_to = solana_network;
  receiver = receiver;
  program_id = program_id;
  operation = get_operation transfer;
}

-- The bytes that `Content::hash` hashes.
unfoldable pub message : Content → Bytes
message c = c.operation ++ (c.origin ++ (c.network_to ++ (c.receiver ++ c.program_id)))

unfoldable pub hash : Env → Content → Bytes
unfolding message
hash env c = env.keccak (message c)
