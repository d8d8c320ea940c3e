-- ===== src/Commission/Content.antt =====
-- commission/program/src/merkle.rs: the message that is signed for a change of the commission
-- admin.
use solana_bridge_program.Common.{ℕ, Option, none, some, [], ◌∷◌, ◌++◌, Bytes}
use solana_bridge_program.Runtime.{Pubkey}
use solana_bridge_program.Env.{Env}
use solana_bridge_program.Shared.Types.{CommissionToken as CommissionTokenKind, solana_network}
use solana_bridge_program.Shared.Merkle.{amount_bytes}
use solana_bridge_program.Commission.State.{CommissionToken, OperationType, operation_byte}

pub record Content : Type 0 where
  pub nonce : ℕ
  pub receiver : Option Pubkey
  pub contract : Pubkey
  pub network : Bytes
  pub operation_type : OperationType
  pub token : CommissionToken

-- `Content::new`
unfoldable pub new : ℕ → Option Pubkey → Pubkey → OperationType → CommissionToken → Content
unfolding solana_network
new nonce receiver contract operation_type token = record {
  nonce = nonce;
  receiver = receiver;
  contract = contract;
  network = solana_network;
  operation_type = operation_type;
  token = token;
}

abbrev receiver_bytes : Option Pubkey → Bytes
receiver_bytes none = []
receiver_bytes (some receiver) = receiver

abbrev mint_bytes : CommissionTokenKind → Bytes
mint_bytes CommissionTokenKind.native = []
mint_bytes (CommissionTokenKind.ft mint) = mint
mint_bytes (CommissionTokenKind.nft mint) = mint

-- The bytes that `Content::hash` hashes.
unfoldable pub message : Content → Bytes
unfolding operation_byte
message c =
    amount_bytes c.nonce
    ++ (receiver_bytes c.receiver
        ++ (c.contract
            ++ (c.network
                ++ (operation_byte c.operation_type
                    ∷ (mint_bytes c.token.token ++ amount_bytes c.token.amount)))))

unfoldable pub hash : Env → Content → Bytes
unfolding message
hash env c = env.keccak (message c)
