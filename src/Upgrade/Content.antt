-- ===== src/Upgrade/Content.antt =====
-- upgrade/program/src/merkle.rs: the message that is signed for an upgrade.
use solana_bridge_program.Common.{ℕ, ◌++◌, Bytes}
use solana_bridge_program.Runtime.{Pubkey}
use solana_bridge_program.Env.{Env}
use solana_bridge_program.Shared.Types.{solana_network}
use solana_bridge_program.Shared.Merkle.{amount_bytes}

pub record Content : Type 0 where
  pub network : Bytes
  pub nonce : ℕ
  pub contract : Pubkey
  pub buffer : Pubkey

-- `Content::new`
unfoldable pub new : ℕ → Pubkey → Pubkey → Content
unfolding solana_network
new nonce contract buffer = record {
  network = solana_network;
  nonce = nonce;
  contract = contract;
  buffer = buffer;
}

-- The bytes that `Content::hash` hashes.
unfoldable pub message : Content → Bytes
message c = c.network ++ (amount_bytes c.nonce ++ (c.contract ++ c.buffer))

unfoldable pub hash : Env → Content → Bytes
unfolding message
hash env c = env.keccak (message c)
