-- ===== src/Bridge/Kept/Parts.antt =====
-- The parts of the handlers.
use solana_bridge_program.Common.{ℕ, List, Bytes, Option, some, none}
use solana_bridge_program.Runtime.{Bank, AccountInfo, Pubkey}
use solana_bridge_program.Runtime.Keeps.{Keeps, Keeps-pure, Keeps-fail}
use solana_bridge_program.Env.{Env, Metadata}
use solana_bridge_program.Shared.Error.{no_token_meta}
use solana_bridge_program.Shared.Instructions.Bridge.{SignedMetadata}
use solana_bridge_program.Shared.Types.{TokenType}
use solana_bridge_program.Bridge.State.{BridgeAdmin, Withdraw}
use solana_bridge_program.Bridge.Token.{ensure_associated_account}
use solana_bridge_program.Bridge.Charge.{verify_commission_charged}
use solana_bridge_program.Bridge.Deposit.{take_tokens}
use solana_bridge_program.Bridge.Mint.{require_meta, try_mint_token_with_meta, mint_if_seeded}
use solana_bridge_program.Bridge.Record.{create_withdraw_account, init_withdraw_account}
use solana_bridge_program.Bridge.Content.{TransferData}
use solana_bridge_program.Bridge.Withdraw.{
  verify_content, read_metadata, read_token_amount, mint_missing, release_tokens, read_collection,
}
use solana_bridge_program.Bridge.Kept.Calls.{
  IsKept, IsWritable, call_keeps, checked_pred-Keeps, first_key-Keeps,
}

module _ {env : Env} {P : Bank → Type 0} (kept : IsKept env P) where
  pub ensure-Keeps :
      (k : Pubkey) (a b c d e f g : AccountInfo)
      → Keeps P (ensure_associated_account env k a b c d e f g)
  unfolding ensure_associated_account
  ensure-Keeps k a b c d e f g = search call_keeps depth 12

  pub charged-Keeps :
      (a b : AccountInfo) (admin : BridgeAdmin) (t : TokenType) (n : ℕ)
      → Keeps P (verify_commission_charged env a b admin t n)
  unfolding verify_commission_charged
  charged-Keeps a b admin t n = search (call_keeps, checked_pred-Keeps, first_key-Keeps) depth 20

  pub take_tokens-Keeps :
      (pid : Pubkey) (s : Option Bytes) (a b c d : AccountInfo) (n : ℕ)
      → Keeps P (take_tokens env pid s a b c d n)
  unfolding take_tokens
  take_tokens-Keeps pid none a b c d n = search call_keeps depth 12
  take_tokens-Keeps pid (some s) a b c d n = search call_keeps depth 12

  require_meta-Keeps : (meta : Option SignedMetadata) → Keeps P (require_meta meta)
  require_meta-Keeps none = Keeps-fail no_token_meta
  require_meta-Keeps (some meta) = Keeps-pure meta

  try_mint-Keeps :
      (pid : Pubkey) (a : AccountInfo) (s : Bytes) (meta : Option SignedMetadata)
      (b c d e f : AccountInfo) (seeds : Bytes)
      → Keeps P (try_mint_token_with_meta env pid a s meta b c d e f seeds)
  unfolding try_mint_token_with_meta
  try_mint-Keeps pid a s meta b c d e f seeds = search (call_keeps, require_meta-Keeps) depth 20

  pub mint_if_seeded-Keeps :
      (pid : Pubkey) (a : AccountInfo) (s : Option Bytes) (meta : Option SignedMetadata)
      (b c d e f : AccountInfo) (seeds : Bytes)
      → Keeps P (mint_if_seeded env pid a s meta b c d e f seeds)
  unfolding mint_if_seeded
  mint_if_seeded-Keeps pid a none meta b c d e f seeds = Keeps-pure tt
  mint_if_seeded-Keeps pid a (some s) meta b c d e f seeds =
      try_mint-Keeps pid a s meta b c d e f seeds

  pub create_withdraw-Keeps :
      (pid : Pubkey) (o : Bytes) (a b c d : AccountInfo)
      → Keeps P (create_withdraw_account env pid o a b c d)
  unfolding create_withdraw_account
  create_withdraw-Keeps pid o a b c d = search call_keeps depth 12

  pub init_withdraw-Keeps :
      (a : AccountInfo) (w : Withdraw) → IsWritable P a → Keeps P (init_withdraw_account env a w)
  unfolding init_withdraw_account
  init_withdraw-Keeps a w written = search (call_keeps, written) depth 12

  pub verify_content-Keeps :
      (pid : Pubkey) (o r : Bytes) (t : TransferData) (p : List Bytes) (s : Bytes) (n : ℕ)
      (k : Bytes)
      → Keeps P (verify_content env pid o r t p s n k)
  unfolding verify_content
  verify_content-Keeps pid o r t p s n k = search call_keeps depth 12

  pub read_metadata-Keeps : (a : AccountInfo) → Keeps P (read_metadata env a)
  unfolding read_metadata
  read_metadata-Keeps a = search call_keeps depth 12

  read_token_amount-Keeps : (a : AccountInfo) → Keeps P (read_token_amount env a)
  unfolding read_token_amount
  read_token_amount-Keeps a = search call_keeps depth 12

  mint_missing-Keeps :
      (a b c : AccountInfo) (s : Bytes) (n : Option ℕ) → Keeps P (mint_missing env a b c s n)
  unfolding mint_missing
  mint_missing-Keeps a b c s none = Keeps-pure tt
  mint_missing-Keeps a b c s (some n) = search call_keeps depth 12

  pub release_tokens-Keeps :
      (k : Pubkey) (a b c d e f g h : AccountInfo) (s : Bytes) (n : ℕ) (missing : ℕ → Option ℕ)
      → Keeps P (release_tokens env k a b c d e f g h s n missing)
  unfolding release_tokens
  release_tokens-Keeps k a b c d e f g h s n missing =
      search (call_keeps, ensure-Keeps, read_token_amount-Keeps, mint_missing-Keeps) depth 20

  pub read_collection-Keeps :
      (m : Metadata) (rest : List AccountInfo) (c : Option Pubkey)
      → Keeps P (read_collection env m rest c)
  unfolding read_collection
  read_collection-Keeps m rest none = search call_keeps depth 12
  read_collection-Keeps m rest (some c) = search (call_keeps, read_metadata-Keeps) depth 20
