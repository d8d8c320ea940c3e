-- ===== src/Bridge/Kept/Handlers.antt =====
-- Every instruction of the bridge keeps what its actions keep.
use solana_bridge_program.Common.{ℕ, List, Bytes, Option}
use solana_bridge_program.Runtime.{Bank, AccountInfo, Pubkey}
use solana_bridge_program.Runtime.Keeps.{Keeps}
use solana_bridge_program.Env.{Env}
use solana_bridge_program.Shared.Instructions.Bridge.{
  SignedMetadata, BridgeInstruction, initialize_admin,
}
use solana_bridge_program.Bridge.Admin.{process_init_admin, process_transfer_ownership}
use solana_bridge_program.Bridge.Deposit.{
  process_deposit_native, process_deposit_ft, process_deposit_nft,
}
use solana_bridge_program.Bridge.Withdraw.{
  process_withdraw_native, process_withdraw_ft, process_withdraw_nft,
}
use solana_bridge_program.Bridge.Mint.{process_create_collection}
use solana_bridge_program.Bridge.Processor.{dispatch, process_instruction}
use solana_bridge_program.Bridge.Kept.Calls.{
  IsKept, IsWritable, call_keeps, check_seeds-Keeps, read_bridge_admin-Keeps,
  open_bridge_admin-Keeps,
}
use solana_bridge_program.Bridge.Kept.Parts.{
  ensure-Keeps, charged-Keeps, take_tokens-Keeps, mint_if_seeded-Keeps, create_withdraw-Keeps,
  init_withdraw-Keeps, verify_content-Keeps, read_metadata-Keeps, release_tokens-Keeps,
  read_collection-Keeps,
}

pub ruleset handler_keeps = (
  call_keeps, check_seeds-Keeps, read_bridge_admin-Keeps, open_bridge_admin-Keeps, ensure-Keeps,
  charged-Keeps, take_tokens-Keeps, mint_if_seeded-Keeps, create_withdraw-Keeps,
  init_withdraw-Keeps, verify_content-Keeps, read_metadata-Keeps, release_tokens-Keeps,
  read_collection-Keeps,
)

module _ {env : Env} {P : Bank → Type 0} (kept : IsKept env P) (pid : Pubkey)
    (infos : List AccountInfo) where
  pub deposit_native-Keeps :
      (s t r : Bytes) (n : ℕ) → Keeps P (process_deposit_native env pid infos s t r n)
  unfolding process_deposit_native
  deposit_native-Keeps s t r n = search (handler_keeps, kept.invoked) depth 40

  pub deposit_ft-Keeps :
      (s t r : Bytes) (n : ℕ) (o : Option Bytes)
      → Keeps P (process_deposit_ft env pid infos s t r n o)
  unfolding process_deposit_ft
  deposit_ft-Keeps s t r n o = search handler_keeps depth 40

  pub deposit_nft-Keeps :
      (s t r : Bytes) (o : Option Bytes) → Keeps P (process_deposit_nft env pid infos s t r o)
  unfolding process_deposit_nft
  deposit_nft-Keeps s t r o = search handler_keeps depth 40

  pub create_collection-Keeps :
      (s : Bytes) (d : SignedMetadata) (t : Bytes)
      → Keeps P (process_create_collection env pid infos s d t)
  unfolding process_create_collection
  create_collection-Keeps s d t = search handler_keeps depth 50

module _ {env : Env} {P : Bank → Type 0} (kept : IsKept env P)
    (written : (info : AccountInfo) → IsWritable P info) (pid : Pubkey)
    (infos : List AccountInfo) where
  init_admin-Keeps : (s k : Bytes) (c : Pubkey) → Keeps P (process_init_admin env pid infos s k c)
  unfolding process_init_admin
  init_admin-Keeps s k c = search (handler_keeps, written) depth 40

  transfer_ownership-Keeps :
      (s k g : Bytes) (n : ℕ) → Keeps P (process_transfer_ownership env pid infos s k g n)
  unfolding process_transfer_ownership
  transfer_ownership-Keeps s k g n = search (handler_keeps, written) depth 40

  withdraw_native-Keeps :
      (s g : Bytes) (n : ℕ) (p : List Bytes) (o : Bytes) (m : ℕ)
      → Keeps P (process_withdraw_native env pid infos s g n p o m)
  unfolding process_withdraw_native
  withdraw_native-Keeps s g n p o m =
      search (handler_keeps, written, kept.taken, kept.given) depth 40

  withdraw_ft-Keeps :
      (s g : Bytes) (n : ℕ) (p : List Bytes) (o : Bytes) (m : ℕ) (t : Option Bytes)
      (d : Option SignedMetadata)
      → Keeps P (process_withdraw_ft env pid infos s g n p o m t d)
  unfolding process_withdraw_ft
  withdraw_ft-Keeps s g n p o m t d = search (handler_keeps, written) depth 50

  withdraw_nft-Keeps :
      (s g : Bytes) (n : ℕ) (p : List Bytes) (o : Bytes) (t : Option Bytes)
      (d : Option SignedMetadata)
      → Keeps P (process_withdraw_nft env pid infos s g n p o t d)
  unfolding process_withdraw_nft
  withdraw_nft-Keeps s g n p o t d = search (handler_keeps, written) depth 50

  ruleset instruction_keeps = (
    handler_keeps, init_admin-Keeps, transfer_ownership-Keeps, deposit_native-Keeps,
    deposit_ft-Keeps, deposit_nft-Keeps, withdraw_native-Keeps, withdraw_ft-Keeps,
    withdraw_nft-Keeps, create_collection-Keeps,
  )

  dispatch-Keeps : (i : BridgeInstruction) → Keeps P (dispatch env pid infos i)
  unfolding dispatch
  dispatch-Keeps (initialize_admin args) = search instruction_keeps
  dispatch-Keeps _ = search instruction_keeps

  -- Whatever the input and the accounts.
  pub process_instruction-Keeps :
      (input : Bytes) → Keeps P (process_instruction env pid infos input)
  unfolding process_instruction
  process_instruction-Keeps input = search (handler_keeps, dispatch-Keeps)
