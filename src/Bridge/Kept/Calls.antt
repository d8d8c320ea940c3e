-- ===== src/Bridge/Kept/Calls.antt =====
-- The actions that the handlers of the bridge are made of.
use solana_bridge_program.Common.{ℕ, List, Bytes, [], ◌∷◌, zero, suc}
use solana_bridge_program.Runtime.{
  Bank, AccountInfo, AccountMeta, Pubkey, Instruction, write_data, panicked,
}
use solana_bridge_program.Runtime.Keeps.{Keeps, keeps_rules, Keeps-pure, Keeps-abort, Keeps-fail}
use solana_bridge_program.Env.{Env}
use solana_bridge_program.Shared.Calls.{
  invoke_with_seeds, call_create_account, call_create_associated_account,
}
use solana_bridge_program.Shared.Instructions.Bridge.{SignedMetadata}
use solana_bridge_program.Bridge.Access.{check_seeds, read_bridge_admin, open_bridge_admin}
use solana_bridge_program.Bridge.Token.{
  call_burn_token, call_transfer_token, call_mint_to, call_init_mint, call_create_metadata,
}
use solana_bridge_program.Bridge.Charge.{checked_pred, first_key}
use solana_bridge_program.Bridge.Withdraw.{sub_lamports, add_lamports}

-- The calls and the moves of lamports keep `P`.
pub record IsKept (env : Env) (P : Bank → Type 0) : Type 0 where
  pub invoked :
      (instruction : Instruction) (infos : List AccountInfo) (seeds : List (List Bytes))
      → Keeps P (env.invoke_signed instruction infos seeds)
  pub taken : (info : AccountInfo) (amount : ℕ) → Keeps P (sub_lamports info amount)
  pub given : (info : AccountInfo) (amount : ℕ) → Keeps P (add_lamports info amount)

-- The writes of data to the account keep `P`.
abbrev pub IsWritable : (Bank → Type 0) → AccountInfo → Type 0
IsWritable P info = (bytes : Bytes) → Keeps P (write_data info bytes)

module _ {env : Env} {P : Bank → Type 0} (kept : IsKept env P) where
  pub checked_pred-Keeps : (n : ℕ) → Keeps P (checked_pred n)
  checked_pred-Keeps zero = Keeps-abort panicked
  checked_pred-Keeps (suc n) = Keeps-pure n

  pub first_key-Keeps : (metas : List AccountMeta) → Keeps P (first_key metas)
  first_key-Keeps [] = Keeps-abort panicked
  first_key-Keeps (meta ∷ rest) = Keeps-pure meta.pubkey

  pub invoke_with_seeds-Keeps :
      (instruction : Instruction) (infos : List AccountInfo) (seeds : List Bytes)
      → Keeps P (invoke_with_seeds env instruction infos seeds)
  invoke_with_seeds-Keeps i infos [] = kept.invoked i infos []
  invoke_with_seeds-Keeps i infos (s ∷ seeds) = kept.invoked i infos ((s ∷ seeds) ∷ [])

  pub call_create_account-Keeps :
      (p a r s : AccountInfo) (space : ℕ) (owner : Pubkey) (seeds : List Bytes)
      → Keeps P (call_create_account env p a r s space owner seeds)
  unfolding call_create_account
  call_create_account-Keeps p a r s space owner seeds =
      search (keeps_rules, invoke_with_seeds-Keeps)

  pub create_associated-Keeps :
      (p w m a r s t : AccountInfo) → Keeps P (call_create_associated_account env p w m a r s t)
  unfolding call_create_associated_account
  create_associated-Keeps p w m a r s t = kept.invoked _ _ _

  pub check_seeds-Keeps :
      (pid : Pubkey) (seeds : Bytes) (info : AccountInfo) → Keeps P (check_seeds env pid seeds info)
  unfolding check_seeds
  check_seeds-Keeps pid seeds info = search keeps_rules

  pub read_bridge_admin-Keeps : (info : AccountInfo) → Keeps P (read_bridge_admin env info)
  unfolding read_bridge_admin
  read_bridge_admin-Keeps info = search keeps_rules

  pub open_bridge_admin-Keeps :
      (pid : Pubkey) (seeds : Bytes) (info : AccountInfo)
      → Keeps P (open_bridge_admin env pid seeds info)
  unfolding open_bridge_admin
  open_bridge_admin-Keeps pid seeds info =
      search (keeps_rules, check_seeds-Keeps, read_bridge_admin-Keeps)

  pub burn-Keeps : (a m o : AccountInfo) (n : ℕ) → Keeps P (call_burn_token env a m o n)
  unfolding call_burn_token
  burn-Keeps a m o n = search (keeps_rules, kept.invoked)

  pub transfer-Keeps :
      (f t a : AccountInfo) (n : ℕ) (s : List (List Bytes))
      → Keeps P (call_transfer_token env f t a n s)
  unfolding call_transfer_token
  transfer-Keeps f t a n s = search (keeps_rules, kept.invoked)

  pub mint_to-Keeps :
      (m a o : AccountInfo) (s : Bytes) (n : ℕ) → Keeps P (call_mint_to env m a o s n)
  unfolding call_mint_to
  mint_to-Keeps m a o s n = search (keeps_rules, kept.invoked)

  pub init_mint-Keeps : (m a r : AccountInfo) (n : ℕ) → Keeps P (call_init_mint env m a r n)
  unfolding call_init_mint
  init_mint-Keeps m a r n = search (keeps_rules, kept.invoked)

  pub create_metadata-Keeps :
      (a b c d e f g : AccountInfo) (meta : SignedMetadata) (s : Bytes)
      → Keeps P (call_create_metadata env a b c d e f g meta s)
  unfolding call_create_metadata
  create_metadata-Keeps a b c d e f g meta s = kept.invoked _ _ _

  pub ruleset call_keeps = (
    keeps_rules, call_create_account-Keeps, create_associated-Keeps, burn-Keeps, transfer-Keeps,
    mint_to-Keeps, init_mint-Keeps, create_metadata-Keeps,
  )
