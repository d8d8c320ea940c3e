-- ===== src/Commission/Replay/Payments.antt =====
-- The payments of the commission program keep what the calls of other programs keep.
use solana_bridge_program.Common.{ℕ, List, Bytes, [], ◌∷◌}
use solana_bridge_program.Runtime.{Bank, AccountInfo, Pubkey, Instruction}
use solana_bridge_program.Runtime.Keeps.{Keeps, keeps_rules, Keeps-fail}
use solana_bridge_program.Env.{Env}
use solana_bridge_program.Shared.Error.{not_supported}
use solana_bridge_program.Shared.Types.{CommissionToken as CommissionTokenKind}
use solana_bridge_program.Shared.Calls.{invoke_with_seeds, call_create_associated_account}
use solana_bridge_program.Commission.Access.{
  read_commission_admin, check_admin_key, open_commission_admin,
}
use solana_bridge_program.Commission.Payments.{
  call_transfer_native, call_transfer_ft, create_if_empty, charge_token, pay_token,
}
use solana_bridge_program.Commission.Handlers.{process_charge_commission}

module _ (env : Env) {P : Bank → Type 0}
    (invoked : (instruction : Instruction) (infos : List AccountInfo) (seeds : List (List Bytes))
      → Keeps P (env.invoke_signed instruction infos seeds)) where
  invoke_with_seeds-Keeps :
      (instruction : Instruction) (infos : List AccountInfo) (seeds : List Bytes)
      → Keeps P (invoke_with_seeds env instruction infos seeds)
  invoke_with_seeds-Keeps i infos [] = invoked i infos []
  invoke_with_seeds-Keeps i infos (s ∷ seeds) = invoked i infos ((s ∷ seeds) ∷ [])

  transfer_native-Keeps :
      (from to : AccountInfo) (n : ℕ) (seeds : List Bytes)
      → Keeps P (call_transfer_native env from to n seeds)
  unfolding call_transfer_native
  transfer_native-Keeps from to n seeds = invoke_with_seeds-Keeps _ _ seeds

  transfer_ft-Keeps :
      (from to authority : AccountInfo) (n : ℕ) (seeds : List Bytes)
      → Keeps P (call_transfer_ft env from to authority n seeds)
  unfolding call_transfer_ft
  transfer_ft-Keeps from to authority n seeds = search (keeps_rules, invoke_with_seeds-Keeps)

  create_associated-Keeps :
      (p w m a r s t : AccountInfo) → Keeps P (call_create_associated_account env p w m a r s t)
  unfolding call_create_associated_account
  create_associated-Keeps p w m a r s t = invoked _ _ _

  create_if_empty-Keeps :
      (p w a r s t : AccountInfo) (rest : List AccountInfo)
      → Keeps P (create_if_empty env p w a r s t rest)
  unfolding create_if_empty
  create_if_empty-Keeps p w a r s t rest = search (keeps_rules, create_associated-Keeps)

  ruleset payment_rules =
      (keeps_rules, transfer_native-Keeps, transfer_ft-Keeps, create_if_empty-Keeps)

  pub charge_token-Keeps :
      (key : Pubkey) (i b o s r : AccountInfo) (rest : List AccountInfo) (n : ℕ)
      (token : CommissionTokenKind)
      → Keeps P (charge_token env key i b o s r rest n token)
  unfolding charge_token
  charge_token-Keeps key i b o s r rest n CommissionTokenKind.native = transfer_native-Keeps o i n _
  charge_token-Keeps key i b o s r rest n (CommissionTokenKind.ft mint) =
      search payment_rules depth 40
  charge_token-Keeps key i b o s r rest n (CommissionTokenKind.nft mint) = Keeps-fail not_supported

  pub pay_token-Keeps :
      (key : Pubkey) (i b o s r : AccountInfo) (rest : List AccountInfo) (n : ℕ)
      (token : CommissionTokenKind)
      → Keeps P (pay_token env key i b o s r rest n token)
  unfolding pay_token
  pay_token-Keeps key i b o s r rest n CommissionTokenKind.native = transfer_native-Keeps i o n _
  pay_token-Keeps key i b o s r rest n (CommissionTokenKind.ft mint) = search payment_rules depth 40
  pay_token-Keeps key i b o s r rest n (CommissionTokenKind.nft mint) = Keeps-fail not_supported

  check_admin_key-Keeps :
      (program_id : Pubkey) (i b : AccountInfo) → Keeps P (check_admin_key env program_id i b)
  unfolding check_admin_key
  check_admin_key-Keeps program_id i b = search keeps_rules

  read_commission_admin-Keeps : (i : AccountInfo) → Keeps P (read_commission_admin env i)
  unfolding read_commission_admin
  read_commission_admin-Keeps i = search keeps_rules

  open_commission_admin-Keeps :
      (program_id : Pubkey) (i b : AccountInfo) → Keeps P (open_commission_admin env program_id i b)
  unfolding open_commission_admin
  open_commission_admin-Keeps program_id i b =
      search (keeps_rules, check_admin_key-Keeps, read_commission_admin-Keeps)

  pub charge_commission-Keeps :
      (program_id : Pubkey) (infos : List AccountInfo) (token : CommissionTokenKind)
      → Keeps P (process_charge_commission env program_id infos token)
  unfolding process_charge_commission
  charge_commission-Keeps program_id infos token =
      search (keeps_rules, open_commission_admin-Keeps, charge_token-Keeps) depth 40
