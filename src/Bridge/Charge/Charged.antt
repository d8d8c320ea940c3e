-- ===== src/Bridge/Charge/Charged.antt =====
-- What the check of the commission establishes.
use solana_bridge_program.Common.{
  ℕ, zero, suc, ◌≡◌, refl, sym, true, some, List, [], ◌∷◌, bytes_eq, bytes_eq→≡, arith, ◌∙◌, ap,
  subst, ==_iff,
}
use solana_bridge_program.Runtime.{
  Pubkey, AccountInfo, AccountMeta, Instruction, Bank, Result, ok, bind-ok, read, read-ok, require,
  require-ok, lift, lift-ok, from_option, from_option-ok, borsh_io_error,
}
use solana_bridge_program.Shared.Error.{
  wrong_commission_program, wrong_commission_account, wrong_commission_arguments,
}
use solana_bridge_program.Shared.Types.{
  TokenType, token_type_eq, CommissionArgs, commission_admin_pda_seed,
}
use solana_bridge_program.Shared.Instructions.Commission.{CommissionInstruction, charge_commission}
use solana_bridge_program.Env.{Env}
use solana_bridge_program.Bridge.State.{BridgeAdmin}
use solana_bridge_program.Bridge.Charge.{
  checked_pred, first_key, charges, verify_commission_charged,
}

-- The instruction before the current one charges commission: it is one of the program that the
-- bridge admin names, on that program's account for the bridge, for this token and amount.
pub record Charged (env : Env) (bridge_info sysvar_info : AccountInfo) (admin : BridgeAdmin)
    (token : TokenType) (amount : ℕ) (b : Bank) : Type 0 where
  pub previous : ℕ
  pub current : env.load_current_index_checked sysvar_info b ≡ ok (suc previous)
  pub instruction : Instruction
  pub loaded : env.load_instruction_at_checked previous sysvar_info b ≡ ok instruction
  pub program : instruction.program_id ≡ admin.commission_program
  pub meta : AccountMeta
  pub metas : List AccountMeta
  pub accounts : instruction.accounts ≡ meta ∷ metas
  pub charged_key :
      env.create_program_address
        (commission_admin_pda_seed ∷ bridge_info.key ∷ [])
        admin.commission_program
      ≡ ok meta.pubkey
  pub args : CommissionArgs
  pub decoded :
      env.commission_instruction.try_from_slice instruction.data_bytes
      ≡ some (charge_commission args)
  pub deposit_token : args.deposit_token ≡ token
  pub deposit_token_amount : args.deposit_token_amount ≡ amount

checked_pred-ok :
    (n : ℕ) {b : Bank} {r : ℕ × Bank} → checked_pred n b ≡ ok r → (n ≡ suc r.0) × (r.1 ≡ b)
checked_pred-ok zero e = cc
checked_pred-ok (suc n) e = (ground arith, ground arith)

first_key-ok :
    (metas : List AccountMeta) {b : Bank} {r : Pubkey × Bank}
    → first_key metas b ≡ ok r
    → (meta : AccountMeta) × (rest : List AccountMeta) × (metas ≡ meta ∷ rest)
      × (meta.pubkey ≡ r.0)
      × (r.1 ≡ b)
first_key-ok [] e = cc
first_key-ok (meta ∷ rest) e = (meta, rest, refl, ground arith, ground arith)

token_type_eq→≡ : (a b : TokenType) → token_type_eq a b ≡ true → a ≡ b
token_type_eq→≡ TokenType.native TokenType.native e = refl
token_type_eq→≡ TokenType.ft TokenType.ft e = refl
token_type_eq→≡ TokenType.nft TokenType.nft e = refl
token_type_eq→≡ _ _ e = cc

charges-true :
    (i : CommissionInstruction) (token : TokenType) (amount : ℕ)
    → charges i token amount ≡ true
    → (args : CommissionArgs) × (i ≡ charge_commission args)
      × (args.deposit_token ≡ token)
      × (args.deposit_token_amount ≡ amount)
unfolding charges
charges-true (charge_commission args) token amount e = (
  args,
  refl,
  token_type_eq→≡ args.deposit_token token (ground arith),
  (==_iff args.deposit_token_amount amount).0 (ground arith),
)
charges-true _ token amount e = cc

-- The check passes only where the instruction before the current one charged the commission of the
-- bridge for this token and amount, and it changes nothing.
pub verify_commission_charged_sound :
    (env : Env) (bridge_info sysvar_info : AccountInfo) (admin : BridgeAdmin) (token : TokenType)
    (amount : ℕ) (b b' : Bank)
    → verify_commission_charged env bridge_info sysvar_info admin token amount b ≡ ok (tt, b')
    → Charged env bridge_info sysvar_info admin token amount b × (b' ≡ b)
unfolding verify_commission_charged
verify_commission_charged_sound env bridge_info sysvar_info admin token amount b b' e =
    let (current, b1, e1, f1) =
      bind-ok (read (env.load_current_index_checked sysvar_info)) _ {b = b} e in
    let (is_current, b1-b) = read-ok (env.load_current_index_checked sysvar_info) e1 in
    let (previous, b2, e2, f2) = bind-ok (checked_pred current) _ f1 in
    let (is_suc, b2-b1) = checked_pred-ok current e2 in
    let load = env.load_instruction_at_checked previous sysvar_info in
    let (ix, b3, e3, f3) = bind-ok (read load) _ f2 in
    let (loaded, b3-b2) = read-ok load e3 in
    let is_program = bytes_eq ix.program_id admin.commission_program in
    let (_, b4, e4, f4) = bind-ok (require is_program wrong_commission_program) _ f3 in
    let (program_test, b4-b3) = require-ok is_program wrong_commission_program e4 in
    let program = bytes_eq→≡ ix.program_id admin.commission_program program_test in
    let made : Pubkey → Result Pubkey =
      λ p. env.create_program_address (commission_admin_pda_seed ∷ bridge_info.key ∷ []) p in
    let (key, b5, e5, f5) = bind-ok (lift (made ix.program_id)) _ f4 in
    let (is_made, b5-b4) = lift-ok (made ix.program_id) e5 in
    let (charged, b6, e6, f6) = bind-ok (first_key ix.accounts) _ f5 in
    let (meta, metas, accounts, is_charged, b6-b5) = first_key-ok ix.accounts e6 in
    let (_, b7, e7, f7) = bind-ok (require (bytes_eq key charged) wrong_commission_account) _ f6 in
    let (key_test, b7-b6) = require-ok (bytes_eq key charged) wrong_commission_account e7 in
    let is_key = bytes_eq→≡ key charged key_test in
    let decode = env.commission_instruction.try_from_slice ix.data_bytes in
    let (i, b8, e8, f8) = bind-ok (from_option decode borsh_io_error) _ f7 in
    let (decoded, b8-b7) = from_option-ok decode borsh_io_error e8 in
    let (charge_test, b'-b8) = require-ok (charges i token amount) wrong_commission_arguments f8 in
    let (args, is_charge, same_token, same_amount) = charges-true i token amount charge_test in
    let b2-b : b2 ≡ b = b2-b1 ∙ b1-b in
    (
      record {
        previous = previous;
        current = is_current ∙ ap ok is_suc;
        instruction = ix;
        loaded =
            subst (λ (c : Bank). env.load_instruction_at_checked previous sysvar_info c ≡ ok ix)
              b2-b loaded;
        program = program;
        meta = meta;
        metas = metas;
        accounts = accounts;
        charged_key =
            subst (λ (p : Pubkey). made p ≡ ok meta.pubkey) program
              (is_made ∙ ap ok (is_key ∙ sym is_charged));
        args = args;
        decoded = decoded ∙ ap some is_charge;
        deposit_token = same_token;
        deposit_token_amount = same_amount;
      },
      b'-b8 ∙ b8-b7 ∙ b7-b6 ∙ b6-b5 ∙ b5-b4 ∙ b4-b3 ∙ b3-b2 ∙ b2-b,
    )
