-- ===== src/Bridge/Processor/Paid.antt =====
-- A deposit and the charge of commission before it, as the two programs run them.
use mathlib.Core.Option.{some-injective}
use solana_bridge_program.Common.{ℕ, suc, ◌≡◌, ◌≢◌, refl, sym, ◌∙◌, some, List, ◌∷◌, Bytes, subst}
use solana_bridge_program.Runtime.{Pubkey, AccountInfo, Instruction, Bank, ok, next_account_info}
use solana_bridge_program.Env.{Env}
use solana_bridge_program.Shared.Client.Accounts.{handles}
use solana_bridge_program.Bridge.Charge.Charged.{Charged}
use solana_bridge_program.Shared.Types.{
  CommissionToken as CommissionTokenKind, TokenType, CommissionArgs,
}
use solana_bridge_program.Shared.Instructions.Bridge.{BridgeInstruction}
use solana_bridge_program.Shared.Instructions.Commission.{charge_commission}
use solana_bridge_program.Commission.Handlers.{process_charge_commission}
use solana_bridge_program.Commission.Handlers.Charge.{ChargeTaken, charge_commission_sound}
use solana_bridge_program.Commission.Processor as Commission
use solana_bridge_program.Bridge.State.{BridgeAdmin}
use solana_bridge_program.Bridge.Processor.{dispatch}
use solana_bridge_program.Bridge.Processor.Admission.{deposited, dispatch-Admitted}

-- The accounts are the same but for one.
abbrev pub IsSameBut : Pubkey → Bank → Bank → Type 0
IsSameBut j b b' = (k : Pubkey) → k ≢ j → b' k ≡ b k

-- What the runtime documents of a transaction, where an instruction starts in the state `b`: the
-- instruction that a sysvar account gives as the one before has run, and succeeded, and but for the
-- sysvar, in which the runtime counts the instructions, nothing changed since.
abbrev pub PreviousRan : Env → Pubkey → Bank → Type 0
PreviousRan env commission_program b =
    (sysvar_info : AccountInfo) (previous : ℕ) (ix : Instruction)
    → env.load_current_index_checked sysvar_info b ≡ ok (suc previous)
    → env.load_instruction_at_checked previous sysvar_info b ≡ ok ix
    → ix.program_id ≡ commission_program
    → (c : Bank) × (d : Bank) × (Commission.process_instruction env commission_program
          (handles ix.accounts) ix.data_bytes c
        ≡ ok (tt, d))
      × IsSameBut sysvar_info.key d b

-- A charge that the commission program ran on these handles, for this kind of commission, and left
-- the state `d`.
pub record ChargeRan (env : Env) (commission_program : Pubkey) (infos : List AccountInfo)
    (token : CommissionTokenKind) (c d : Bank) : Type 0 where
  pub info : AccountInfo
  pub bridge_info : AccountInfo
  pub owner : AccountInfo
  pub system_program : AccountInfo
  pub rent : AccountInfo
  pub rest : List AccountInfo
  pub handed : infos ≡ info ∷ bridge_info ∷ owner ∷ system_program ∷ rent ∷ rest
  pub taken :
      ChargeTaken env commission_program info bridge_info owner system_program rent rest token c d

-- The commission for a deposit of this token and amount, which starts in the state `b`, has been
-- paid: the instruction that the sysvar gives as the one before decodes to a charge for this token
-- and amount on the commission account of the bridge (`charged`), and the commission program ran it,
-- on the accounts that it lists, from `before` to `after`, which is `b` but for the sysvar.
pub record CommissionPaid (env : Env) (bridge_info : AccountInfo) (admin : BridgeAdmin)
    (token : TokenType) (amount : ℕ) (b : Bank) : Type 0 where
  pub sysvar : AccountInfo
  pub charged : Charged env bridge_info sysvar admin token amount b
  pub before : Bank
  pub after : Bank
  pub run :
      Commission.process_instruction env admin.commission_program
        (handles charged.instruction.accounts)
        charged.instruction.data_bytes
        before
      ≡ ok (tt, after)
  pub same : IsSameBut sysvar.key after b
  pub ran :
      ChargeRan env admin.commission_program
        (handles charged.instruction.accounts)
        charged.args.token
        before
        after

module _ (env : Env) (commission_program : Pubkey) (c d : Bank) where
  charge-ChargeRan :
      (infos : List AccountInfo) (token : CommissionTokenKind)
      → process_charge_commission env commission_program infos token c ≡ ok (tt, d)
      → ChargeRan env commission_program infos token c d
  unfolding process_charge_commission next_account_info
  charge-ChargeRan (info ∷ i ∷ o ∷ s ∷ r ∷ rest) token e = record {
    info = info;
    bridge_info = i;
    owner = o;
    system_program = s;
    rent = r;
    rest = rest;
    handed = refl;
    taken = charge_commission_sound env commission_program info i o s r rest token c d e;
  }
  charge-ChargeRan _ token e = cc

  process_instruction-charge :
      (infos : List AccountInfo) (input : Bytes) (args : CommissionArgs)
      → env.commission_instruction.try_from_slice input ≡ some (charge_commission args)
      → Commission.process_instruction env commission_program infos input c ≡ ok (tt, d)
      → process_charge_commission env commission_program infos args.token c ≡ ok (tt, d)
  unfolding Commission.process_instruction Commission.dispatch
  process_instruction-charge infos input args decoded e = rw decoded at e

-- A deposit of any kind that starts in the state `b` and succeeds has been paid for. The instruction
-- that a sysvar gives in `b` as the one before is of the commission program that the bridge admin
-- names, and decodes to a charge of commission for this kind of token and this amount, on that
-- program's account for this bridge; the commission program ran it on the accounts that it lists,
-- and so the account that it lists as the owner paid the first entry of an acceptable token; and but
-- for the sysvar, the accounts were left as the deposit finds them. Assumed: the runtime has run
-- every instruction that a sysvar gives as the one before, successfully, and changed nothing but the
-- sysvar since (`PreviousRan`).
pub deposits_paid :
    (env : Env) (program_id : Pubkey) (bridge_info : AccountInfo) (rest : List AccountInfo)
    (i : BridgeInstruction) (token : TokenType) (amount : ℕ) (admin : BridgeAdmin) (b b' : Bank)
    → deposited i ≡ some (token, amount)
    → env.bridge_admin.deserialize (b bridge_info.key).data_bytes ≡ some admin
    → PreviousRan env admin.commission_program b
    → dispatch env program_id (bridge_info ∷ rest) i b ≡ ok (tt, b')
    → CommissionPaid env bridge_info admin token amount b
deposits_paid env program_id bridge_info rest i token amount admin b b' is stored ran e =
    let (seeds, sysvar, admitted) =
      dispatch-Admitted env program_id b b' bridge_info rest i token amount is e in
    let same : admitted.admin ≡ admin =
      some-injective admitted.admin admin (sym admitted.opened.stored ∙ stored) in
    let charged =
      subst (λ (a : BridgeAdmin). Charged env bridge_info sysvar a token amount b) same
        admitted.charged in
    let ix = charged.instruction in
    let (c, d, run, quiet) =
      ran sysvar charged.previous ix charged.current charged.loaded charged.program in
    record {
      sysvar = sysvar;
      charged = charged;
      before = c;
      after = d;
      run = run;
      same = quiet;
      ran =
          charge-ChargeRan env admin.commission_program c d (handles ix.accounts) charged.args.token
            (process_instruction-charge env admin.commission_program c d (handles ix.accounts)
              ix.data_bytes charged.args charged.decoded run);
    }
