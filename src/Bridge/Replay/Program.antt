-- ===== src/Bridge/Replay/Program.antt =====
-- The commission program of a bridge admin is fixed, whatever the bridge does.
use solana_bridge_program.Common.{
  ℕ, Bool, true, false, sym, ◌≡◌, refl, some, List, ◌∷◌, Bytes, length, ap, ◌∙◌, subst,
}
use solana_bridge_program.Runtime.{
  Pubkey, AccountInfo, Bank, ok, bind-ok, from_option, from_option-ok, borsh_io_error,
}
use solana_bridge_program.Runtime.Laws.{RecordLaws}
use solana_bridge_program.Runtime.Keeps.{Keeps, keeps_rules}
use solana_bridge_program.Runtime.History as Runtime
use solana_bridge_program.Env.{Env, IsLawful}
use solana_bridge_program.Shared.Types.{TokenType}
use solana_bridge_program.Shared.Instructions.Bridge.{
  BridgeInstruction, TransferOwnershipArgs, initialize_admin, transfer_ownership, deposit_native,
  deposit_ft, deposit_nft, withdraw_native, withdraw_ft, withdraw_nft, mint_collection,
}
use solana_bridge_program.Bridge.State.{BridgeAdmin}
use solana_bridge_program.Bridge.Admin.Ownership.{IsSized}
use solana_bridge_program.Bridge.Kept.Calls.{IsKept}
use solana_bridge_program.Bridge.Kept.Handlers.{
  deposit_native-Keeps, deposit_ft-Keeps, deposit_nft-Keeps, create_collection-Keeps,
}
use solana_bridge_program.Bridge.Processor.{dispatch, process_instruction}
use solana_bridge_program.Bridge.Processor.Admission.{deposited}
use solana_bridge_program.Bridge.Processor.Paid.{PreviousRan, CommissionPaid, deposits_paid}
use solana_bridge_program.Bridge.Replay.{History}
use solana_bridge_program.Bridge.Replay.Held.{Held, Held-quiet, Held-IsKept}
use solana_bridge_program.Bridge.Replay.Admin.{
  init_admin-Keeps, transfer_ownership-Held, withdraw_native-Keeps, withdraw_ft-Keeps,
  withdraw_nft-Keeps,
}

-- The keys that the codec reads from an instruction have 64 bytes.
abbrev pub ReadsKeys : Env → Type 0
ReadsKeys env =
    (input : Bytes) (args : TransferOwnershipArgs)
    → env.bridge_instruction.try_from_slice input ≡ some (transfer_ownership args)
    → length args.new_public_key ≡ 64

abbrev is_transfer : BridgeInstruction → Bool
is_transfer (transfer_ownership args) = true
is_transfer _ = false

module _ (env : Env) (program_id : Pubkey) (laws : RecordLaws env program_id)
    (law : IsLawful IsSized env.bridge_admin) (keys : ReadsKeys env) where
  module _ (k commission_program : Pubkey) where
    abbrev H : Bank → Type 0
    H = Held env program_id k commission_program

    abbrev kept : IsKept env H
    kept = Held-IsKept env program_id k commission_program laws

    ruleset admin_handlers = (
      keeps_rules, deposit_native-Keeps, deposit_ft-Keeps, deposit_nft-Keeps,
      create_collection-Keeps, init_admin-Keeps, withdraw_native-Keeps, withdraw_ft-Keeps,
      withdraw_nft-Keeps, Held-IsKept,
    )

    -- All instructions but the transfer of ownership, which needs the size of the key.
    others-Keeps :
        (infos : List AccountInfo) (i : BridgeInstruction)
        → is_transfer i ≡ false
        → Keeps H (dispatch env program_id infos i)
    unfolding dispatch
    others-Keeps infos (transfer_ownership args) e = cc
    others-Keeps infos (initialize_admin args) e = search admin_handlers
    others-Keeps infos _ e = search admin_handlers

    dispatch-Held :
        (infos : List AccountInfo) (i : BridgeInstruction) (b b' : Bank)
        → ((args : TransferOwnershipArgs)
            → i ≡ transfer_ownership args
            → length args.new_public_key ≡ 64)
        → dispatch env program_id infos i b ≡ ok (tt, b')
        → H b
        → H b'
    unfolding dispatch
    dispatch-Held infos (transfer_ownership args) b b' size e h =
        transfer_ownership-Held env program_id k commission_program laws infos args.seeds
          args.new_public_key args.signature args.recovery_id b b' law (size args refl) e h
    dispatch-Held infos (initialize_admin args) b b' size e h =
        (others-Keeps infos (initialize_admin args) refl).at b b' tt e h
    dispatch-Held infos (deposit_native args) b b' size e h =
        (others-Keeps infos (deposit_native args) refl).at b b' tt e h
    dispatch-Held infos (deposit_ft args) b b' size e h =
        (others-Keeps infos (deposit_ft args) refl).at b b' tt e h
    dispatch-Held infos (deposit_nft args) b b' size e h =
        (others-Keeps infos (deposit_nft args) refl).at b b' tt e h
    dispatch-Held infos (withdraw_native args) b b' size e h =
        (others-Keeps infos (withdraw_native args) refl).at b b' tt e h
    dispatch-Held infos (withdraw_ft args) b b' size e h =
        (others-Keeps infos (withdraw_ft args) refl).at b b' tt e h
    dispatch-Held infos (withdraw_nft args) b b' size e h =
        (others-Keeps infos (withdraw_nft args) refl).at b b' tt e h
    dispatch-Held infos (mint_collection args) b b' size e h =
        (others-Keeps infos (mint_collection args) refl).at b b' tt e h

    process_instruction-Held :
        (infos : List AccountInfo) (input : Bytes) (b b' : Bank)
        → process_instruction env program_id infos input b ≡ ok (tt, b')
        → H b
        → H b'
    unfolding process_instruction
    process_instruction-Held infos input b b' e h =
        let decoded = env.bridge_instruction.try_from_slice input in
        let (i, b1, e1, f1) = bind-ok (from_option decoded borsh_io_error) _ {b = b} e in
        let (is, b1-b) = from_option-ok decoded borsh_io_error e1 in
        dispatch-Held infos i b b' (λ args same. keys input args (is ∙ ap some same))
          (subst (λ (c : Bank). dispatch env program_id infos i c ≡ ok (tt, b')) b1-b f1) h

    -- An account that holds an initialised bridge admin does so after any instructions of the bridge
    -- and any steps of others that leave the bridge's data alone, and still names the same
    -- commission program. Assumed: the laws of the runtime (`RecordLaws`), a lawful codec of the
    -- admin, and that the keys in instructions have 64 bytes.
    pub commission_program_fixed : {b c : Bank} → H b → History env program_id b c → H c
    commission_program_fixed =
        Runtime.History-kept H process_instruction-Held (λ c d quiet h.
          Held-quiet env program_id k commission_program laws c d (quiet k h.used) h)

  -- Whatever happened since an account held an initialised bridge admin, as instructions of the
  -- bridge and steps of others that leave its data alone: a deposit of any kind on it that succeeds
  -- has been paid for, as `deposits_paid` says, for its token and amount and in the state in which
  -- it starts, to the commission program that the admin named in the beginning. Assumed: the runtime
  -- has run every instruction that a sysvar gives as the one before, successfully, and changed
  -- nothing but the sysvar since (`PreviousRan`), its laws on accounts (`RecordLaws`), a lawful codec
  -- of the admin, and that the keys in instructions have 64 bytes.
  pub later_deposits_paid :
      (commission_program : Pubkey) (bridge_info : AccountInfo) (rest : List AccountInfo)
      (i : BridgeInstruction) (token : TokenType) (amount : ℕ) (b c d : Bank)
      → Held env program_id bridge_info.key commission_program b
      → History env program_id b c
      → deposited i ≡ some (token, amount)
      → PreviousRan env commission_program c
      → dispatch env program_id (bridge_info ∷ rest) i c ≡ ok (tt, d)
      → (admin : BridgeAdmin) × (admin.commission_program ≡ commission_program)
        × CommissionPaid env bridge_info admin token amount c
  later_deposits_paid commission_program bridge_info rest i token amount b c d h past is ran e =
      let held = commission_program_fixed bridge_info.key commission_program h past in
      (
        held.admin,
        held.same_program,
        deposits_paid env program_id bridge_info rest i token amount held.admin c d is held.stored
            (subst (λ (p : Pubkey). PreviousRan env p c) (sym held.same_program) ran) e,
      )
