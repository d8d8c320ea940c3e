-- ===== src/Commission/Replay/Kept.antt =====
-- Every instruction of the commission program keeps a commission admin, and no nonce falls.
use solana_bridge_program.Common.{
  ◌≡◌, ◌≢◌, true, some, List, [], ◌∷◌, Bytes, length, arith, ap, ◌∙◌, subst, not,
}
use solana_bridge_program.Runtime.{
  Pubkey, AccountInfo, Bank, ok, bind-ok, require, require-ok, from_option, from_option-ok,
  borsh_io_error, write_data, next_account_info,
}
use solana_bridge_program.Runtime.Store.{write_data-ok}
use solana_bridge_program.Runtime.Laws.{RecordLaws}
use solana_bridge_program.Env.{Env, IsLawful}
use solana_bridge_program.Shared.Error.{already_in_use}
use solana_bridge_program.Shared.Calls.{call_create_account}
use solana_bridge_program.Shared.Calls.Created.{call_create_account-ok, call_create_account_fresh}
use solana_bridge_program.Shared.Instructions.Commission.{
  CommissionTokenArg, CommissionInstruction, initialize_admin, charge_commission, add_fee_token,
  remove_fee_token, update_fee_token, withdraw,
}
use solana_bridge_program.Commission.State.{CommissionAdmin, from_arg, max_admin_size}
use solana_bridge_program.Commission.Tokens.{push_tokens}
use solana_bridge_program.Commission.Access.{admin_seeds, check_admin_key, read_commission_admin}
use solana_bridge_program.Commission.Access.Opened.{check_admin_key-ok, read_commission_admin-ok}
use solana_bridge_program.Commission.Handlers.{process_init_admin}
use solana_bridge_program.Commission.Processor.{dispatch, process_instruction}
use solana_bridge_program.Commission.Replay.Sized.{IsSized, IsSizedToken, TakesBytes}
use solana_bridge_program.Commission.Replay.Admin.{Held, Held-same, Held-invoke}
use solana_bridge_program.Commission.Replay.Payments.{charge_commission-Keeps}
use solana_bridge_program.Commission.Replay.Changes.{
  add_token-Held, remove_token-Held, update_token-Held, withdraw-Held,
}

-- The token of an instruction that puts it into the list has its size.
abbrev HasSizedToken : CommissionInstruction → Type 0
HasSizedToken (add_fee_token args) = IsSizedToken (from_arg args.token)
HasSizedToken (update_fee_token args) = IsSizedToken (from_arg args.token)
HasSizedToken _ = Unit {0}

-- The tokens that the codec reads from instructions have their sizes.
abbrev pub ReadsTokens : Env → Type 0
ReadsTokens env =
    (input : Bytes) (i : CommissionInstruction)
    → env.commission_instruction.try_from_slice input ≡ some i
    → HasSizedToken i

module _ (env : Env) (program_id k : Pubkey) (old : CommissionAdmin)
    (laws : RecordLaws env program_id) (law : IsLawful IsSized env.commission_admin)
    (takes : TakesBytes env) where
  abbrev H : Bank → Type 0
  H = Held env program_id k old

  -- The account that is made had no data, so it is another one.
  init_admin-Held :
      (infos : List AccountInfo) (tokens : List CommissionTokenArg) (b b' : Bank)
      → process_init_admin env program_id infos tokens b ≡ ok (tt, b')
      → H b
      → H b'
  unfolding process_init_admin next_account_info
  init_admin-Held (i ∷ bi ∷ p ∷ s ∷ r ∷ rest) tokens b b' e h =
      let (key, b1, e1, f1) = bind-ok (check_admin_key env program_id i bi) _ {b = b} e in
      let (b1-b, _, _) = check_admin_key-ok env program_id i bi e1 in
      let create =
        call_create_account env p i r s (max_admin_size env.size_of_commission_token) program_id
          (admin_seeds env bi) in
      let (_, b2, e2, f2) = bind-ok create _ f1 in
      let made = subst (λ (c : Bank). create c ≡ ok (tt, b2)) b1-b e2 in
      let (lamports, run) = call_create_account-ok env p i r s _ program_id _ _ b b2 made in
      let fresh =
        call_create_account_fresh env p i r s _ program_id _ _ b b2 program_id laws made in
      let h2 = (Held-invoke env program_id k old laws law takes _ _ _).at b b2 tt run h in
      let other : k ≢ i.key = λ same.
        absurd
          (omega (arith, h.used.filled, ap (λ j. length (b j).data_bytes) same, ap length fresh)) in
      let (admin, b3, e3, f3) = bind-ok (read_commission_admin env i) _ f2 in
      let (b3-b2, _) = read_commission_admin-ok env i e3 in
      let test = not admin.is_initialized in
      let (_, b4, e4, f4) = bind-ok (require test already_in_use) _ f3 in
      let (_, b4-b3) = require-ok test already_in_use e4 in
      let bytes =
        env.commission_admin.serialize
          (record admin { acceptable_tokens = push_tokens [] tokens; is_initialized = true }) in
      let written = subst (λ (c : Bank). write_data i bytes c ≡ ok (tt, b')) (b4-b3 ∙ b3-b2) f4 in
      let (_, _, only) = write_data-ok i bytes {b = b2} written in
      let kept = only.elsewhere k other in
      Held-same env program_id k old laws law takes b2 b' (ap (λ a. a.owner) kept)
        (ap (λ a. a.data_bytes) kept) h2
  init_admin-Held _ tokens b b' e h = cc

  dispatch-Held :
      (infos : List AccountInfo) (i : CommissionInstruction) (b b' : Bank)
      → HasSizedToken i
      → dispatch env program_id infos i b ≡ ok (tt, b')
      → H b
      → H b'
  unfolding dispatch
  dispatch-Held infos (initialize_admin args) b b' sized e h =
      init_admin-Held infos args.acceptable_tokens b b' e h
  dispatch-Held infos (charge_commission args) b b' sized e h =
      (charge_commission-Keeps env (Held-invoke env program_id k old laws law takes) program_id
          infos args.token).at
        b b' tt e h
  dispatch-Held infos (add_fee_token args) b b' sized e h =
      add_token-Held env program_id k old laws law takes args.signature args.recovery_id args.path
        args.token b b' infos sized e h
  dispatch-Held infos (remove_fee_token args) b b' sized e h =
      remove_token-Held env program_id k old laws law takes args.signature args.recovery_id
        args.path args.token b b' infos e h
  dispatch-Held infos (update_fee_token args) b b' sized e h =
      update_token-Held env program_id k old laws law takes args.signature args.recovery_id
        args.path args.token b b' infos sized e h
  dispatch-Held infos (withdraw args) b b' sized e h =
      withdraw-Held env program_id k old laws law takes args.signature args.recovery_id args.path
        args.token b b' infos args.withdraw_amount e h

  -- A commission admin stays one under every instruction of the commission program that succeeds.
  pub process_instruction-Held :
      (infos : List AccountInfo) (input : Bytes) (b b' : Bank)
      → ReadsTokens env
      → process_instruction env program_id infos input b ≡ ok (tt, b')
      → H b
      → H b'
  unfolding process_instruction
  process_instruction-Held infos input b b' tokens e h =
      let decoded = env.commission_instruction.try_from_slice input in
      let (i, b1, e1, f1) = bind-ok (from_option decoded borsh_io_error) _ {b = b} e in
      let (is, b1-b) = from_option-ok decoded borsh_io_error e1 in
      dispatch-Held infos i b b' (tokens input i is)
        (subst (λ (c : Bank). dispatch env program_id infos i c ≡ ok (tt, b')) b1-b f1) h
