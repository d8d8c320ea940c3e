-- ===== src/Upgrade/Replay/Kept.antt =====
-- Every instruction of the upgrade program keeps an upgrade admin, and its nonce does not fall.
use solana_bridge_program.Common.{
  ℕ, ◌≡◌, ◌≢◌, refl, true, some, List, [], ◌∷◌, Bytes, length, arith, ap, ◌∙◌, subst, bytes_eq, not,
}
use solana_bridge_program.Runtime.{
  Pubkey, AccountInfo, Bank, ok, bind-ok, lift, lift-ok, require, require-ok, from_option,
  from_option-ok, borsh_io_error, write_data, next_account_info,
}
use solana_bridge_program.Runtime.Store.{write_data-ok}
use solana_bridge_program.Runtime.Laws.{RecordLaws}
use solana_bridge_program.Env.{Env, IsLawful}
use solana_bridge_program.Shared.Error.{wrong_admin, already_in_use}
use solana_bridge_program.Shared.Types.{upgrade_admin_pda_seed}
use solana_bridge_program.Shared.Calls.{call_create_account}
use solana_bridge_program.Shared.Calls.Created.{call_create_account-ok, call_create_account_fresh}
use solana_bridge_program.Shared.Instructions.Upgrade.{
  UpgradeInstruction, TransferOwnershipArgs, initialize_admin, transfer_ownership, upgrade,
}
use solana_bridge_program.Upgrade.State.{max_admin_size}
use solana_bridge_program.Upgrade.Handlers.{read_upgrade_admin, process_init_admin}
use solana_bridge_program.Upgrade.Handlers.Upgraded.{IsSized, read_upgrade_admin-ok}
use solana_bridge_program.Upgrade.Processor.{dispatch, process_instruction}
use solana_bridge_program.Upgrade.Replay.Admin.{
  Held, Held-same, Held-invoke, upgrade-Held, transfer_ownership-Held,
}

-- The keys that the codec reads from an instruction have 64 bytes.
abbrev pub ReadsKeys : Env → Type 0
ReadsKeys env =
    (input : Bytes) (args : TransferOwnershipArgs)
    → env.upgrade_instruction.try_from_slice input ≡ some (transfer_ownership args)
    → length args.new_public_key ≡ 64

module _ (env : Env) (program_id k contract : Pubkey) (n : ℕ) (laws : RecordLaws env program_id)
    (law : IsLawful IsSized env.upgrade_admin) where
  abbrev H : Bank → Type 0
  H = Held env program_id k contract n

  call_create_account-Held :
      (payer info rent system : AccountInfo) (space : ℕ) (owner : Pubkey) (s : Bytes)
      (seeds : List Bytes) (b b' : Bank)
      → call_create_account env payer info rent system space owner (s ∷ seeds) b ≡ ok (tt, b')
      → H b
      → H b' × (k ≢ info.key)
  call_create_account-Held payer info rent system space owner s seeds b b' e h =
      let (lamports, run) =
        call_create_account-ok env payer info rent system space owner s seeds b b' e in
      let fresh =
        call_create_account_fresh env payer info rent system space owner s seeds b b' program_id
          laws e in
      (
        Held-invoke env program_id k contract n laws law _ _ _ b b' run h,
        λ same.
            absurd (
              omega
                (arith, h.used.filled, ap (λ j. length (b j).data_bytes) same, ap length fresh)),
      )

  init_admin-Held :
      (infos : List AccountInfo) (key : Bytes) (upgraded : Pubkey) (b b' : Bank)
      → process_init_admin env program_id infos key upgraded b ≡ ok (tt, b')
      → H b
      → H b'
  unfolding process_init_admin next_account_info
  init_admin-Held (i ∷ p ∷ s ∷ r ∷ rest) key upgraded b b' e h =
      let made = env.create_program_address (upgrade_admin_pda_seed ∷ upgraded ∷ []) program_id in
      let (address, b1, e1, f1) = bind-ok (lift made) _ {b = b} e in
      let (_, b1-b) = lift-ok made e1 in
      let test = bytes_eq address i.key in
      let (_, b2, e2, f2) = bind-ok (require test wrong_admin) _ f1 in
      let (_, b2-b1) = require-ok test wrong_admin e2 in
      let create =
        call_create_account env p i r s max_admin_size program_id
          (upgrade_admin_pda_seed ∷ upgraded ∷ []) in
      let (_, b3, e3, f3) = bind-ok create _ f2 in
      let (h3, other) =
        call_create_account-Held p i r s max_admin_size program_id _ _ b b3
          (subst (λ (c : Bank). create c ≡ ok (tt, b3)) (b2-b1 ∙ b1-b) e3) h in
      let (admin, b4, e4, f4) = bind-ok (read_upgrade_admin env i) _ f3 in
      let (b4-b3, _) = read_upgrade_admin-ok env program_id i e4 in
      let fresh = not admin.is_initialized in
      let (_, b5, e5, f5) = bind-ok (require fresh already_in_use) _ f4 in
      let (_, b5-b4) = require-ok fresh already_in_use e5 in
      let bytes =
        env.upgrade_admin.serialize
          (record admin { contract = upgraded; public_key = key; is_initialized = true }) in
      let written = subst (λ (c : Bank). write_data i bytes c ≡ ok (tt, b')) (b5-b4 ∙ b4-b3) f5 in
      let (_, _, only) = write_data-ok i bytes {b = b3} written in
      let kept = only.elsewhere k other in
      Held-same env program_id k contract n laws law b3 b' (ap (λ a. a.owner) kept)
        (ap (λ a. a.data_bytes) kept) h3
  init_admin-Held _ key upgraded b b' e h = cc

  dispatch-Held :
      (infos : List AccountInfo) (i : UpgradeInstruction) (b b' : Bank)
      → ((args : TransferOwnershipArgs)
          → i ≡ transfer_ownership args
          → length args.new_public_key ≡ 64)
      → dispatch env program_id infos i b ≡ ok (tt, b')
      → H b
      → H b'
  unfolding dispatch
  dispatch-Held infos (initialize_admin args) b b' keys e h =
      init_admin-Held infos args.public_key args.contract b b' e h
  dispatch-Held infos (transfer_ownership args) b b' keys e h =
      transfer_ownership-Held env program_id k contract n laws law infos args.new_public_key
        args.signature args.recovery_id b b' (keys args refl) e h
  dispatch-Held infos (upgrade args) b b' keys e h =
      upgrade-Held env program_id k contract n laws law infos args.signature args.recovery_id
        args.path b b' e h

  -- An upgrade admin stays one under every instruction of the upgrade program that succeeds.
  pub process_instruction-Held :
      (infos : List AccountInfo) (input : Bytes) (b b' : Bank)
      → ReadsKeys env
      → process_instruction env program_id infos input b ≡ ok (tt, b')
      → H b
      → H b'
  unfolding process_instruction
  process_instruction-Held infos input b b' keys e h =
      let decoded = env.upgrade_instruction.try_from_slice input in
      let (i, b1, e1, f1) = bind-ok (from_option decoded borsh_io_error) _ {b = b} e in
      let (is, b1-b) = from_option-ok decoded borsh_io_error e1 in
      dispatch-Held infos i b b' (λ args same. keys input args (is ∙ ap some same))
        (subst (λ (c : Bank). dispatch env program_id infos i c ≡ ok (tt, b')) b1-b f1) h
