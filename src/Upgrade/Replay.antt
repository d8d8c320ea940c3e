-- ===== src/Upgrade/Replay.antt =====
-- The nonce of an upgrade admin never falls, so no signed upgrade is accepted twice.
pub mod Admin
pub mod Kept
use solana_bridge_program.Common.{
  ℕ, ◌+◌, ◌≤◌, ◌<◌, ◌≡◌, ◌≢◌, refl, some, List, ◌∷◌, Bytes, length, arith, ap, sym, ◌∙◌,
  append-injective,
}
use mathlib.Core.Option.{some-injective}
use solana_bridge_program.Runtime.{Bank, AccountInfo, Pubkey, ok, u64_mod}
use solana_bridge_program.Runtime.Laws.{RecordLaws, IsUsed}
use solana_bridge_program.Runtime.History as Runtime
use solana_bridge_program.Env.{Env, IsLawful}
use solana_bridge_program.Shared.Types.{solana_network}
use solana_bridge_program.Shared.Merkle.{amount_bytes}
use solana_bridge_program.Shared.Merkle.Amount.{amount_bytes_injective, length-amount_bytes}
use solana_bridge_program.Upgrade.Content
use solana_bridge_program.Upgrade.State.{UpgradeAdmin}
use solana_bridge_program.Upgrade.Handlers.{process_upgrade}
use solana_bridge_program.Upgrade.Handlers.Upgraded.{IsSized, Upgraded, upgrade_sound}
use solana_bridge_program.Upgrade.Processor.{process_instruction}
use Admin.{Held, Held-same, upgrade-Held}
use Kept.{ReadsKeys, process_instruction-Held}

-- Instructions of the upgrade program that succeed, and steps of others.
abbrev pub History : Env → Pubkey → Bank → Bank → Type 0
History env program_id = Runtime.History program_id (process_instruction env program_id)

module _ (env : Env) (program_id : Pubkey) (laws : RecordLaws env program_id)
    (law : IsLawful IsSized env.upgrade_admin) (keys : ReadsKeys env) where
  -- An account that holds an initialised admin of a contract with a nonce of at least `n` does so
  -- after any instructions of the upgrade program and any steps of others that leave the program's
  -- data alone. Assumed: the laws of the runtime (`RecordLaws`), a lawful codec of the admin, and
  -- that the keys in instructions have 64 bytes.
  pub nonce_never_falls :
      (k contract : Pubkey) (n : ℕ) {b c : Bank}
      → Held env program_id k contract n b
      → History env program_id b c
      → Held env program_id k contract n c
  nonce_never_falls k contract n =
      Runtime.History-kept (Held env program_id k contract n)
        (λ infos input c d.
          process_instruction-Held env program_id k contract n laws law infos input c d keys)
        (λ c d quiet h.
          let same = quiet k h.used in
          Held-same env program_id k contract n laws law c d same.0 same.1 h)

  -- The messages of two nonces are different.
  message-ne :
      (n m : ℕ) (contract contract' buffer buffer' : Pubkey)
      → n < m
      → m < u64_mod
      → Content.message (Content.new n contract buffer)
        ≢ Content.message (Content.new m contract' buffer')
  unfolding Content.message Content.new
  message-ne n m contract contract' buffer buffer' lt small e =
      let (_, e1) = append-injective solana_network solana_network _ _ refl e in
      let (same, _) =
        append-injective (amount_bytes n) (amount_bytes m) _ _
          (length-amount_bytes n ∙ sym (length-amount_bytes m)) e1 in
      absurd (omega (arith, amount_bytes_injective n m (omega arith) small same))

  module _ (info data_info upgraded buffer spill rent clock : AccountInfo) (rest : List AccountInfo)
      (signature : Bytes) (recovery_id : ℕ) (path : List Bytes)
      (data_info' upgraded' buffer' spill' rent' clock' : AccountInfo) (rest' : List AccountInfo)
      (signature' : Bytes) (recovery_id' : ℕ) (path' : List Bytes) where
    abbrev First : Bank → Bank → Type 0
    First =
        Upgraded env program_id info data_info upgraded buffer spill rent clock rest signature
          recovery_id path

    abbrev Second : Bank → Bank → Type 0
    Second =
        Upgraded env program_id info data_info' upgraded' buffer' spill' rent' clock' rest'
          signature' recovery_id' path'

    counted :
        (b b' : Bank)
        → IsUsed program_id info.key b
        → (u : First b b')
        → process_upgrade env program_id
            (info ∷ data_info ∷ upgraded ∷ buffer ∷ spill ∷ rent ∷ clock ∷ rest)
            signature
            recovery_id
            path
            b
          ≡ ok (tt, b')
        → Held env program_id info.key u.admin.contract (u.admin.nonce + 1) b'
    counted b b' used u e =
        let before : Held env program_id info.key u.admin.contract u.admin.nonce b = record {
          used = used;
          admin = u.admin;
          stored = u.opened.stored;
          initialized = u.opened.initialized;
          same_contract = refl;
          least = omega arith;
        } in
        let after =
          upgrade-Held env program_id info.key u.admin.contract u.admin.nonce laws law
            (info ∷ data_info ∷ upgraded ∷ buffer ∷ spill ∷ rent ∷ clock ∷ rest) signature
            recovery_id path b b' e before in
        record {
          used = after.used;
          admin = record u.admin { nonce = u.admin.nonce + 1 };
          stored = u.stored;
          initialized = u.opened.initialized;
          same_contract = refl;
          least = omega arith;
        }

    -- Two upgrades that succeed on one admin account, with any instructions of the upgrade program
    -- and any steps of others that leave the program's data alone in between, are signed over
    -- different messages, whatever their programs, buffers, signatures and paths. Assumed: the
    -- account belongs to the program, the laws of the runtime (`RecordLaws`), a lawful codec of the
    -- admin, and that the keys in instructions have 64 bytes.
    pub upgrade_not_replayed :
        (b b' c d : Bank)
        → IsUsed program_id info.key b
        → process_upgrade env program_id
            (info ∷ data_info ∷ upgraded ∷ buffer ∷ spill ∷ rent ∷ clock ∷ rest)
            signature
            recovery_id
            path
            b
          ≡ ok (tt, b')
        → History env program_id b' c
        → process_upgrade env program_id
            (info ∷ data_info' ∷ upgraded' ∷ buffer' ∷ spill' ∷ rent' ∷ clock' ∷ rest')
            signature'
            recovery_id'
            path'
            c
          ≡ ok (tt, d)
        → (first : First b b') × (second : Second c d) × (Content.message
              (Content.new first.admin.nonce first.admin.contract buffer.key)
            ≢ Content.message (Content.new second.admin.nonce second.admin.contract buffer'.key))
    upgrade_not_replayed b b' c d used e past again =
        let u =
          upgrade_sound env program_id info data_info upgraded buffer spill rent clock rest
            signature recovery_id path b b' law e in
        let v =
          upgrade_sound env program_id info data_info' upgraded' buffer' spill' rent' clock' rest'
            signature' recovery_id' path' c d law again in
        let held =
          nonce_never_falls info.key u.admin.contract (u.admin.nonce + 1) (counted b b' used u e)
            past in
        let same = some-injective held.admin v.admin (sym held.stored ∙ v.opened.stored) in
        let nonce = ap (λ (a : UpgradeAdmin). a.nonce) same in
        let small = (law.sized (c info.key).data_bytes v.admin v.opened.stored).2 in
        (
          u,
          v,
          message-ne u.admin.nonce v.admin.nonce u.admin.contract v.admin.contract buffer.key
              buffer'.key (omega (arith, held.least, nonce)) small,
        )
