-- ===== src/Commission/Replay.antt =====
-- The nonces of a commission admin never fall, so no signed withdrawal is accepted twice.
pub mod Sized
pub mod Admin
pub mod Payments
pub mod Follows
pub mod Changes
pub mod Kept
pub mod Table
pub mod Setup
use solana_bridge_program.Common.{
  ℕ, ◌+◌, ◌≤◌, ◌<◌, ◌≡◌, ◌≢◌, List, ◌∷◌, Bytes, length, arith, ap, sym, ◌∙◌, append-injective,
}
use mathlib.Core.Option.{some-injective}
use solana_bridge_program.Runtime.{Bank, AccountInfo, Pubkey, ok, u64_mod}
use solana_bridge_program.Runtime.Laws.{RecordLaws, IsUsed}
use solana_bridge_program.Runtime.History as Runtime
use solana_bridge_program.Env.{Env, IsLawful}
use solana_bridge_program.Shared.Merkle.{amount_bytes}
use solana_bridge_program.Shared.Merkle.Amount.{amount_bytes_injective, length-amount_bytes}
use solana_bridge_program.Shared.Instructions.Commission.{CommissionTokenArg}
use solana_bridge_program.Commission.Content
use solana_bridge_program.Commission.State.{CommissionAdmin}
use solana_bridge_program.Commission.Handlers.{process_withdraw}
use solana_bridge_program.Commission.Handlers.Withdrawal.{Withdrawn, content, withdraw_sound}
use solana_bridge_program.Commission.Processor.{process_instruction}
use Sized.{IsSized, TakesBytes}
use Admin.{Held, max_permitted_data_length, Held-same, written_back}
use Follows.{withdrawn-Follows}
use Changes.{withdraw-Held}
use Kept.{ReadsTokens, process_instruction-Held}

-- Instructions of the commission program that succeed, and steps of others.
abbrev pub History : Env → Pubkey → Bank → Bank → Type 0
History env program_id = Runtime.History program_id (process_instruction env program_id)

-- Messages of different nonces are different.
message-ne :
    (c c' : Content.Content)
    → c.nonce < c'.nonce
    → c'.nonce < u64_mod
    → Content.message c ≢ Content.message c'
unfolding Content.message
message-ne c c' lt small e =
    let (same, _) =
      append-injective (amount_bytes c.nonce) (amount_bytes c'.nonce) _ _
        (length-amount_bytes c.nonce ∙ sym (length-amount_bytes c'.nonce)) e in
    absurd (omega (arith, amount_bytes_injective c.nonce c'.nonce (omega arith) small same))

module _ (env : Env) (program_id : Pubkey) (laws : RecordLaws env program_id)
    (law : IsLawful IsSized env.commission_admin) (takes : TakesBytes env)
    (tokens : ReadsTokens env) where
  -- An account that holds an initialised commission admin does so after any instructions of the
  -- commission program and any steps of others that leave the program's data alone, and none of its
  -- four nonces is then lower than it was. Assumed: the account has no more than 10 MiB, the laws of
  -- the runtime (`RecordLaws`), a lawful codec of the admin that gives each token at least a byte,
  -- and that the tokens in instructions have their sizes.
  pub nonces_never_fall :
      (k : Pubkey) (old : CommissionAdmin) {b c : Bank}
      → Held env program_id k old b
      → History env program_id b c
      → Held env program_id k old c
  nonces_never_fall k old =
      Runtime.History-kept (Held env program_id k old)
        (λ infos input c d.
          process_instruction-Held env program_id k old laws law takes infos input c d tokens)
        (λ c d quiet h.
          let same = quiet k h.used in
          Held-same env program_id k old laws law takes c d same.0 same.1 h)

  module _ (info : AccountInfo) (bridge_info to system_program rent_info : AccountInfo)
      (rest : List AccountInfo) (signature : Bytes) (recovery_id : ℕ) (path : List Bytes)
      (token : CommissionTokenArg) (bridge_info' to' system_program' rent_info' : AccountInfo)
      (rest' : List AccountInfo) (signature' : Bytes) (recovery_id' : ℕ) (path' : List Bytes)
      (token' : CommissionTokenArg) where
    abbrev First : ℕ → Bank → Bank → Type 0
    First =
        Withdrawn env program_id info bridge_info to system_program rent_info rest signature
          recovery_id path token

    abbrev Second : ℕ → Bank → Bank → Type 0
    Second =
        Withdrawn env program_id info bridge_info' to' system_program' rent_info' rest' signature'
          recovery_id' path' token'

    abbrev first_content : CommissionAdmin → Content.Content
    first_content =
        content env program_id info bridge_info to system_program rent_info rest signature
          recovery_id path token

    abbrev second_content : CommissionAdmin → Content.Content
    second_content =
        content env program_id info bridge_info' to' system_program' rent_info' rest' signature'
          recovery_id' path' token'

    -- After a withdrawal, the account holds the admin with the nonce one higher.
    counted :
        (amount : ℕ) (b b' : Bank)
        → IsUsed program_id info.key b
        → length (b info.key).data_bytes ≤ max_permitted_data_length
        → (w : First amount b b')
        → process_withdraw env program_id
            (info ∷ bridge_info ∷ to ∷ system_program ∷ rent_info ∷ rest)
            signature
            recovery_id
            path
            token
            amount
            b
          ≡ ok (tt, b')
        → Held env program_id info.key
            (record w.admin { withdraw_token_nonce = w.admin.withdraw_token_nonce + 1 })
            b'
    counted amount b b' used bounded w e =
        let before : Held env program_id info.key w.admin b = record {
          used = used;
          bounded = bounded;
          admin = w.admin;
          stored = w.opened.stored;
          initialized = w.opened.initialized;
          least = ground arith;
        } in
        let after =
          withdraw-Held env program_id info.key w.admin laws law takes signature recovery_id path
            token b b' (info ∷ bridge_info ∷ to ∷ system_program ∷ rent_info ∷ rest) amount e
            before in
        let sized = law.sized (b info.key).data_bytes w.admin w.opened.stored in
        let new : CommissionAdmin = record w.admin {
          withdraw_token_nonce = w.admin.withdraw_token_nonce + 1;
        } in
        let follows = withdrawn-Follows w.admin sized w.opened.initialized w.no_overflow in
        record {
          used = after.used;
          bounded = after.bounded;
          admin = new;
          stored =
              written_back env program_id info.key w.admin laws law takes info w.admin new w.paid b'
                w.stored follows (omega (arith, after.bounded, w.stored.only.size));
          initialized = w.opened.initialized;
          least = ground arith;
        }

    -- Two withdrawals that succeed on one commission admin account, with any instructions of the
    -- commission program and any steps of others that leave the program's data alone in between, are
    -- signed over different messages, whatever their receivers, tokens, amounts, signatures and
    -- paths. Assumed: the account belongs to the program and has no more than 10 MiB, the laws of
    -- the runtime (`RecordLaws`), a lawful codec of the admin that gives each token at least a byte,
    -- and that the tokens in instructions have their sizes.
    pub withdrawal_not_replayed :
        (amount amount' : ℕ) (b b' c d : Bank)
        → IsUsed program_id info.key b
        → length (b info.key).data_bytes ≤ max_permitted_data_length
        → process_withdraw env program_id
            (info ∷ bridge_info ∷ to ∷ system_program ∷ rent_info ∷ rest)
            signature
            recovery_id
            path
            token
            amount
            b
          ≡ ok (tt, b')
        → History env program_id b' c
        → process_withdraw env program_id
            (info ∷ bridge_info' ∷ to' ∷ system_program' ∷ rent_info' ∷ rest')
            signature'
            recovery_id'
            path'
            token'
            amount'
            c
          ≡ ok (tt, d)
        → (first : First amount b b') × (second : Second amount' c d) × (Content.message
              (first_content first.admin)
            ≢ Content.message (second_content second.admin))
    unfolding Content.new
    withdrawal_not_replayed amount amount' b b' c d used bounded e past again =
        let w =
          withdraw_sound env program_id info bridge_info to system_program rent_info rest signature
            recovery_id path token amount b b' e in
        let v =
          withdraw_sound env program_id info bridge_info' to' system_program' rent_info' rest'
            signature' recovery_id' path' token' amount' c d again in
        let held = nonces_never_fall info.key _ (counted amount b b' used bounded w e) past in
        let same = some-injective held.admin v.admin (sym held.stored ∙ v.opened.stored) in
        let nonce = ap (λ (a : CommissionAdmin). a.withdraw_token_nonce) same in
        let sized = law.sized (c info.key).data_bytes v.admin v.opened.stored in
        (
          w,
          v,
          message-ne (first_content w.admin) (second_content v.admin)
              (omega (arith, held.least.withdraw, nonce)) sized.withdraw_nonce,
        )
