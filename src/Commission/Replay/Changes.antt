-- ===== src/Commission/Replay/Changes.antt =====
-- The signed handlers of the commission program keep a commission admin.
use solana_bridge_program.Common.{ℕ, ◌+◌, ◌<◌, ◌≡◌, true, List, ◌∷◌, Bytes}
use solana_bridge_program.Runtime.{Pubkey, AccountInfo, Bank, ok, next_account_info, u64_mod}
use solana_bridge_program.Runtime.Laws.{RecordLaws}
use solana_bridge_program.Env.{Env, IsLawful}
use solana_bridge_program.Shared.Instructions.Commission.{CommissionTokenArg}
use solana_bridge_program.Commission.State.{CommissionAdmin, OperationType, from_arg}
use solana_bridge_program.Commission.Handlers.{
  process_add_token, process_remove_token, process_update_token, process_withdraw,
}
use solana_bridge_program.Commission.Handlers.Changes.{
  Changed, add_token_sound, remove_token_sound, update_token_sound,
}
use solana_bridge_program.Commission.Handlers.Withdrawal.{withdraw_sound}
use solana_bridge_program.Commission.Replay.Sized.{IsSized, IsSizedToken, TakesBytes}
use solana_bridge_program.Commission.Replay.Admin.{Held, Follows, Held-invoke, Held-write}
use solana_bridge_program.Commission.Replay.Follows.{
  added-Follows, removed-Follows, updated-Follows, withdrawn-Follows,
}
use solana_bridge_program.Commission.Replay.Payments.{pay_token-Keeps}

module _ (env : Env) (program_id k : Pubkey) (old : CommissionAdmin)
    (laws : RecordLaws env program_id) (law : IsLawful IsSized env.commission_admin)
    (takes : TakesBytes env) where
  abbrev H : Bank → Type 0
  H = Held env program_id k old

  -- A signed change, where the admin that it writes follows the one before.
  Changed-Held :
      (info bridge_info : AccountInfo) (rest : List AccountInfo) (signature : Bytes)
      (recovery_id : ℕ) (path : List Bytes) (token : CommissionTokenArg) (operation : OperationType)
      (nonce : CommissionAdmin → ℕ) (changed : CommissionAdmin → ℕ → CommissionAdmin) (b b' : Bank)
      → ((a : CommissionAdmin)
          → IsSized a
          → a.is_initialized ≡ true
          → nonce a + 1 < u64_mod
          → Follows a (changed a (nonce a + 1)))
      → Changed env program_id info bridge_info rest signature recovery_id path token operation
          nonce changed b b'
      → H b
      → H b'
  Changed-Held info bridge_info rest signature recovery_id path token operation nonce changed b b'
        follows c h =
      let sized = law.sized (b info.key).data_bytes c.admin c.opened.stored in
      Held-write env program_id k old laws law takes info c.admin
        (changed c.admin (nonce c.admin + 1)) b b b' c.opened.stored c.stored
        (follows c.admin sized c.opened.initialized c.no_overflow) h h

  module _ (signature : Bytes) (recovery_id : ℕ) (path : List Bytes) (token : CommissionTokenArg)
      (b b' : Bank) where
    pub add_token-Held :
        (infos : List AccountInfo)
        → IsSizedToken (from_arg token)
        → process_add_token env program_id infos signature recovery_id path token b ≡ ok (tt, b')
        → H b
        → H b'
    unfolding process_add_token next_account_info
    add_token-Held (i ∷ bi ∷ rest) sized e h =
        Changed-Held i bi rest signature recovery_id path token _ _ _ b b'
          (λ a s init. added-Follows a s init (from_arg token) sized)
          (add_token_sound env program_id i bi rest signature recovery_id path token b b' e) h
    add_token-Held _ sized e h = cc

    pub remove_token-Held :
        (infos : List AccountInfo)
        → process_remove_token env program_id infos signature recovery_id path token b ≡ ok (tt, b')
        → H b
        → H b'
    unfolding process_remove_token next_account_info
    remove_token-Held (i ∷ bi ∷ rest) e h =
        Changed-Held i bi rest signature recovery_id path token _ _ _ b b'
          (λ a s init. removed-Follows a s init (from_arg token))
          (remove_token_sound env program_id i bi rest signature recovery_id path token b b' e) h
    remove_token-Held _ e h = cc

    pub update_token-Held :
        (infos : List AccountInfo)
        → IsSizedToken (from_arg token)
        → process_update_token env program_id infos signature recovery_id path token b ≡ ok (tt, b')
        → H b
        → H b'
    unfolding process_update_token next_account_info
    update_token-Held (i ∷ bi ∷ rest) sized e h =
        Changed-Held i bi rest signature recovery_id path token _ _ _ b b'
          (λ a s init. updated-Follows a s init (from_arg token) sized)
          (update_token_sound env program_id i bi rest signature recovery_id path token b b' e) h
    update_token-Held _ sized e h = cc

    -- The payment of a withdrawal is made before the admin is written.
    pub withdraw-Held :
        (infos : List AccountInfo) (amount : ℕ)
        → process_withdraw env program_id infos signature recovery_id path token amount b
          ≡ ok (tt, b')
        → H b
        → H b'
    unfolding process_withdraw next_account_info
    withdraw-Held (i ∷ bi ∷ to ∷ s ∷ r ∷ rest) amount e h =
        let w =
          withdraw_sound env program_id i bi to s r rest signature recovery_id path token amount b
            b' e in
        let paid =
          (pay_token-Keeps env (Held-invoke env program_id k old laws law takes) i.key i bi to s r
              rest amount token.token).at
            b w.paid tt w.payment h in
        let sized = law.sized (b i.key).data_bytes w.admin w.opened.stored in
        Held-write env program_id k old laws law takes i w.admin
          (record w.admin { withdraw_token_nonce = w.admin.withdraw_token_nonce + 1 }) b w.paid b'
          w.opened.stored w.stored
          (withdrawn-Follows w.admin sized w.opened.initialized w.no_overflow) h paid
    withdraw-Held _ amount e h = cc
