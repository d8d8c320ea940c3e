-- ===== src/Shared/Calls/Created.antt =====
-- What the creation of an account does, by the laws of the runtime.
use solana_bridge_program.Common.{ℕ, ◌≡◌, List, [], ◌∷◌, Bytes, subst, replicate}
use solana_bridge_program.Runtime.{Pubkey, AccountInfo, Bank, ok, bind-ok, read, read-ok}
use solana_bridge_program.Runtime.Laws.{RecordLaws}
use solana_bridge_program.Env.{Env}
use solana_bridge_program.Shared.Calls.{call_create_account}

module _ (env : Env) (payer info rent system : AccountInfo) (space : ℕ) (owner : Pubkey) (s : Bytes)
    (seeds : List Bytes) (b b' : Bank) where
  -- With seeds, the account is created by one call, which signs with them.
  pub call_create_account-ok :
      call_create_account env payer info rent system space owner (s ∷ seeds) b ≡ ok (tt, b')
      → (lamports : ℕ) × (env.invoke_signed
            (env.system_create_account payer.key info.key lamports space owner)
            (payer ∷ info ∷ system ∷ [])
            ((s ∷ seeds) ∷ [])
            b
          ≡ ok (tt, b'))
  unfolding call_create_account
  call_create_account-ok e =
      let balance = env.rent_minimum_balance rent space in
      let (lamports, b1, e1, f1) = bind-ok (read balance) _ {b = b} e in
      let (_, b1-b) = read-ok balance e1 in
      (
        lamports,
        subst
            (λ (c : Bank).
              env.invoke_signed (env.system_create_account payer.key info.key lamports space owner)
                (payer ∷ info ∷ system ∷ []) ((s ∷ seeds) ∷ []) c
              ≡ ok (tt, b'))
            b1-b f1,
      )

  -- The account had no data.
  pub call_create_account_fresh :
      (program_id : Pubkey)
      → RecordLaws env program_id
      → call_create_account env payer info rent system space owner (s ∷ seeds) b ≡ ok (tt, b')
      → (b info.key).data_bytes ≡ []
  call_create_account_fresh program_id laws e =
      let (lamports, run) = call_create_account-ok e in
      laws.create_fresh payer.key info.key owner lamports space (payer ∷ info ∷ system ∷ [])
        ((s ∷ seeds) ∷ []) b b' run

  -- The account belongs to the given owner and is filled with zeros.
  pub call_create_account_done :
      (program_id : Pubkey)
      → RecordLaws env program_id
      → call_create_account env payer info rent system space owner (s ∷ seeds) b ≡ ok (tt, b')
      → ((b' info.key).owner ≡ owner) × ((b' info.key).data_bytes ≡ replicate space 0)
  call_create_account_done program_id laws e =
      let (lamports, run) = call_create_account-ok e in
      laws.create_done payer.key info.key owner lamports space (payer ∷ info ∷ system ∷ [])
        ((s ∷ seeds) ∷ []) b b' run
