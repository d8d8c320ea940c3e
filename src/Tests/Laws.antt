-- ===== src/Tests/Laws.antt =====
-- The platform of the tests meets the laws that the theorems assume.
use solana_bridge_program.Common.{
  ℕ, zero, suc, ◌≡◌, refl, ap, List, [], ◌∷◌, Bytes, length, replicate, ◌==◌, ==_iff, arith,
  Bool-cases, Bytes-cases, inl, inr, subst,
}
use solana_bridge_program.Runtime.{Pubkey, Account, AccountMeta, Instruction, Bank, ok, set_account}
use solana_bridge_program.Runtime.Store.{set_account_self, set_account_ne}
use solana_bridge_program.Runtime.Laws.{RecordLaws, IsUsed}
use solana_bridge_program.Tests.Platform.{test_env, pad, create, run_create, run}

pub length-pad : (n : ℕ) (x : Bytes) → length (pad n x) ≡ n
length-pad zero x = refl
length-pad (suc n) [] = ap suc (length-pad n [])
length-pad (suc n) (y ∷ x) = ap suc (length-pad n x)

-- The creation of an account, where it succeeds.
create-ok :
    (new : Pubkey) (lamports space : ℕ) (owner : Pubkey) (b b' : Bank)
    → create new lamports space owner b ≡ ok (tt, b')
    → (length (b new).data_bytes ≡ 0)
      × (b'
          ≡ set_account new
              (record { lamports = lamports; data_bytes = replicate space 0; owner = owner })
              b)
create-ok new lamports space owner b b' e = elim (Bool-cases (length (b new).data_bytes == 0)) [
  | inl empty ↦ ((==_iff (length (b new).data_bytes) 0).0 empty, ground arith)
  | inr full ↦ ground arith
]

no_bytes : (x : Bytes) → length x ≡ 0 → x ≡ []
no_bytes [] h = refl
no_bytes (y ∷ x) h = absurd (omega arith)

module _ (program_id : Pubkey) (k : Pubkey) where
  abbrev Quiet : Bank → Bank → Type 0
  Quiet b b' = ((b' k).owner ≡ (b k).owner) × ((b' k).data_bytes ≡ (b k).data_bytes)

  create-Quiet :
      (new : Pubkey) (lamports space : ℕ) (owner : Pubkey) (b b' : Bank)
      → create new lamports space owner b ≡ ok (tt, b')
      → IsUsed program_id k b
      → Quiet b b'
  create-Quiet new lamports space owner b b' e used =
      let (empty, is) = create-ok new lamports space owner b b' e in
      let made : Account = record {
        lamports = lamports;
        data_bytes = replicate space 0;
        owner = owner;
      } in
      elim (Bytes-cases k new) [
        | inl same ↦
            let here : length (b k).data_bytes ≡ 0 = rw same empty in
            let filled = used.filled in absurd (omega arith)
        | inr other ↦
            let kept : b' k ≡ b k = rw is (set_account_ne new k made b other) in
            (ap (λ a. a.owner) kept, ap (λ a. a.data_bytes) kept)
      ]

  run_create-Quiet :
      (metas : List AccountMeta) (bytes : Bytes) (b b' : Bank)
      → run_create metas bytes b ≡ ok (tt, b')
      → IsUsed program_id k b
      → Quiet b b'
  run_create-Quiet (payer ∷ new ∷ []) (lamports ∷ space ∷ owner) b b' e used =
      create-Quiet new.pubkey lamports space owner b b' e used
  run_create-Quiet _ _ b b' e used =
      let same : b' ≡ b = ground arith in
      (ap (λ (c : Bank). (c k).owner) same, ap (λ (c : Bank). (c k).data_bytes) same)

  run-Quiet :
      (ix : Instruction) (b b' : Bank) → run ix b ≡ ok (tt, b') → IsUsed program_id k b → Quiet b b'
  run-Quiet ix b b' e used = by_tag ix.data_bytes refl
    where
      by_tag : (bytes : Bytes) → ix.data_bytes ≡ bytes → Quiet b b'
      by_tag (zero ∷ bytes) is =
          run_create-Quiet ix.accounts bytes b b'
            (subst (λ (x : Bytes). run (record ix { data_bytes = x }) b ≡ ok (tt, b')) is e) used
      by_tag (suc n ∷ bytes) is =
          let f = subst (λ (x : Bytes). run (record ix { data_bytes = x }) b ≡ ok (tt, b')) is e in
          let same : b' ≡ b = ground arith in
          (ap (λ (c : Bank). (c k).owner) same, ap (λ (c : Bank). (c k).data_bytes) same)
      by_tag [] is =
          let f = subst (λ (x : Bytes). run (record ix { data_bytes = x }) b ≡ ok (tt, b')) is e in
          let same : b' ≡ b = ground arith in
          (ap (λ (c : Bank). (c k).owner) same, ap (λ (c : Bank). (c k).data_bytes) same)

pub test_laws : (program_id : Pubkey) → RecordLaws test_env program_id
test_laws program_id = record {
  owned_kept = λ k ix infos seeds b b' e used. run-Quiet program_id k ix b b' e used;
  create_fresh = λ payer new owner lamports space infos seeds b b' e.
      no_bytes (b new).data_bytes (create-ok new lamports space owner b b' e).0;
  create_done = λ payer new owner lamports space infos seeds b b' e.
      let is = (create-ok new lamports space owner b b' e).1 in
      let made : Account = record {
        lamports = lamports;
        data_bytes = replicate space 0;
        owner = owner;
      } in
      let there : b' new ≡ made = rw is (set_account_self new made b) in
      (ap (λ a. a.owner) there, ap (λ a. a.data_bytes) there);
}
