-- ===== src/Upgrade/Replay/Admin.antt =====
-- An upgrade admin, and what the upgrade program's instructions keep of it.
use mathlib.Core.Option.{some-injective}
use solana_bridge_program.Common.{
  ℕ, ◌+◌, ◌≤◌, ◌≡◌, refl, true, some, List, [], ◌∷◌, Bytes, length, arith, ap, sym, ◌∙◌,
  Bytes-cases, inl, inr,
}
use solana_bridge_program.Runtime.{Pubkey, AccountInfo, Bank, Instruction, ok, next_account_info}
use solana_bridge_program.Runtime.Store.{OnlyData}
use solana_bridge_program.Runtime.Laws.{RecordLaws, IsUsed}
use solana_bridge_program.Env.{Env, IsLawful}
use solana_bridge_program.Upgrade.State.{UpgradeAdmin}
use solana_bridge_program.Upgrade.Handlers.{process_transfer_ownership, process_upgrade}
use solana_bridge_program.Upgrade.Handlers.Upgraded.{
  IsSized, upgrade_sound, upgrade_ownership_sound,
}

-- The account belongs to the program and holds an initialised admin of the contract whose nonce is
-- at least `n`.
pub record Held (env : Env) (program_id k contract : Pubkey) (n : ℕ) (b : Bank) : Type 0 where
  pub used : IsUsed program_id k b
  pub admin : UpgradeAdmin
  pub stored : env.upgrade_admin.deserialize (b k).data_bytes ≡ some admin
  pub initialized : admin.is_initialized ≡ true
  pub same_contract : admin.contract ≡ contract
  pub least : n ≤ admin.nonce

module _ (env : Env) (program_id k contract : Pubkey) (n : ℕ) (laws : RecordLaws env program_id)
    (law : IsLawful IsSized env.upgrade_admin) where
  abbrev H : Bank → Type 0
  H = Held env program_id k contract n

  -- The account is as it was.
  pub Held-same :
      (b b' : Bank) → (b' k).owner ≡ (b k).owner → (b' k).data_bytes ≡ (b k).data_bytes → H b → H b'
  Held-same b b' owner bytes h = record {
    used = record { owner = owner ∙ h.used.owner; filled = rw bytes h.used.filled };
    admin = h.admin;
    stored = ap env.upgrade_admin.deserialize bytes ∙ h.stored;
    initialized = h.initialized;
    same_contract = h.same_contract;
    least = h.least;
  }

  pub Held-invoke :
      (ix : Instruction) (infos : List AccountInfo) (seeds : List (List Bytes)) (b b' : Bank)
      → env.invoke_signed ix infos seeds b ≡ ok (tt, b')
      → H b
      → H b'
  Held-invoke ix infos seeds b b' e h =
      let kept = laws.owned_kept k ix infos seeds b b' e h.used in Held-same b b' kept.0 kept.1 h

  -- The new admin of a write to the account: its contract stays, and its nonce does not fall.
  abbrev Follows : UpgradeAdmin → UpgradeAdmin → Type 0
  Follows old new =
      (new.is_initialized ≡ true) × (new.contract ≡ old.contract) × (old.nonce ≤ new.nonce)

  -- A write of an admin that follows the one that the account held in `b`; `m` is the state before
  -- the write.
  Held-write :
      (info : AccountInfo) (old new : UpgradeAdmin) (b m b' : Bank)
      → env.upgrade_admin.deserialize (b info.key).data_bytes ≡ some old
      → env.upgrade_admin.deserialize (b' info.key).data_bytes ≡ some new
      → OnlyData info.key m b'
      → Follows old new
      → H b
      → H m
      → H b'
  Held-write info old new b m b' was is only follows h hm = elim (Bytes-cases k info.key) [
    | inl same ↦
        let here : h.admin ≡ old =
          some-injective h.admin old
            (sym h.stored ∙ ap (λ j. env.upgrade_admin.deserialize (b j).data_bytes) same ∙ was) in
        record {
          used = record {
            owner =
                ap (λ j. (b' j).owner) same
                ∙ only.owner
                ∙ sym (ap (λ j. (m j).owner) same)
                ∙ hm.used.owner;
            filled = omega (
              arith,
              hm.used.filled,
              only.size,
              ap (λ j. length (b' j).data_bytes) same,
              ap (λ j. length (m j).data_bytes) same,
            );
          };
          admin = new;
          stored = ap (λ j. env.upgrade_admin.deserialize (b' j).data_bytes) same ∙ is;
          initialized = follows.0;
          same_contract =
              follows.1 ∙ sym (ap (λ (a : UpgradeAdmin). a.contract) here) ∙ h.same_contract;
          least = omega (arith, h.least, follows.2, ap (λ (a : UpgradeAdmin). a.nonce) here);
        }
    | inr other ↦
        let kept = only.elsewhere k other in
        Held-same m b' (ap (λ a. a.owner) kept) (ap (λ a. a.data_bytes) kept) hm
  ]

  pub upgrade-Held :
      (infos : List AccountInfo) (signature : Bytes) (recovery_id : ℕ) (path : List Bytes)
      (b b' : Bank)
      → process_upgrade env program_id infos signature recovery_id path b ≡ ok (tt, b')
      → H b
      → H b'
  unfolding process_upgrade next_account_info
  upgrade-Held (i ∷ d ∷ p ∷ f ∷ s ∷ r ∷ c ∷ rest) signature recovery_id path b b' e h =
      let u =
        upgrade_sound env program_id i d p f s r c rest signature recovery_id path b b' law e in
      Held-write i u.admin (record u.admin { nonce = u.admin.nonce + 1 }) b u.loaded b'
        u.opened.stored u.stored u.only (u.opened.initialized, refl, omega arith) h
        (Held-invoke _ _ _ b u.loaded u.load h)
  upgrade-Held _ signature recovery_id path b b' e h = cc

  pub transfer_ownership-Held :
      (infos : List AccountInfo) (key signature : Bytes) (recovery_id : ℕ) (b b' : Bank)
      → length key ≡ 64
      → process_transfer_ownership env program_id infos key signature recovery_id b ≡ ok (tt, b')
      → H b
      → H b'
  unfolding process_transfer_ownership next_account_info
  transfer_ownership-Held (i ∷ rest) key signature recovery_id b b' size e h =
      let (admin, opened, _, is, only) =
        upgrade_ownership_sound env program_id i rest key signature recovery_id b b' law size e in
      Held-write i admin (record admin { public_key = key }) b b b' opened.stored is only
        (opened.initialized, refl, omega arith) h h
  transfer_ownership-Held [] key signature recovery_id b b' size e h = cc
