-- ===== src/Commission/Replay/Admin.antt =====
-- A commission admin, and what a write of a changed admin keeps of it.
use mathlib.Core.Option.{some-injective}
use solana_bridge_program.Common.{
  ℕ, ◌≤◌, ◌<◌, ◌^◌, ◌≡◌, true, some, List, Bytes, length, length-append, arith, ap, sym, ◌∙◌, subst,
  Bytes-cases, inl, inr,
}
use solana_bridge_program.Runtime.{Pubkey, AccountInfo, Bank, Instruction, u64_mod}
use solana_bridge_program.Runtime.Laws.{RecordLaws, IsUsed}
use solana_bridge_program.Runtime.Keeps.{Keeps}
use solana_bridge_program.Env.{Env, IsLawful}
use solana_bridge_program.Commission.State.{CommissionAdmin}
use solana_bridge_program.Commission.Handlers.Changes.{Stored}
use solana_bridge_program.Commission.Replay.Sized.{AreSized, IsSized, TakesBytes}

-- The runtime's limit on an account's data.
abbrev pub max_permitted_data_length : ℕ
max_permitted_data_length = 10485760

-- No nonce of the new admin is below that of the old one.
pub record NoncesLe (old new : CommissionAdmin) : Type 0 where
  pub add : old.add_token_nonce ≤ new.add_token_nonce
  pub update : old.update_token_nonce ≤ new.update_token_nonce
  pub remove : old.remove_token_nonce ≤ new.remove_token_nonce
  pub withdraw : old.withdraw_token_nonce ≤ new.withdraw_token_nonce

-- The account belongs to the program, is within the runtime's limit, and holds an initialised admin
-- none of whose nonces is below that of `old`.
pub record Held (env : Env) (program_id k : Pubkey) (old : CommissionAdmin) (b : Bank)
    : Type 0 where
  pub used : IsUsed program_id k b
  pub bounded : length (b k).data_bytes ≤ max_permitted_data_length
  pub admin : CommissionAdmin
  pub stored : env.commission_admin.deserialize (b k).data_bytes ≡ some admin
  pub initialized : admin.is_initialized ≡ true
  pub least : NoncesLe old admin

-- An admin that may follow: it is initialised, its nonces are small and not below, and its tokens
-- have their sizes.
pub record Follows (old new : CommissionAdmin) : Type 0 where
  pub initialized : new.is_initialized ≡ true
  pub least : NoncesLe old new
  pub add : new.add_token_nonce < u64_mod
  pub update : new.update_token_nonce < u64_mod
  pub remove : new.remove_token_nonce < u64_mod
  pub withdraw : new.withdraw_token_nonce < u64_mod
  pub tokens : AreSized new.acceptable_tokens

NoncesLe-trans : {a b c : CommissionAdmin} → NoncesLe a b → NoncesLe b c → NoncesLe a c
NoncesLe-trans h g = record {
  add = omega (arith, h.add, g.add);
  update = omega (arith, h.update, g.update);
  remove = omega (arith, h.remove, g.remove);
  withdraw = omega (arith, h.withdraw, g.withdraw);
}

module _ (env : Env) (program_id k : Pubkey) (old : CommissionAdmin)
    (laws : RecordLaws env program_id) (law : IsLawful IsSized env.commission_admin)
    (takes : TakesBytes env) where
  abbrev H : Bank → Type 0
  H = Held env program_id k old

  -- The account is as it was.
  pub Held-same :
      (b b' : Bank) → (b' k).owner ≡ (b k).owner → (b' k).data_bytes ≡ (b k).data_bytes → H b → H b'
  Held-same b b' owner bytes h = record {
    used = record { owner = owner ∙ h.used.owner; filled = rw bytes h.used.filled };
    bounded = rw bytes h.bounded;
    admin = h.admin;
    stored = ap env.commission_admin.deserialize bytes ∙ h.stored;
    initialized = h.initialized;
    least = h.least;
  }

  pub Held-invoke :
      (ix : Instruction) (infos : List AccountInfo) (seeds : List (List Bytes))
      → Keeps H (env.invoke_signed ix infos seeds)
  Held-invoke ix infos seeds = record {
    at = λ b b' u e h.
        let kept = laws.owned_kept k ix infos seeds b b' e h.used in Held-same b b' kept.0 kept.1 h;
  }

  -- What was written is read back: it fits the account, so its list of tokens has a 32-bit length.
  pub written_back :
      (info : AccountInfo) (before new : CommissionAdmin) (m b' : Bank)
      → Stored env info new m b'
      → Follows before new
      → length (m info.key).data_bytes ≤ max_permitted_data_length
      → env.commission_admin.deserialize (b' info.key).data_bytes ≡ some new
  written_back info before new m b' stored follows bounded =
      let bytes = env.commission_admin.serialize new in
      let fits : length new.acceptable_tokens < 2 ^ 32 = omega (
        arith,
        takes new,
        length-append bytes stored.rest,
        ap length stored.data_bytes,
        stored.only.size,
        bounded,
      ) in
      ap env.commission_admin.deserialize stored.data_bytes
      ∙ law.round_trip new stored.rest (record {
        tokens = follows.tokens;
        tokens_length = fits;
        add_nonce = follows.add;
        update_nonce = follows.update;
        remove_nonce = follows.remove;
        withdraw_nonce = follows.withdraw;
      })

  -- A write, in the state `m`, of an admin that follows the one that the account held in `b`.
  pub Held-write :
      (info : AccountInfo) (before new : CommissionAdmin) (b m b' : Bank)
      → env.commission_admin.deserialize (b info.key).data_bytes ≡ some before
      → Stored env info new m b'
      → Follows before new
      → H b
      → H m
      → H b'
  Held-write info before new b m b' was stored follows h hm = elim (Bytes-cases k info.key) [
    | inl same ↦
        let here : h.admin ≡ before =
          some-injective h.admin before (
            sym h.stored
            ∙ ap (λ j. env.commission_admin.deserialize (b j).data_bytes) same
            ∙ was) in
        let bounded : length (m info.key).data_bytes ≤ max_permitted_data_length =
          subst (λ (j : Pubkey). length (m j).data_bytes ≤ max_permitted_data_length) same
            hm.bounded in
        let is = written_back info before new m b' stored follows bounded in
        let sizes = ap (λ j. length (b' j).data_bytes) same in
        let sizes' = ap (λ j. length (m j).data_bytes) same in
        record {
          used = record {
            owner =
                ap (λ j. (b' j).owner) same
                ∙ stored.only.owner
                ∙ sym (ap (λ j. (m j).owner) same)
                ∙ hm.used.owner;
            filled = omega (arith, hm.used.filled, stored.only.size, sizes, sizes');
          };
          bounded = omega (arith, hm.bounded, stored.only.size, sizes, sizes');
          admin = new;
          stored = ap (λ j. env.commission_admin.deserialize (b' j).data_bytes) same ∙ is;
          initialized = follows.initialized;
          least =
              NoncesLe-trans (subst (λ (a : CommissionAdmin). NoncesLe old a) here h.least)
                follows.least;
        }
    | inr other ↦
        let kept = stored.only.elsewhere k other in
        Held-same m b' (ap (λ a. a.owner) kept) (ap (λ a. a.data_bytes) kept) hm
  ]
