-- ===== src/Bridge/Replay/Admin.antt =====
-- A bridge admin stays initialised and keeps its commission program.
use solana_bridge_program.Common.{
  ℕ, ◌≡◌, ◌≢◌, Option, List, [], ◌∷◌, Bytes, length, arith, ap, sym, ◌∙◌, Bytes-cases, inl, inr,
}
use mathlib.Core.Option.{some-injective}
use solana_bridge_program.Runtime.{
  Pubkey, AccountInfo, Bank, M, ok, bind-ok, ◌>>=◌, next_account_info,
}
use solana_bridge_program.Runtime.Laws.{RecordLaws}
use solana_bridge_program.Runtime.Keeps.{Keeps}
use solana_bridge_program.Env.{Env, IsLawful}
use solana_bridge_program.Shared.Calls.{call_create_account}
use solana_bridge_program.Shared.Calls.Created.{call_create_account-ok, call_create_account_fresh}
use solana_bridge_program.Shared.Instructions.Bridge.{SignedMetadata}
use solana_bridge_program.Bridge.State.{BridgeAdmin}
use solana_bridge_program.Bridge.Admin.{process_init_admin, process_transfer_ownership}
use solana_bridge_program.Bridge.Admin.Ownership.{IsSized, transfer_ownership_sound}
use solana_bridge_program.Bridge.Record.{create_withdraw_account}
use solana_bridge_program.Bridge.Withdraw.{
  process_withdraw_native, process_withdraw_ft, process_withdraw_nft,
}
use solana_bridge_program.Bridge.Kept.Calls.{IsKept}
use solana_bridge_program.Bridge.Kept.Handlers.{handler_keeps}
use solana_bridge_program.Bridge.Kept.Parts.{create_withdraw-Keeps}
use solana_bridge_program.Bridge.Replay.Used.{created}
use solana_bridge_program.Bridge.Replay.Held.{
  Held, Held-quiet, Held-IsKept, elsewhere-IsWritable, fresh-ne,
}

module _ (env : Env) (program_id k commission_program : Pubkey)
    (laws : RecordLaws env program_id) where
  abbrev H : Bank → Type 0
  H = Held env program_id k commission_program

  abbrev kept : IsKept env H
  kept = Held-IsKept env program_id k commission_program laws

  -- After the creation of an account, that account is another one.
  then_create-Keeps :
      {A : Type 0} (p i r s : AccountInfo) (space : ℕ) (owner : Pubkey) (seed : Bytes)
      (seeds : List Bytes) (f : Unit {0} → M A)
      → (k ≢ i.key → (u : Unit {0}) → Keeps H (f u))
      → Keeps H (call_create_account env p i r s space owner (seed ∷ seeds) >>= f)
  then_create-Keeps p i r s space owner seed seeds f rest = record {
    at = λ b b' a e h.
        let create = call_create_account env p i r s space owner (seed ∷ seeds) in
        let (u, b1, e1, f1) = bind-ok create f e in
        let (lamports, run) = call_create_account-ok env p i r s space owner seed seeds b b1 e1 in
        let fresh =
          call_create_account_fresh env p i r s space owner seed seeds b b1 program_id laws e1 in
        (rest (fresh-ne env program_id k commission_program laws i.key b h fresh) u).at b1 b' a f1
          ((kept.invoked _ _ _).at b b1 tt run h);
  }

  then_withdraw-Keeps :
      {A : Type 0} (origin : Bytes) (o w r s : AccountInfo) (f : Unit {0} → M A)
      → (k ≢ w.key → (u : Unit {0}) → Keeps H (f u))
      → Keeps H (create_withdraw_account env program_id origin o w r s >>= f)
  then_withdraw-Keeps origin o w r s f rest = record {
    at = λ b b' a e h.
        let (u, b1, e1, f1) = bind-ok (create_withdraw_account env program_id origin o w r s) f e in
        let (_, fresh, _, _) = created env program_id laws origin o w r s b b1 e1 in
        (rest (fresh-ne env program_id k commission_program laws w.key b h fresh) u).at b1 b' a f1
          ((create_withdraw-Keeps kept program_id origin o w r s).at b b1 u e1 h);
  }

  ruleset admin_keeps =
      (handler_keeps, then_create-Keeps, then_withdraw-Keeps, elsewhere-IsWritable, Held-IsKept)

  pub init_admin-Keeps :
      (infos : List AccountInfo) (s key : Bytes) (c : Pubkey)
      → Keeps H (process_init_admin env program_id infos s key c)
  unfolding process_init_admin
  init_admin-Keeps infos s key c = search admin_keeps depth 40

  pub withdraw_native-Keeps :
      (infos : List AccountInfo) (s g : Bytes) (n : ℕ) (p : List Bytes) (o : Bytes) (m : ℕ)
      → Keeps H (process_withdraw_native env program_id infos s g n p o m)
  unfolding process_withdraw_native
  withdraw_native-Keeps infos s g n p o m = search (admin_keeps, kept.taken, kept.given) depth 50

  pub withdraw_ft-Keeps :
      (infos : List AccountInfo) (s g : Bytes) (n : ℕ) (p : List Bytes) (o : Bytes) (m : ℕ)
      (t : Option Bytes) (d : Option SignedMetadata)
      → Keeps H (process_withdraw_ft env program_id infos s g n p o m t d)
  unfolding process_withdraw_ft
  withdraw_ft-Keeps infos s g n p o m t d = search admin_keeps depth 60

  pub withdraw_nft-Keeps :
      (infos : List AccountInfo) (s g : Bytes) (n : ℕ) (p : List Bytes) (o : Bytes)
      (t : Option Bytes) (d : Option SignedMetadata)
      → Keeps H (process_withdraw_nft env program_id infos s g n p o t d)
  unfolding process_withdraw_nft
  withdraw_nft-Keeps infos s g n p o t d = search admin_keeps depth 60

  -- The account that is signed over keeps its commission program and its initialisation.
  pub transfer_ownership-Held :
      (infos : List AccountInfo) (seeds key signature : Bytes) (recovery_id : ℕ) (b b' : Bank)
      → IsLawful IsSized env.bridge_admin
      → length key ≡ 64
      → process_transfer_ownership env program_id infos seeds key signature recovery_id b
        ≡ ok (tt, b')
      → H b
      → H b'
  unfolding process_transfer_ownership next_account_info
  transfer_ownership-Held (i ∷ rest) seeds key signature recovery_id b b' law size e h =
      let (admin, opened, _, is, only) =
        transfer_ownership_sound env program_id i rest seeds key signature recovery_id b b' law size
          e in
      elim (Bytes-cases k i.key) [
        | inl same ↦
            let here : h.admin ≡ admin = some-injective h.admin admin (
              sym h.stored
              ∙ ap (λ j. env.bridge_admin.deserialize (b j).data_bytes) same
              ∙ opened.stored) in
            record {
              used = record {
                owner =
                    ap (λ j. (b' j).owner) same
                    ∙ only.owner
                    ∙ sym (ap (λ j. (b j).owner) same)
                    ∙ h.used.owner;
                filled = omega (
                  arith,
                  h.used.filled,
                  only.size,
                  ap (λ j. length (b' j).data_bytes) same,
                  ap (λ j. length (b j).data_bytes) same,
                );
              };
              admin = record admin { public_key = key };
              stored = ap (λ j. env.bridge_admin.deserialize (b' j).data_bytes) same ∙ is;
              initialized = opened.initialized;
              same_program =
                  sym (ap (λ (a : BridgeAdmin). a.commission_program) here) ∙ h.same_program;
            }
        | inr other ↦
            let kept = only.elsewhere k other in
            Held-quiet env program_id k commission_program laws b b'
              (ap (λ a. a.owner) kept, ap (λ a. a.data_bytes) kept) h
      ]
  transfer_ownership-Held [] seeds key signature recovery_id b b' law size e h = cc
