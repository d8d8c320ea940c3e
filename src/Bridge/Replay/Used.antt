-- ===== src/Bridge/Replay/Used.antt =====
-- The account that records a withdrawal is in use once the withdrawal is made.
use solana_bridge_program.Common.{
  ℕ, ◌+◌, ◌≡◌, refl, Option, List, [], ◌∷◌, Bytes, arith, length, replicate, length-replicate, ap,
  ◌-◌, bytes_eq→≡, bytes_eq, subst, ◌∙◌,
}
use solana_bridge_program.Runtime.{
  Bank, AccountInfo, Pubkey, ok, bind-ok, read, require, require-ok, read-ok, checked_add,
}
use solana_bridge_program.Runtime.Store.{SameShape, SameShape-set, write_data-SameShape}
use solana_bridge_program.Runtime.Laws.{RecordLaws, IsUsed}
use solana_bridge_program.Runtime.Keeps.{Once, Once-first, Once-second}
use solana_bridge_program.Env.{Env}
use solana_bridge_program.Shared.Error.{wrong_nonce}
use solana_bridge_program.Shared.Calls.{call_create_account}
use solana_bridge_program.Shared.Instructions.Bridge.{SignedMetadata}
use solana_bridge_program.Bridge.State.{withdraw_size}
use solana_bridge_program.Bridge.Record.{create_withdraw_account}
use solana_bridge_program.Bridge.Withdraw.{
  sub_lamports, add_lamports, process_withdraw_native, process_withdraw_ft, process_withdraw_nft,
}
use solana_bridge_program.Bridge.Kept.Calls.{IsKept, IsWritable}
use solana_bridge_program.Bridge.Kept.Handlers.{handler_keeps}

IsUsed-SameShape :
    (program_id k : Pubkey) {b b' : Bank}
    → SameShape b b'
    → IsUsed program_id k b
    → IsUsed program_id k b'
IsUsed-SameShape program_id k s u = record {
  owner = rw (s.owner k) u.owner;
  filled = rw (s.size k) u.filled;
}

sub_lamports-SameShape :
    (info : AccountInfo) (n : ℕ) {b b' : Bank}
    → sub_lamports info n b ≡ ok (tt, b')
    → SameShape b b'
unfolding sub_lamports
sub_lamports-SameShape info n {b} {b'} e =
    SameShape-set info.key (record (b info.key) { lamports = (b info.key).lamports - n }) b b'
      (ground arith) refl refl

add_lamports-SameShape :
    (info : AccountInfo) (n : ℕ) {b b' : Bank}
    → add_lamports info n b ≡ ok (tt, b')
    → SameShape b b'
unfolding add_lamports checked_add
add_lamports-SameShape info n {b} {b'} e =
    SameShape-set info.key (record (b info.key) { lamports = (b info.key).lamports + n }) b b'
      (ground arith) refl refl

-- Where a withdrawal of the origin is recorded.
abbrev pub record_address : Env → Pubkey → Bytes → Pubkey
record_address env program_id origin = (env.find_program_address (origin ∷ []) program_id).0

module _ (env : Env) (program_id : Pubkey) (laws : RecordLaws env program_id) where
  pub IsUsed-kept : (k : Pubkey) → IsKept env (IsUsed program_id k)
  IsUsed-kept k = record {
    invoked = λ ix infos seeds. record {
      at = λ b b' u e h.
          let kept = laws.owned_kept k ix infos seeds b b' e h in
          record { owner = rw kept.0 h.owner; filled = rw kept.1 h.filled };
    };
    taken = λ info n. record {
      at = λ b b' u e. IsUsed-SameShape program_id k (sub_lamports-SameShape info n e);
    };
    given = λ info n. record {
      at = λ b b' u e. IsUsed-SameShape program_id k (add_lamports-SameShape info n e);
    };
  }

  pub written-IsUsed : (k : Pubkey) (info : AccountInfo) → IsWritable (IsUsed program_id k) info
  written-IsUsed k info bytes = record {
    at = λ b b' u e. IsUsed-SameShape program_id k (write_data-SameShape info bytes e);
  }

  pub created :
      (origin : Bytes) (owner info rent system : AccountInfo) (b b' : Bank)
      → create_withdraw_account env program_id origin owner info rent system b ≡ ok (tt, b')
      → (record_address env program_id origin ≡ info.key)
        × ((b info.key).data_bytes ≡ [])
        × ((b' info.key).owner ≡ program_id)
        × ((b' info.key).data_bytes ≡ replicate (withdraw_size env.size_of_token_type) 0)
  unfolding create_withdraw_account call_create_account
  created origin owner info rent system b b' e =
      let test = bytes_eq (record_address env program_id origin) info.key in
      let size = withdraw_size env.size_of_token_type in
      let (_, b1, e1, f1) = bind-ok (require test wrong_nonce) _ e in
      let checked = require-ok test wrong_nonce e1 in
      let (minimum, b2, e2, f2) = bind-ok (read (env.rent_minimum_balance rent size)) _ f1 in
      let unread = read-ok (env.rent_minimum_balance rent size) e2 in
      let b2-b : b2 ≡ b = unread.1 ∙ checked.1 in
      let call =
        subst
          (λ (c : Bank).
            env.invoke_signed (env.system_create_account owner.key info.key minimum size program_id)
              (owner ∷ info ∷ system ∷ [])
              ((origin ∷ ((env.find_program_address (origin ∷ []) program_id).1 ∷ []) ∷ []) ∷ []) c
            ≡ ok (tt, b'))
          b2-b f2 in
      let fresh = laws.create_fresh owner.key info.key program_id minimum size _ _ b b' call in
      let done = laws.create_done owner.key info.key program_id minimum size _ _ b b' call in
      (bytes_eq→≡ _ _ checked.0, fresh, done.0, done.1)

  create_withdraw_account-Once :
      (origin : Bytes) (owner info rent system : AccountInfo)
      → Once
          (IsUsed program_id (record_address env program_id origin))
          (create_withdraw_account env program_id origin owner info rent system)
  create_withdraw_account-Once origin owner info rent system = record {
    fresh = λ b b' u e h.
        let (same, fresh, _, _) = created origin owner info rent system b b' e in
        absurd (omega (arith, h.filled, ap (λ k. length (b k).data_bytes) same, ap length fresh));
    used = λ b b' u e.
        let (same, _, owner', filled) = created origin owner info rent system b b' e in
        record {
          owner = rw same owner';
          filled =
              rw (same, filled, length-replicate {A = ℕ} (withdraw_size env.size_of_token_type) 0)
                (omega arith);
        };
  }

  ruleset once_rules = (handler_keeps, Once-first, Once-second, create_withdraw_account-Once)

  pub withdraw_native-Once :
      (infos : List AccountInfo) (s g : Bytes) (n : ℕ) (p : List Bytes) (o : Bytes) (m : ℕ)
      → Once
          (IsUsed program_id (record_address env program_id o))
          (process_withdraw_native env program_id infos s g n p o m)
  unfolding process_withdraw_native
  withdraw_native-Once infos s g n p o m =
      let kept = IsUsed-kept (record_address env program_id o) in
      let written = written-IsUsed (record_address env program_id o) in
      search (once_rules, written, kept.taken, kept.given) depth 50

  pub withdraw_ft-Once :
      (infos : List AccountInfo) (s g : Bytes) (n : ℕ) (p : List Bytes) (o : Bytes) (m : ℕ)
      (t : Option Bytes) (d : Option SignedMetadata)
      → Once
          (IsUsed program_id (record_address env program_id o))
          (process_withdraw_ft env program_id infos s g n p o m t d)
  unfolding process_withdraw_ft
  withdraw_ft-Once infos s g n p o m t d =
      let kept = IsUsed-kept (record_address env program_id o) in
      let written = written-IsUsed (record_address env program_id o) in
      search (once_rules, written) depth 60

  pub withdraw_nft-Once :
      (infos : List AccountInfo) (s g : Bytes) (n : ℕ) (p : List Bytes) (o : Bytes)
      (t : Option Bytes) (d : Option SignedMetadata)
      → Once
          (IsUsed program_id (record_address env program_id o))
          (process_withdraw_nft env program_id infos s g n p o t d)
  unfolding process_withdraw_nft
  withdraw_nft-Once infos s g n p o t d =
      let kept = IsUsed-kept (record_address env program_id o) in
      let written = written-IsUsed (record_address env program_id o) in
      search (once_rules, written) depth 60
