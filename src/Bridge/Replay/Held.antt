-- ===== src/Bridge/Replay/Held.antt =====
-- A bridge admin, and what calls, moves of lamports and writes to other accounts keep of it.
use solana_bridge_program.Common.{
  ℕ, ◌+◌, ◌-◌, ◌≡◌, ◌≢◌, refl, true, some, [], length, arith, ap, ◌∙◌, Bytes-cases, inl, inr,
}
use solana_bridge_program.Runtime.{Pubkey, AccountInfo, Account, Bank, ok, set_account, checked_add}
use solana_bridge_program.Runtime.Store.{set_account_self, set_account_ne, write_data-ok}
use solana_bridge_program.Runtime.Laws.{RecordLaws, IsUsed}
use solana_bridge_program.Env.{Env}
use solana_bridge_program.Bridge.State.{BridgeAdmin}
use solana_bridge_program.Bridge.Withdraw.{sub_lamports, add_lamports}
use solana_bridge_program.Bridge.Kept.Calls.{IsKept, IsWritable}

-- The account belongs to the program and holds an initialised admin with the commission program.
pub record Held (env : Env) (program_id k commission_program : Pubkey) (b : Bank) : Type 0 where
  pub used : IsUsed program_id k b
  pub admin : BridgeAdmin
  pub stored : env.bridge_admin.deserialize (b k).data_bytes ≡ some admin
  pub initialized : admin.is_initialized ≡ true
  pub same_program : admin.commission_program ≡ commission_program

-- The owner and the data of an account are as before.
abbrev pub IsQuiet : Pubkey → Bank → Bank → Type 0
IsQuiet k b b' = ((b' k).owner ≡ (b k).owner) × ((b' k).data_bytes ≡ (b k).data_bytes)

set_lamports-IsQuiet :
    (k j : Pubkey) (n : ℕ) (b b' : Bank)
    → b' ≡ set_account j (record (b j) { lamports = n }) b
    → IsQuiet k b b'
set_lamports-IsQuiet k j n b b' e =
    let new : Account = record (b j) { lamports = n } in
    elim (Bytes-cases k j) [
      | inl same ↦ (
        (rw (e, same, set_account_self j new b) refl),
        (rw (e, same, set_account_self j new b) refl),
      )
      | inr other ↦ (
        (rw (e, set_account_ne j k new b other) refl),
        (rw (e, set_account_ne j k new b other) refl),
      )
    ]

sub_lamports-IsQuiet :
    (k : Pubkey) (info : AccountInfo) (n : ℕ) (b b' : Bank)
    → sub_lamports info n b ≡ ok (tt, b')
    → IsQuiet k b b'
unfolding sub_lamports
sub_lamports-IsQuiet k info n b b' e =
    set_lamports-IsQuiet k info.key ((b info.key).lamports - n) b b' (ground arith)

add_lamports-IsQuiet :
    (k : Pubkey) (info : AccountInfo) (n : ℕ) (b b' : Bank)
    → add_lamports info n b ≡ ok (tt, b')
    → IsQuiet k b b'
unfolding add_lamports checked_add
add_lamports-IsQuiet k info n b b' e =
    set_lamports-IsQuiet k info.key ((b info.key).lamports + n) b b' (ground arith)

module _ (env : Env) (program_id k commission_program : Pubkey)
    (laws : RecordLaws env program_id) where
  abbrev H : Bank → Type 0
  H = Held env program_id k commission_program

  pub Held-quiet : (b b' : Bank) → IsQuiet k b b' → H b → H b'
  Held-quiet b b' same h = record {
    used = record { owner = same.0 ∙ h.used.owner; filled = rw (same.1) h.used.filled };
    admin = h.admin;
    stored = ap env.bridge_admin.deserialize (same.1) ∙ h.stored;
    initialized = h.initialized;
    same_program = h.same_program;
  }

  pub Held-IsKept : IsKept env H
  Held-IsKept = record {
    invoked = λ ix infos seeds. record {
      at = λ b b' u e h. Held-quiet b b' (laws.owned_kept k ix infos seeds b b' e h.used) h;
    };
    taken = λ info n. record {
      at = λ b b' u e. Held-quiet b b' (sub_lamports-IsQuiet k info n b b' e);
    };
    given = λ info n. record {
      at = λ b b' u e. Held-quiet b b' (add_lamports-IsQuiet k info n b b' e);
    };
  }

  -- A write to another account.
  pub elsewhere-IsWritable : (info : AccountInfo) → k ≢ info.key → IsWritable H info
  elsewhere-IsWritable info other bytes = record {
    at = λ b b' u e.
        let (_, _, only) = write_data-ok info bytes {b = b} e in
        let kept = only.elsewhere k other in
        Held-quiet b b' (ap (λ a. a.owner) kept, ap (λ a. a.data_bytes) kept);
  }

  -- An account without data is another one.
  pub fresh-ne : (j : Pubkey) (b : Bank) → H b → (b j).data_bytes ≡ [] → k ≢ j
  fresh-ne j b h fresh same =
      absurd (omega (arith, h.used.filled, ap (λ i. length (b i).data_bytes) same, ap length fresh))
