-- ===== src/Bridge/Withdraw/Lamports.antt =====
-- The move of lamports in a native withdrawal.
use solana_bridge_program.Common.{ℕ, ◌+◌, ◌-◌, ◌≤◌, ◌≡◌, ◌≢◌, arith, ◌∙◌, ap, sym}
use solana_bridge_program.Runtime.{Bank, Account, AccountInfo, Pubkey, ok, checked_add, set_account}
use solana_bridge_program.Runtime.Store.{
  set_account_self, set_account_ne, OnlyData, OnlyData-lamports,
}
use solana_bridge_program.Bridge.Withdraw.{sub_lamports, add_lamports}

-- From `b` to `b'` an amount of lamports went from one account to another, and no other moved.
pub record Paid (from to : Pubkey) (amount : ℕ) (b b' : Bank) : Type 0 where
  pub debit : (b' from).lamports + amount ≡ (b from).lamports
  pub credit : (b' to).lamports ≡ (b to).lamports + amount
  pub elsewhere : (j : Pubkey) → j ≢ from → j ≢ to → (b' j).lamports ≡ (b j).lamports

sub_lamports-ok :
    (info : AccountInfo) (n : ℕ) (b b' : Bank)
    → sub_lamports info n b ≡ ok (tt, b')
    → (n ≤ (b info.key).lamports)
      × (b' ≡ set_account info.key (record (b info.key) { lamports = (b info.key).lamports - n }) b)
unfolding sub_lamports
sub_lamports-ok info n b b' e = ground arith

add_lamports-ok :
    (info : AccountInfo) (n : ℕ) (b b' : Bank)
    → add_lamports info n b ≡ ok (tt, b')
    → b' ≡ set_account info.key (record (b info.key) { lamports = (b info.key).lamports + n }) b
unfolding add_lamports checked_add
add_lamports-ok info n b b' e = ground arith

pub move_lamports :
    (from to : AccountInfo) (n : ℕ) (b b1 b' : Bank)
    → from.key ≢ to.key
    → sub_lamports from n b ≡ ok (tt, b1)
    → add_lamports to n b1 ≡ ok (tt, b')
    → Paid from.key to.key n b b'
move_lamports from to n b b1 b' ne e f =
    let x : Account = record (b from.key) { lamports = (b from.key).lamports - n } in
    let y : Account = record (b1 to.key) { lamports = (b1 to.key).lamports + n } in
    let (room, e') = sub_lamports-ok from n b b1 e in
    let f' = add_lamports-ok to n b1 b' f in
    let at_from : b' from.key ≡ x =
      ap (λ (c : Bank). c from.key) f'
      ∙ set_account_ne to.key from.key y b1 ne
      ∙ ap (λ (c : Bank). c from.key) e'
      ∙ set_account_self from.key x b in
    let at_to : b' to.key ≡ y = ap (λ (c : Bank). c to.key) f' ∙ set_account_self to.key y b1 in
    let before : b1 to.key ≡ b to.key =
      ap (λ (c : Bank). c to.key) e' ∙ set_account_ne from.key to.key x b (λ q. ne (sym q)) in
    record {
      debit = omega (arith, ap (λ (a : Account). a.lamports) at_from);
      credit =
          omega (
            arith,
            ap (λ (a : Account). a.lamports) at_to,
            ap (λ (a : Account). a.lamports) before,
          );
      elsewhere = λ j jf jt.
          ap (λ (c : Bank). (c j).lamports) f'
          ∙ ap (λ (a : Account). a.lamports) (set_account_ne to.key j y b1 jt)
          ∙ ap (λ (c : Bank). (c j).lamports) e'
          ∙ ap (λ (a : Account). a.lamports) (set_account_ne from.key j x b jf);
    }

pub Paid-OnlyData :
    {from to k : Pubkey} {n : ℕ} {b b1 b' : Bank}
    → Paid from to n b b1
    → OnlyData k b1 b'
    → Paid from to n b b'
Paid-OnlyData {from} {to} {k} p only = record {
  debit = omega (arith, p.debit, OnlyData-lamports k only from);
  credit = omega (arith, p.credit, OnlyData-lamports k only to);
  elsewhere = λ j jf jt. OnlyData-lamports k only j ∙ p.elsewhere j jf jt;
}
