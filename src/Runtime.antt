-- ===== src/Runtime.antt =====
-- What a program sees of the Solana runtime: the accounts, the account handles of one instruction,
-- the results and the errors, and the actions that read and write accounts or fail. A failing
-- instruction leaves no trace, since the runtime discards the transaction, so an error carries no
-- accounts.
pub mod Store
pub mod Laws
pub mod History
pub mod Keeps
use solana_bridge_program.Common.{
  ℕ, ◌+◌, ◌<◌, ◌≡◌, refl, ap, arith, Bool, true, false, Option, none, some, List, [], ◌∷◌, ◌++◌,
  ◌^◌, Bytes, length, drop, bytes_eq, ltb, if◌then◌else◌,
}
use solana_bridge_program.Shared.Error.{LibError, to_u32}

abbrev pub Pubkey : Type 0
Pubkey = Bytes

pub record Account : Type 0 where
  pub lamports : ℕ
  pub data_bytes : Bytes
  pub owner : Pubkey

-- Two handles with one key share the account, as the runtime's `Rc<RefCell<…>>` does.
pub record AccountInfo : Type 0 where
  pub key : Pubkey
  pub is_signer : Bool
  pub is_writable : Bool

pub record AccountMeta : Type 0 where
  pub pubkey : Pubkey
  pub is_signer : Bool
  pub is_writable : Bool

pub record Instruction : Type 0 where
  pub program_id : Pubkey
  pub accounts : List AccountMeta
  pub data_bytes : Bytes

-- `external` stands for the errors that come from other crates, `panicked` for an aborted program.
pub data ProgramError : Type 0 where
  custom external : ℕ → ProgramError
  not_enough_account_keys borsh_io_error panicked : ProgramError

-- `From<LibError> for ProgramError`
unfoldable pub into : LibError → ProgramError
unfolding to_u32
into e = custom (to_u32 e)

pub data Result {ℓ} (A : Type ℓ) : Type ℓ where
  ok : A → Result A
  err : ProgramError → Result A

abbrev pub Bank : Type 0
Bank = Pubkey → Account

abbrev pub M : Type 0 → Type 0
M A = Bank → Result (A × Bank)

abbrev pub pure : {A : Type 0} → A → M A
pure a b = ok (a, b)

abbrev pub fail : {A : Type 0} → LibError → M A
fail e b = err (into e)

abbrev pub abort : {A : Type 0} → ProgramError → M A
abort e b = err e

abbrev pub lift : {A : Type 0} → Result A → M A
lift r b = elim r [ ok a ↦ ok (a, b) | err e ↦ err e ]

-- A call that reads the accounts.
abbrev pub read : {A : Type 0} → (Bank → Result A) → M A
read f b = elim (f b) [ ok a ↦ ok (a, b) | err e ↦ err e ]

infixl 5 ◌>>=◌ ◌>>◌
abbrev pub ◌>>=◌ : {A B : Type 0} → M A → (A → M B) → M B
◌>>=◌ m f b = elim (m b) [ ok (a, b') ↦ f a b' | err e ↦ err e ]

abbrev pub ◌>>◌ : {B : Type 0} → M (Unit {0}) → M B → M B
m >> k = m >>= λ _. k

-- `if !test { return Err(e.into()) }`
abbrev pub require : Bool → LibError → M (Unit {0})
require true e = pure tt
require false e = fail e

abbrev pub from_option : {A : Type 0} → Option A → ProgramError → M A
from_option (some a) e = pure a
from_option none e = abort e

abbrev pub when : Bool → M (Unit {0}) → M (Unit {0})
when true m = m
when false m = pure tt

unfoldable pub next_account_info : List AccountInfo → M (AccountInfo × List AccountInfo)
next_account_info [] = abort not_enough_account_keys
next_account_info (a ∷ rest) = pure (a, rest)

abbrev pub account : AccountInfo → M Account
account a b = ok (b a.key, b)

abbrev pub set_account : Pubkey → Account → Bank → Bank
set_account k a b = λ j. if bytes_eq k j then a else b j

-- `value.serialize(&mut *info.data.borrow_mut())`: the bytes go to the front of the buffer, what
-- stands behind them stays, and a buffer that is too short is an error.
unfoldable pub write_data : AccountInfo → Bytes → M (Unit {0})
write_data a bytes b =
    let old = (b a.key).data_bytes in
    if ltb (length old) (length bytes)
    then err borsh_io_error
    else ok (
      tt,
      set_account a.key (record (b a.key) { data_bytes = bytes ++ drop (length bytes) old }) b,
    )

abbrev pub u64_mod : ℕ
u64_mod = 2 ^ 64

-- `x + y` on u64 under `overflow-checks = true`.
unfoldable pub checked_add : ℕ → ℕ → M ℕ
checked_add x y = if ltb (x + y) u64_mod then pure (x + y) else abort panicked

-- A chain that succeeds: its first action did, and the rest went on from there.
pub bind-ok :
    {A B : Type 0} (m : M A) (f : A → M B) {b : Bank} {r : B × Bank}
    → (m >>= f) b ≡ ok r
    → (a : A) × (b' : Bank) × (m b ≡ ok (a, b')) × (f a b' ≡ ok r)
bind-ok {A} m f {b} {r} e = split (m b) refl e
  where
    split :
        (o : Result (A × Bank))
        → m b ≡ o
        → (elim o [ ok (a, b') ↦ f a b' | err x ↦ err x ]) ≡ ok r
        → (a : A) × (b' : Bank) × (m b ≡ ok (a, b')) × (f a b' ≡ ok r)
    split (ok (a, b')) q p = (a, b', q, p)
    split (err x) q p = cc

-- A chain whose first action succeeds goes on from there.
pub bind-step :
    {A B : Type 0} (m : M A) (f : A → M B) {b b' : Bank} {a : A}
    → m b ≡ ok (a, b')
    → (m >>= f) b ≡ f a b'
bind-step m f e = ap (λ o. elim o [ ok (a, b') ↦ f a b' | err e ↦ err e ]) e

pub require-ok :
    (test : Bool) (e : LibError) {b : Bank} {r : Unit {0} × Bank}
    → require test e b ≡ ok r
    → (test ≡ true) × (r.1 ≡ b)
require-ok true e h = (refl, ground arith)
require-ok false e h = cc

pub lift-ok :
    {A : Type 0} (o : Result A) {b : Bank} {r : A × Bank}
    → lift o b ≡ ok r
    → (o ≡ ok r.0) × (r.1 ≡ b)
lift-ok (ok a) h = (ground arith, ground arith)
lift-ok (err e) h = cc

pub from_option-ok :
    {A : Type 0} (o : Option A) (e : ProgramError) {b : Bank} {r : A × Bank}
    → from_option o e b ≡ ok r
    → (o ≡ some r.0) × (r.1 ≡ b)
from_option-ok (some a) e h = (ground arith, ground arith)
from_option-ok none e h = cc

pub read-ok :
    {A : Type 0} (f : Bank → Result A) {b : Bank} {r : A × Bank}
    → read f b ≡ ok r
    → (f b ≡ ok r.0) × (r.1 ≡ b)
read-ok f {b} e = lift-ok (f b) e

pub checked_add-ok :
    (x y : ℕ) {b : Bank} {r : ℕ × Bank}
    → checked_add x y b ≡ ok r
    → (r.0 ≡ x + y) × (x + y < u64_mod) × (r.1 ≡ b)
unfolding checked_add
checked_add-ok x y e = ground arith
