-- ===== src/Tests/Accounts.antt =====
-- Codecs of the bridge's and the upgrade program's accounts, and the proofs that they are lawful.
use mathlib.Core.Option.{some-injective}
use solana_bridge_program.Common.{
  ℕ, zero, suc, ◌≡◌, refl, ap, Option, none, some, [], ◌∷◌, ◌++◌, Bytes, length, replicate, arith,
  append_assoc, Option-cases, inl, inr, ◌∙◌, sym,
}
use solana_bridge_program.Runtime.{Pubkey}
use solana_bridge_program.Shared.Types.{TokenType}
use solana_bridge_program.Env.{Borsh, IsLawful}
use solana_bridge_program.Bridge.State.{BridgeAdmin, Withdraw}
use solana_bridge_program.Bridge.Admin.Ownership
use solana_bridge_program.Bridge.Withdraw.Signed
use solana_bridge_program.Upgrade.State.{UpgradeAdmin}
use solana_bridge_program.Upgrade.Handlers.Upgraded
use solana_bridge_program.Tests.Codecs.{
  Raw, chunk, write_raw, read_raw, read_raw-write_raw, read_raw-AreSized, chunk-append, chunk-size,
}

abbrev as_bridge_admin : Option Raw → Option BridgeAdmin
as_bridge_admin none = none
as_bridge_admin (some (flag, n, a, c)) =
    some (record { public_key = a; commission_program = c; is_initialized = flag })

abbrev pub bridge_admin_codec : Borsh BridgeAdmin
bridge_admin_codec = record {
  serialize = λ x. write_raw (x.is_initialized, 0, x.public_key, x.commission_program);
  deserialize = λ bytes. as_bridge_admin (read_raw 64 32 bytes);
  try_from_slice = λ bytes. as_bridge_admin (read_raw 64 32 bytes);
}

pub bridge_admin_codec-IsLawful : IsLawful Ownership.IsSized bridge_admin_codec
bridge_admin_codec-IsLawful = record {
  round_trip = λ x rest h. ap as_bridge_admin (
      read_raw-write_raw 64 32 x.is_initialized 0 x.public_key x.commission_program rest h.0 h.1
        (omega arith));
  sized = λ bytes x e. elim (Option-cases (read_raw 64 32 bytes)) [
    | inl p ↦ absurd (none-some (sym (ap as_bridge_admin p) ∙ e))
    | inr ((flag, n, a, c), p) ↦
        let h = read_raw-AreSized 64 32 bytes flag n a c p in
        let is = some-injective _ x (sym (ap as_bridge_admin p) ∙ e) in rw (← is) (h.0, h.1)
  ];
}
  where
    none-some : {x : BridgeAdmin} → none ≡ some x → ⊥
    none-some e = cc

abbrev as_upgrade_admin : Option Raw → Option UpgradeAdmin
as_upgrade_admin none = none
as_upgrade_admin (some (flag, n, a, c)) =
    some (record { public_key = a; contract = c; nonce = n; is_initialized = flag })

abbrev pub upgrade_admin_codec : Borsh UpgradeAdmin
upgrade_admin_codec = record {
  serialize = λ x. write_raw (x.is_initialized, x.nonce, x.public_key, x.contract);
  deserialize = λ bytes. as_upgrade_admin (read_raw 64 32 bytes);
  try_from_slice = λ bytes. as_upgrade_admin (read_raw 64 32 bytes);
}

pub upgrade_admin_codec-IsLawful : IsLawful Upgraded.IsSized upgrade_admin_codec
upgrade_admin_codec-IsLawful = record {
  round_trip = λ x rest h.
      ap as_upgrade_admin (
        read_raw-write_raw 64 32 x.is_initialized x.nonce x.public_key x.contract rest h.0 h.1 h.2);
  sized = λ bytes x e. elim (Option-cases (read_raw 64 32 bytes)) [
    | inl p ↦ absurd (none-some (sym (ap as_upgrade_admin p) ∙ e))
    | inr ((flag, n, a, c), p) ↦
        let h = read_raw-AreSized 64 32 bytes flag n a c p in
        let is = some-injective _ x (sym (ap as_upgrade_admin p) ∙ e) in rw (← is) (h.0, h.1, h.2)
  ];
}
  where
    none-some : {x : UpgradeAdmin} → none ≡ some x → ⊥
    none-some e = cc

abbrev type_byte : TokenType → ℕ
type_byte TokenType.native = 0
type_byte TokenType.ft = 1
type_byte TokenType.nft = 2

abbrev pub byte_type : ℕ → TokenType
byte_type (suc zero) = TokenType.ft
byte_type (suc (suc zero)) = TokenType.nft
byte_type _ = TokenType.native

byte_type-type_byte : (t : TokenType) → byte_type (type_byte t) ≡ t
byte_type-type_byte TokenType.native = refl
byte_type-type_byte TokenType.ft = refl
byte_type-type_byte TokenType.nft = refl

-- The mint, with a cell that says whether it is there, in 33 cells.
abbrev write_mint : Option Pubkey → Bytes → Bytes
write_mint none rest = 0 ∷ (replicate 32 0 ++ rest)
write_mint (some k) rest = 1 ∷ (k ++ rest)

abbrev as_withdraw : ℕ → Option Pubkey → Option Raw → Option Withdraw
as_withdraw t mint none = none
as_withdraw t mint (some (flag, n, a, c)) = some (record {
  token_type = byte_type t;
  mint = mint;
  amount = n;
  origin = a;
  receiver_address = c;
  is_initialized = flag;
})

abbrev mint_of : ℕ → Bytes → Option Pubkey
mint_of zero k = none
mint_of _ k = some k

abbrev read_mint : ℕ → ℕ → Option (Bytes × Bytes) → Option Withdraw
read_mint t m none = none
read_mint t m (some (k, rest)) = as_withdraw t (mint_of m k) (read_raw 32 32 rest)

abbrev read_withdraw : Bytes → Option Withdraw
read_withdraw [] = none
read_withdraw (t ∷ []) = none
read_withdraw (t ∷ m ∷ bytes) = read_mint t m (chunk 32 bytes)

abbrev write_withdraw : Withdraw → Bytes
write_withdraw x =
    type_byte x.token_type
    ∷ write_mint x.mint (write_raw (x.is_initialized, x.amount, x.origin, x.receiver_address))

abbrev pub withdraw_codec : Borsh Withdraw
withdraw_codec = record {
  serialize = write_withdraw;
  deserialize = read_withdraw;
  try_from_slice = read_withdraw;
}

write_mint-append :
    (mint : Option Pubkey) (x rest : Bytes)
    → write_mint mint x ++ rest ≡ write_mint mint (x ++ rest)
write_mint-append none x rest = refl
write_mint-append (some k) x rest = ap (◌∷◌ 1) (append_assoc k x rest)

read_write_mint :
    (t : ℕ) (mint : Option Pubkey) (x : Bytes)
    → ((k : Pubkey) → mint ≡ some k → length k ≡ 32)
    → read_withdraw (t ∷ write_mint mint x) ≡ as_withdraw t mint (read_raw 32 32 x)
read_write_mint t none x h = refl
read_write_mint t (some k) x h = ap (read_mint t 1) (chunk-append 32 k x (h k refl))

read_write_withdraw :
    (x : Withdraw) (rest : Bytes)
    → Signed.IsSized x
    → read_withdraw (write_withdraw x ++ rest) ≡ some x
read_write_withdraw x rest h =
    let raw = write_raw (x.is_initialized, x.amount, x.origin, x.receiver_address) in
    let body =
      read_raw-write_raw 32 32 x.is_initialized x.amount x.origin x.receiver_address rest h.0 h.1
        h.2 in
    ap (λ y. read_withdraw (type_byte x.token_type ∷ y)) (write_mint-append x.mint raw rest)
    ∙ read_write_mint (type_byte x.token_type) x.mint (raw ++ rest) h.3
    ∙ ap (as_withdraw (type_byte x.token_type) x.mint) body
    ∙ ap (λ t. some (record x { token_type = t })) (byte_type-type_byte x.token_type)

mint_of-size :
    (m : ℕ) (k : Bytes) → length k ≡ 32 → (j : Pubkey) → mint_of m k ≡ some j → length j ≡ 32
mint_of-size zero k h j e = cc
mint_of-size (suc m) k h j e = rw (← some-injective k j e) h

none-some : {x : Withdraw} → none ≡ some x → ⊥
none-some e = cc

read_withdraw-IsSized :
    (bytes : Bytes) (x : Withdraw) → read_withdraw bytes ≡ some x → Signed.IsSized x
read_withdraw-IsSized [] x e = absurd (none-some e)
read_withdraw-IsSized (t ∷ []) x e = absurd (none-some e)
read_withdraw-IsSized (t ∷ m ∷ bytes) x e = elim (Option-cases (chunk 32 bytes)) [
  | inl p ↦ absurd (none-some (sym (ap (read_mint t m) p) ∙ e))
  | inr ((k, rest), p) ↦
      let e' = sym (ap (read_mint t m) p) ∙ e in
      elim (Option-cases (read_raw 32 32 rest)) [
        | inl q ↦ absurd (none-some (sym (ap (as_withdraw t (mint_of m k)) q) ∙ e'))
        | inr ((flag, n, a, c), q) ↦
            let h = read_raw-AreSized 32 32 rest flag n a c q in
            let is = some-injective _ x (sym (ap (as_withdraw t (mint_of m k)) q) ∙ e') in
            let mint_size = mint_of-size m k (chunk-size 32 bytes k rest p) in
            rw (← is) (h.0, h.1, h.2, mint_size)
      ]
]

pub withdraw_codec-IsLawful : IsLawful Signed.IsSized withdraw_codec
withdraw_codec-IsLawful = record { round_trip = read_write_withdraw; sized = read_withdraw-IsSized }
