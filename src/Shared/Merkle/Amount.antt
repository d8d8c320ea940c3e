-- ===== src/Shared/Merkle/Amount.antt =====
-- The amounts in hashed messages.
use solana_bridge_program.Common.{
  ℕ, ◌+◌, ◌*◌, ◌<◌, ◌^◌, ◌≡◌, refl, [], ◌∷◌, ◌++◌, Bytes, length, replicate, arith, ap, sym, ◌∙◌,
}
use solana_bridge_program.Shared.Merkle.{to_be_bytes, amount_bytes}

-- The number that big-endian bytes stand for.
abbrev be_value_from : ℕ → Bytes → ℕ
be_value_from acc [] = acc
be_value_from acc (b ∷ bytes) = be_value_from (acc * 256 + b) bytes

pub be_value : Bytes → ℕ
be_value = be_value_from 0

-- The amount stands in the last eight of 32 bytes, the most significant byte first.
pub amount_bytes_layout : (a : ℕ) → amount_bytes a ≡ replicate 24 0 ++ to_be_bytes a
unfolding amount_bytes
amount_bytes_layout a = refl

pub length-amount_bytes : (a : ℕ) → length (amount_bytes a) ≡ 32
unfolding amount_bytes
length-amount_bytes a = refl

-- Read as a big-endian number, the 32 bytes of a 64-bit amount give the amount back.
pub be_value-amount_bytes : (a : ℕ) → a < 2 ^ 64 → be_value (amount_bytes a) ≡ a
unfolding amount_bytes be_value
be_value-amount_bytes a h = omega arith

pub amount_bytes_injective :
    (a b : ℕ) → a < 2 ^ 64 → b < 2 ^ 64 → amount_bytes a ≡ amount_bytes b → a ≡ b
amount_bytes_injective a b ha hb e =
    sym (be_value-amount_bytes a ha) ∙ ap be_value e ∙ be_value-amount_bytes b hb
