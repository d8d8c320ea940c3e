-- ===== src/Tests/Codecs.antt =====
-- The layout of the test codecs: a cell for a flag and a number, and two arrays.
use solana_bridge_program.Common.{
  ℕ, ◌+◌, ◌*◌, ◌/◌, ◌%◌, ==_iff, zero, suc, ◌≡◌, ◌<◌, refl, ap, Bool, true, false, Option, none,
  some, [], ◌∷◌, ◌++◌, Bytes, length, ltb, ◌==◌, if◌then◌else◌, arith, append_assoc, Option-cases,
  inl, inr,
}
use solana_bridge_program.Runtime.{u64_mod}

abbrev cons_first : ℕ → Option (Bytes × Bytes) → Option (Bytes × Bytes)
cons_first x none = none
cons_first x (some (a, rest)) = some (x ∷ a, rest)

-- The first `n` bytes and the rest.
abbrev pub chunk : ℕ → Bytes → Option (Bytes × Bytes)
chunk zero bytes = some ([], bytes)
chunk (suc n) [] = none
chunk (suc n) (x ∷ bytes) = cons_first x (chunk n bytes)

pub chunk-append : (n : ℕ) (a rest : Bytes) → length a ≡ n → chunk n (a ++ rest) ≡ some (a, rest)
chunk-append zero [] rest h = refl
chunk-append zero (x ∷ a) rest h = absurd (omega arith)
chunk-append (suc n) [] rest h = absurd (omega arith)
chunk-append (suc n) (x ∷ a) rest h = ap (cons_first x) (chunk-append n a rest (omega arith))

pub chunk-size : (n : ℕ) (bytes a rest : Bytes) → chunk n bytes ≡ some (a, rest) → length a ≡ n
chunk-size zero bytes a rest h = ground arith
chunk-size (suc n) [] a rest h = cc
chunk-size (suc n) (x ∷ bytes) a rest h = elim (Option-cases (chunk n bytes)) [
  | inl e ↦ ground arith
  | inr ((a', rest'), e) ↦ let size = chunk-size n bytes a' rest' e in ground arith
]

abbrev byte_of_flag : Bool → ℕ
byte_of_flag true = 1
byte_of_flag false = 0

-- One cell for a flag and a number.
abbrev head : Bool → ℕ → ℕ
head flag n = byte_of_flag flag + n * 2

head_flag : (flag : Bool) (n : ℕ) → (head flag n % 2 == 1) ≡ flag
head_flag true n = (==_iff ((1 + n * 2) % 2) 1).1 (omega arith)
head_flag false n = let even : (0 + n * 2) % 2 ≡ 0 = omega arith in rw even refl

head_number : (flag : Bool) (n : ℕ) → head flag n / 2 ≡ n
head_number true n = omega arith
head_number false n = omega arith

-- A flag, a number and two arrays.
abbrev pub Raw : Type 0
Raw = Bool × ℕ × Bytes × Bytes

abbrev pub write_raw : Raw → Bytes
write_raw (flag, n, a, c) = head flag n ∷ (a ++ c)

abbrev read_second : Bool → ℕ → Bytes → Option (Bytes × Bytes) → Option Raw
read_second flag n a none = none
read_second flag n a (some (c, rest)) = some (flag, n, a, c)

abbrev read_first : ℕ → Bool → ℕ → Option (Bytes × Bytes) → Option Raw
read_first size flag n none = none
read_first size flag n (some (a, rest)) = read_second flag n a (chunk size rest)

abbrev pub read_raw : ℕ → ℕ → Bytes → Option Raw
read_raw size size' [] = none
read_raw size size' (x ∷ bytes) =
    if ltb (x / 2) u64_mod then read_first size' (x % 2 == 1) (x / 2) (chunk size bytes) else none

abbrev pub AreSized : ℕ → ℕ → Raw → Type 0
AreSized size size' (flag, n, a, c) = (length a ≡ size) × (length c ≡ size') × (n < u64_mod)

pub read_raw-write_raw :
    (size size' : ℕ) (flag : Bool) (n : ℕ) (a c rest : Bytes)
    → length a ≡ size
    → length c ≡ size'
    → n < u64_mod
    → read_raw size size' (write_raw (flag, n, a, c) ++ rest) ≡ some (flag, n, a, c)
read_raw-write_raw size size' flag n a c rest ha hc hn =
    let first = chunk-append size a (c ++ rest) ha in
    let second = chunk-append size' c rest hc in
    rw (append_assoc a c rest, first, second, head_number flag n, head_flag flag n) (ground arith)

pub read_raw-AreSized :
    (size size' : ℕ) (bytes : Bytes) (flag : Bool) (n : ℕ) (a c : Bytes)
    → read_raw size size' bytes ≡ some (flag, n, a, c)
    → AreSized size size' (flag, n, a, c)
read_raw-AreSized size size' [] flag n a c e = cc
read_raw-AreSized size size' (x ∷ bytes) flag n a c e = elim (Option-cases (chunk size bytes)) [
  | inl p ↦ ground arith
  | inr ((a', rest), p) ↦ elim (Option-cases (chunk size' rest)) [
    | inl q ↦ ground arith
    | inr ((c', rest'), q) ↦
        let ha = chunk-size size bytes a' rest p in
        let hc = chunk-size size' rest c' rest' q in ground arith
  ]
]
