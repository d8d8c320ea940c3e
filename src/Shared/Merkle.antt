-- ===== src/Shared/Merkle.antt =====
-- lib/src/merkle.rs: the 32-byte form of an amount, and the root that a Merkle path leads to.
pub mod Amount
pub mod Order
pub mod Tree
pub mod Collision
use solana_bridge_program.Common.{
  ℕ, zero, suc, ◌+◌, ◌-◌, ◌/◌, ◌%◌, ◌^◌, ◌==◌, ltb, if◌then◌else◌, Bool, true, false, List, [], ◌∷◌,
  ◌++◌, Bytes, length, replicate, set, get_or,
}
use solana_bridge_program.Runtime.{Result, ok}
use solana_bridge_program.Env.{Env}

-- `u64::to_be_bytes`
abbrev pub to_be_bytes : ℕ → Bytes
to_be_bytes a =
    a / 2 ^ 56 % 256
    ∷ a / 2 ^ 48 % 256
    ∷ a / 2 ^ 40 % 256
    ∷ a / 2 ^ 32 % 256
    ∷ a / 2 ^ 24 % 256
    ∷ a / 2 ^ 16 % 256
    ∷ a / 2 ^ 8 % 256
    ∷ a % 256
    ∷ []

-- `for i in 0..bytes.len() { result[31 - i] = bytes[bytes.len() - 1 - i] }`, with the rounds left
-- and `i`. Both indices stay in range for 8 bytes.
unfoldable pub amount_loop : ℕ → ℕ → Bytes → Bytes → Bytes
amount_loop zero i bytes result = result
amount_loop (suc left) i bytes result =
    amount_loop left (i + 1) bytes (set result (31 - i) (get_or bytes (length bytes - 1 - i) 0))

unfoldable pub amount_bytes : ℕ → Bytes
unfolding amount_loop
amount_bytes amount =
    let bytes = to_be_bytes amount in amount_loop (length bytes) 0 bytes (replicate 32 0)

-- The order of two hashes of one length, which is that of their bytes: `a <= b`.
unfoldable pub bytes_leb : Bytes → Bytes → Bool
bytes_leb [] b = true
bytes_leb (x ∷ a) [] = false
bytes_leb (x ∷ a) (y ∷ b) = if ltb x y then true else if x == y then bytes_leb a b else false

module _ (env : Env) where
  -- One round of the loop in `get_merkle_root`: the greater hash goes first.
  unfoldable pub merkle_step : Bytes → Bytes → Bytes
  merkle_step hash leaf =
      if bytes_leb hash leaf then env.keccak (leaf ++ hash) else env.keccak (hash ++ leaf)

  unfoldable pub merkle_loop : Bytes → List Bytes → Bytes
  merkle_loop hash [] = hash
  merkle_loop hash (leaf ∷ path) = merkle_loop (merkle_step hash leaf) path

  unfoldable pub get_merkle_root : Bytes → List Bytes → Result Bytes
  get_merkle_root hash path = ok (merkle_loop hash path)
