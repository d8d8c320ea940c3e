-- ===== src/Shared/Merkle/Order.antt =====
-- The order of hashes is total and antisymmetric, so a step of the path does not depend on which
-- of the two hashes is the leaf's.
use solana_bridge_program.Common.{◌≡◌, refl, true, false, [], ◌∷◌, Bytes, arith}
use solana_bridge_program.Env.{Env}
use solana_bridge_program.Shared.Merkle.{bytes_leb, merkle_step}

pub bytes_leb_total : (a b : Bytes) → bytes_leb a b ≡ false → bytes_leb b a ≡ true
unfolding bytes_leb
bytes_leb_total [] b h = cc
bytes_leb_total (x ∷ a) [] h = refl
bytes_leb_total (x ∷ a) (y ∷ b) h = ground (arith, bytes_leb_total a b)

pub bytes_leb_antisym : (a b : Bytes) → bytes_leb a b ≡ true → bytes_leb b a ≡ true → a ≡ b
unfolding bytes_leb
bytes_leb_antisym [] [] h k = refl
bytes_leb_antisym [] (y ∷ b) h k = cc
bytes_leb_antisym (x ∷ a) [] h k = cc
bytes_leb_antisym (x ∷ a) (y ∷ b) h k = ground (arith, bytes_leb_antisym a b)

-- A step is symmetric in the two hashes.
pub merkle_step_comm : (env : Env) (a b : Bytes) → merkle_step env a b ≡ merkle_step env b a
unfolding merkle_step
merkle_step_comm env a b =
    ground (arith, bytes_leb_total a b, bytes_leb_total b a, bytes_leb_antisym a b)
