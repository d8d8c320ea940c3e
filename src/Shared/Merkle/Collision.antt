-- ===== src/Shared/Merkle/Collision.antt =====
-- What a Merkle path proves: a hash from which a path leads to the root of a tree is a leaf of the
-- tree, unless two inputs with one Keccak hash are at hand.
use solana_bridge_program.Common.{
  ℕ, zero, suc, ◌≡◌, ◌≢◌, refl, ◌⊎◌, inl, inr, List, [], ◌∷◌, ◌++◌, Bytes, length, if◌then◌else◌,
  arith, ap, ◌∙◌, sym, Bool-cases, Bytes-cases, append-injective,
}
use solana_bridge_program.Runtime.{ok}
use solana_bridge_program.Env.{Env}
use solana_bridge_program.Shared.Merkle.{bytes_leb, merkle_step, merkle_loop, get_merkle_root}
use solana_bridge_program.Shared.Merkle.Tree.{Tree, leaf, node, root, merkle_loop-append}

abbrev pub IsHash : Bytes → Type 0
IsHash b = length b ≡ 32

abbrev pub AreHashes : List Bytes → Type 0
AreHashes [] = Unit {0}
AreHashes (x ∷ xs) = IsHash x × AreHashes xs

-- Every leaf is a hash and lies at the given depth.
abbrev pub IsPerfect : ℕ → Tree → Type 0
IsPerfect zero (leaf h) = IsHash h
IsPerfect zero (node l r) = ⊥
IsPerfect (suc n) (leaf h) = ⊥
IsPerfect (suc n) (node l r) = IsPerfect n l × IsPerfect n r

abbrev pub IsLeaf : Bytes → Tree → Type 0
IsLeaf h (leaf g) = h ≡ g
IsLeaf h (node l r) = IsLeaf h l ⊎ IsLeaf h r

-- Two different inputs of Keccak with one hash.
abbrev pub Collision : Env → Type 0
Collision env = (x : Bytes) × (y : Bytes) × (x ≢ y) × (env.keccak x ≡ env.keccak y)

abbrev join : Bytes → Bytes → Bytes
join a b = if bytes_leb a b then b ++ a else a ++ b

split_last :
    (n : ℕ) (xs : List Bytes)
    → AreHashes xs
    → length xs ≡ suc n
    → (ys : List Bytes) × (y : Bytes) × (xs ≡ ys ++ y ∷ [])
      × (length ys ≡ n)
      × AreHashes ys
      × IsHash y
split_last n [] a h = absurd (omega arith)
split_last zero (x ∷ []) a h = ([], x, refl, refl, tt, a.0)
split_last zero (x ∷ y ∷ xs) a h = absurd (omega arith)
split_last (suc n) (x ∷ []) a h = absurd (omega arith)
split_last (suc n) (x ∷ y ∷ xs) a h =
    let (ys, z, is, len, hs, hz) = split_last n (y ∷ xs) a.1 (omega arith) in
    (x ∷ ys, z, ap (◌∷◌ x) is, omega arith, (a.0, hs), hz)

module _ (env : Env) (keccak_size : (x : Bytes) → IsHash (env.keccak x)) where
  merkle_step-join : (a b : Bytes) → merkle_step env a b ≡ env.keccak (join a b)
  unfolding merkle_step
  merkle_step-join a b = ground arith

  merkle_step-IsHash : (a b : Bytes) → IsHash (merkle_step env a b)
  merkle_step-IsHash a b = rw (merkle_step-join a b) (keccak_size (join a b))

  merkle_loop-IsHash : (h : Bytes) (path : List Bytes) → IsHash h → IsHash (merkle_loop env h path)
  unfolding merkle_loop
  merkle_loop-IsHash h [] p = p
  merkle_loop-IsHash h (x ∷ path) p =
      merkle_loop-IsHash (merkle_step env h x) path (merkle_step-IsHash h x)

  root-IsHash : (n : ℕ) (t : Tree) → IsPerfect n t → IsHash (root env t)
  unfolding root
  root-IsHash zero (leaf h) p = p
  root-IsHash zero (node l r) p = absurd p
  root-IsHash (suc n) (leaf h) p = absurd p
  root-IsHash (suc n) (node l r) p = merkle_step-IsHash (root env l) (root env r)

  join-injective :
      (a b c d : Bytes)
      → IsHash a
      → IsHash b
      → IsHash c
      → IsHash d
      → join a b ≡ join c d
      → (a ≡ c) ⊎ (a ≡ d)
  join-injective a b c d ha hb hc hd e = elim (Bool-cases (bytes_leb a b)) [
    | inl p ↦ elim (Bool-cases (bytes_leb c d)) [
      | inl q ↦ inl (append-injective b d a c (hb ∙ sym hd) (ground arith)).1
      | inr q ↦ inr (append-injective b c a d (hb ∙ sym hc) (ground arith)).1
    ]
    | inr p ↦ elim (Bool-cases (bytes_leb c d)) [
      | inl q ↦ inr (append-injective a d b c (ha ∙ sym hd) (ground arith)).0
      | inr q ↦ inl (append-injective a c b d (ha ∙ sym hc) (ground arith)).0
    ]
  ]

  -- Equal steps come from one pair of hashes, or show a collision.
  merkle_step-injective :
      (a b c d : Bytes)
      → IsHash a
      → IsHash b
      → IsHash c
      → IsHash d
      → merkle_step env a b ≡ merkle_step env c d
      → (a ≡ c) ⊎ (a ≡ d) ⊎ Collision env
  merkle_step-injective a b c d ha hb hc hd e = elim (Bytes-cases (join a b) (join c d)) [
    | inl same ↦ elim (join-injective a b c d ha hb hc hd same) [
      | inl p ↦ inl p
      | inr p ↦ inr (inl p)
    ]
    | inr other ↦
        inr (inr (join a b, join c d, other, sym (merkle_step-join a b) ∙ e ∙ merkle_step-join c d))
  ]

  merkle_loop_sound :
      (n : ℕ) (t : Tree) (h : Bytes) (path : List Bytes)
      → IsPerfect n t
      → IsHash h
      → AreHashes path
      → length path ≡ n
      → merkle_loop env h path ≡ root env t
      → IsLeaf h t ⊎ Collision env
  unfolding merkle_loop root
  merkle_loop_sound zero (leaf g) h [] p hh hp len e = inl e
  merkle_loop_sound zero (leaf g) h (x ∷ path) p hh hp len e = absurd (omega arith)
  merkle_loop_sound zero (node l r) h path p hh hp len e = absurd p
  merkle_loop_sound (suc n) (leaf g) h path p hh hp len e = absurd p
  merkle_loop_sound (suc n) (node l r) h path p hh hp len e =
      let (ys, y, is, len', hs, hy) = split_last n path hp len in
      let top : merkle_step env (merkle_loop env h ys) y
          ≡ merkle_step env (root env l) (root env r) =
        sym (merkle_loop-append env h y ys) ∙ sym (ap (merkle_loop env h) is) ∙ e in
      elim (merkle_step-injective (merkle_loop env h ys) y (root env l) (root env r)
        (merkle_loop-IsHash h ys hh) hy (root-IsHash n l p.0) (root-IsHash n r p.1) top) [
          | inl q ↦ elim (merkle_loop_sound n l h ys p.0 hh hs len' q) [
            | inl found ↦ inl (inl found)
            | inr c ↦ inr c
          ]
          | inr (inl q) ↦ elim (merkle_loop_sound n r h ys p.1 hh hs len' q) [
            | inl found ↦ inl (inr found)
            | inr c ↦ inr c
          ]
          | inr (inr c) ↦ inr c
        ]

-- If Keccak gives 32 bytes, the leaves of a tree all lie at depth `n`, and from a hash a path of
-- `n` hashes leads to the root of the tree, then the hash is a leaf, or there is a collision.
pub get_merkle_root_sound :
    (env : Env) (n : ℕ) (t : Tree) (h : Bytes) (path : List Bytes)
    → ((x : Bytes) → IsHash (env.keccak x))
    → IsPerfect n t
    → IsHash h
    → AreHashes path
    → length path ≡ n
    → get_merkle_root env h path ≡ ok (root env t)
    → IsLeaf h t ⊎ Collision env
unfolding get_merkle_root
get_merkle_root_sound env n t h path size p hh hp len e =
    merkle_loop_sound env size n t h path p hh hp len (cc)
