-- ===== src/Shared/Merkle/Tree.antt =====
-- Merkle trees as the core builds them, for which the loop of `get_merkle_root` is the check of
-- a membership proof. A proof lists the siblings from the leaf up.
use solana_bridge_program.Common.{
  ◌≡◌, refl, Bool, true, false, Option, none, some, List, [], ◌∷◌, ◌++◌, Bytes, arith, ap, ◌∙◌,
}
use mathlib.Core.Option
use solana_bridge_program.Runtime.{ok}
use solana_bridge_program.Env.{Env}
use solana_bridge_program.Shared.Merkle.{merkle_step, merkle_loop, get_merkle_root}
use solana_bridge_program.Shared.Merkle.Order.{merkle_step_comm}

pub data Tree : Type 0 where
  leaf : Bytes → Tree
  node : Tree → Tree → Tree

module _ (env : Env) where
  unfoldable pub root : Tree → Bytes
  root (leaf h) = h
  root (node l r) = merkle_step env (root l) (root r)

  abbrev above : Bytes → Option (Bytes × List Bytes) → Option (Bytes × List Bytes)
  above sibling = Option.map (λ p. (p.0, p.1 ++ sibling ∷ []))

  -- The leaf at the end of a way down (`true` is left), with its proof.
  unfoldable pub prove_leaf : Tree → List Bool → Option (Bytes × List Bytes)
  unfolding root
  prove_leaf (leaf h) [] = some (h, [])
  prove_leaf (leaf h) (d ∷ way) = none
  prove_leaf (node l r) [] = none
  prove_leaf (node l r) (true ∷ way) = above (root r) (prove_leaf l way)
  prove_leaf (node l r) (false ∷ way) = above (root l) (prove_leaf r way)

  -- One more sibling at the end of the path is one more step.
  pub merkle_loop-append :
      (h x : Bytes) (path : List Bytes)
      → merkle_loop env h (path ++ x ∷ []) ≡ merkle_step env (merkle_loop env h path) x
  unfolding merkle_loop
  merkle_loop-append h x [] = refl
  merkle_loop-append h x (y ∷ path) = merkle_loop-append (merkle_step env h y) x path

  above-some :
      (x : Bytes) (o : Option (Bytes × List Bytes)) {h : Bytes} {path : List Bytes}
      → above x o ≡ some (h, path)
      → (q : List Bytes) × (o ≡ some (h, q)) × (path ≡ q ++ x ∷ [])
  above-some x none e = cc
  above-some x (some (g, q)) e = (q, ground arith, ground arith)

  prove_leaf-root :
      (t : Tree) (way : List Bool) {h : Bytes} {path : List Bytes}
      → prove_leaf t way ≡ some (h, path)
      → merkle_loop env h path ≡ root t
  unfolding prove_leaf merkle_loop root
  prove_leaf-root (leaf g) [] e = ground arith
  prove_leaf-root (leaf g) (d ∷ way) e = cc
  prove_leaf-root (node l r) [] e = cc
  prove_leaf-root (node l r) (true ∷ way) {h} {path} e =
      let (q, found, is) = above-some (root r) (prove_leaf l way) e in
      ap (merkle_loop env h) is
      ∙ merkle_loop-append h (root r) q
      ∙ ap (λ x. merkle_step env x (root r)) (prove_leaf-root l way found)
  prove_leaf-root (node l r) (false ∷ way) {h} {path} e =
      let (q, found, is) = above-some (root l) (prove_leaf r way) e in
      ap (merkle_loop env h) is
      ∙ merkle_loop-append h (root l) q
      ∙ ap (λ x. merkle_step env x (root l)) (prove_leaf-root r way found)
      ∙ merkle_step_comm env (root r) (root l)

  -- Whatever the tree and the leaf, the proof that the tree gives for the leaf leads
  -- `get_merkle_root` from the leaf's hash to the root of the tree.
  pub get_merkle_root_complete :
      (t : Tree) (way : List Bool) (h : Bytes) (path : List Bytes)
      → prove_leaf t way ≡ some (h, path)
      → get_merkle_root env h path ≡ ok (root t)
  unfolding get_merkle_root
  get_merkle_root_complete t way h path e = ap ok (prove_leaf-root t way e)
