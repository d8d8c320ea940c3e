-- ===== src/Tests/Merkle.antt =====
-- The theorems on Merkle paths, signatures and messages, at concrete ones.
use solana_bridge_program.Common.{ℕ, ◌≡◌, ◌⊎◌, refl, true, some, [], ◌∷◌, Bytes, replicate, arith}
use solana_bridge_program.Runtime.{ok}
use solana_bridge_program.Shared.Merkle.{merkle_loop, get_merkle_root, amount_bytes}
use solana_bridge_program.Shared.Merkle.Amount.{be_value, be_value-amount_bytes}
use solana_bridge_program.Shared.Merkle.Tree.{
  Tree, leaf, node, root, prove_leaf, get_merkle_root_complete,
}
use solana_bridge_program.Shared.Merkle.Collision.{IsLeaf, Collision, get_merkle_root_sound}
use solana_bridge_program.Bridge.Content
use solana_bridge_program.Bridge.Content.Layout.{native_message_injective, ft_message_ambiguous}
use solana_bridge_program.Tests.Platform.{test_env}
use solana_bridge_program.Tests.Laws.{length-pad}

abbrev left_hash : Bytes
left_hash = replicate 32 3

abbrev right_hash : Bytes
right_hash = replicate 32 4

abbrev tree : Tree
tree = node (leaf left_hash) (leaf right_hash)

proves : prove_leaf test_env tree (true ∷ []) ≡ some (left_hash, right_hash ∷ [])
unfolding prove_leaf root
proves = refl

get_merkle_root_complete_example :
    get_merkle_root test_env left_hash (right_hash ∷ []) ≡ ok (root test_env tree)
get_merkle_root_complete_example =
    get_merkle_root_complete test_env tree (true ∷ []) left_hash (right_hash ∷ []) proves

reaches_root : get_merkle_root test_env left_hash (right_hash ∷ []) ≡ ok (root test_env tree)
unfolding get_merkle_root merkle_loop root
reaches_root = refl

get_merkle_root_sound_example : IsLeaf left_hash tree ⊎ Collision test_env
get_merkle_root_sound_example =
    get_merkle_root_sound test_env 1 tree left_hash (right_hash ∷ []) (length-pad 32) (refl, refl)
      refl (refl, tt) refl reaches_root

be_value-amount_bytes_example : be_value (amount_bytes 258) ≡ 258
be_value-amount_bytes_example = be_value-amount_bytes 258 (omega arith)

abbrev seven : ℕ
seven = 7

native_message_injective_example :
    (seven ≡ seven) × (left_hash ≡ left_hash) × (right_hash ≡ right_hash) × (left_hash ≡ left_hash)
native_message_injective_example =
    native_message_injective left_hash left_hash right_hash right_hash left_hash left_hash seven
      seven refl refl refl refl (omega arith) (omega arith) refl

ft_message_ambiguous_example :
    Content.message (
      Content.new left_hash right_hash left_hash
        (Content.new_ft_transfer right_hash 5 (71 ∷ 104 ∷ []) (71 ∷ []) (47 ∷ []) 6))
    ≡ Content.message (
        Content.new left_hash right_hash left_hash
          (Content.new_ft_transfer right_hash 5 (71 ∷ []) (71 ∷ []) (104 ∷ 47 ∷ []) 6))
ft_message_ambiguous_example =
    ft_message_ambiguous left_hash right_hash left_hash right_hash (71 ∷ []) (104 ∷ []) (47 ∷ [])
      (71 ∷ []) 5 6
