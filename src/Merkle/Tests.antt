-- ===== src/Merkle/Tests.antt =====
-- Trees over a few leaves, and the theorems at concrete inputs.
use ecn.Common.{String, ◌≡◌, refl, ◌⊎◌, [], ◌∷◌}
use Prim.Native.String.{◌++◌ as ◌⁀◌}
use ecn.Merkle.{next_level, build_levels, build_merkle_tree, merkle_root}
use ecn.Merkle.Shape.{IsTree, StartsAt, build_merkle_tree-IsTree}
use ecn.Merkle.Binding.{Collision, hashed, merkle_root-injective}

-- Digests that show their input.
abbrev bracket : String → String
bracket s = "(" ⁀ (s ⁀ ")")

three_leaves : merkle_root bracket ("a" ∷ "b" ∷ "c" ∷ []) ≡ "((ab)(cc))"
unfolding merkle_root build_merkle_tree build_levels next_level
three_leaves = refl

build_merkle_tree-IsTree_example :
    IsTree bracket (build_merkle_tree bracket ("a" ∷ "b" ∷ "c" ∷ []))
    × StartsAt bracket ("a" ∷ "b" ∷ "c" ∷ []) (build_merkle_tree bracket ("a" ∷ "b" ∷ "c" ∷ []))
build_merkle_tree-IsTree_example = build_merkle_tree-IsTree bracket ("a" ∷ "b" ∷ "c" ∷ [])

abbrev zeros : String
zeros = "0000000000000000000000000000000000000000000000000000000000000000"

abbrev constant : String → String
constant s = zeros

abbrev ones : String
ones = "1111111111111111111111111111111111111111111111111111111111111111"

-- Under a constant digest different leaves have one root, and there is a collision.
merkle_root-injective_example :
    (zeros ∷ zeros ∷ [] ≡ ones ∷ ones ∷ [])
    ⊎ Collision constant
        (hashed constant 2 (zeros ∷ zeros ∷ []))
        (hashed constant 2 (ones ∷ ones ∷ []))
unfolding merkle_root build_merkle_tree build_levels next_level
merkle_root-injective_example =
    merkle_root-injective constant (λ s. refl) (zeros ∷ zeros ∷ []) (ones ∷ ones ∷ []) refl
      (refl, (refl, tt)) (refl, (refl, tt)) refl
