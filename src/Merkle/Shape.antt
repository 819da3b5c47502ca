-- ===== src/Merkle/Shape.antt =====
-- The shape of the tree: the loop ends within its fuel, at a level with the root alone, and each
-- level is half of the one below it, rounded up.
use ecn.Common.{
  ℕ, zero, suc, ◌+◌, ◌/◌, ◌≤◌, ◌<◌, String, ◌≡◌, refl, inl, inr, List, [], ◌∷◌, arith, ltb, leb,
  if◌then◌else◌, Bool-cases, length,
}
use ecn.Merkle.{next_level, build_levels, build_merkle_tree}

module _ (sha256 : String → String) where
  pub length-next_level :
      (level : List String) → length (next_level sha256 level) ≡ (length level + 1) / 2
  unfolding next_level
  length-next_level [] = refl
  length-next_level (left ∷ []) = refl
  length-next_level (left ∷ right ∷ level) = omega (arith, length-next_level level)

  -- The levels from the leaves up: each follows from the one before, and the last is one node.
  abbrev pub IsTree : List (List String) → Type 0
  IsTree [] = ⊥
  IsTree (level ∷ []) = length level ≡ 1
  IsTree (level ∷ above ∷ levels) =
      (1 < length level) × (above ≡ next_level sha256 level) × IsTree (above ∷ levels)

  abbrev pub StartsAt : List String → List (List String) → Type 0
  StartsAt level [] = ⊥
  StartsAt level (first ∷ levels) = first ≡ level

  build_levels-StartsAt :
      (fuel : ℕ) (level : List String) → StartsAt level (build_levels sha256 fuel level)
  unfolding build_levels
  build_levels-StartsAt zero level = refl
  build_levels-StartsAt (suc fuel) level = ground arith

  IsTree-cons :
      (level : List String) (levels : List (List String))
      → 1 < length level
      → StartsAt (next_level sha256 level) levels
      → IsTree levels
      → IsTree (level ∷ levels)
  IsTree-cons level [] h s t = absurd s
  IsTree-cons level (above ∷ levels) h s t = (h, s, t)

  build_levels-IsTree :
      (fuel : ℕ) (level : List String)
      → length level ≤ fuel
      → 0 < length level
      → IsTree (build_levels sha256 fuel level)
  unfolding build_levels
  build_levels-IsTree zero level h p = absurd (omega arith)
  build_levels-IsTree (suc fuel) level h p = elim (Bool-cases (ltb 1 (length level))) [
    | inl more ↦ rw more (
        IsTree-cons level (build_levels sha256 fuel (next_level sha256 level)) (ground arith)
          (build_levels-StartsAt fuel (next_level sha256 level))
          (build_levels-IsTree fuel (next_level sha256 level)
            (ground (arith, length-next_level level)) (ground (arith, length-next_level level))))
    | inr done ↦ rw done (ground arith)
  ]

  -- For every list of leaves the loop ends, and what it returns is a tree over the leaves, with
  -- the leaf for the empty input where there are none.
  pub build_merkle_tree-IsTree :
      (leaves : List String)
      → IsTree (build_merkle_tree sha256 leaves)
        × StartsAt
            (if leb 1 (length leaves) then leaves else sha256 "" ∷ [])
            (build_merkle_tree sha256 leaves)
  unfolding build_merkle_tree
  build_merkle_tree-IsTree [] = (refl, refl)
  build_merkle_tree-IsTree (leaf ∷ leaves) = (
    build_levels-IsTree (length (leaf ∷ leaves)) (leaf ∷ leaves) (omega arith) (omega arith),
    ground (arith, build_levels-StartsAt (length (leaf ∷ leaves)) (leaf ∷ leaves)),
  )
