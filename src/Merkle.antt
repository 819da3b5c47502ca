-- ===== src/Merkle.antt =====
-- `build_merkle_tree` and `merkle_root` of ecn/state_manager.py. SHA-256 of a text, as a hex digest,
-- is a parameter. The `while` loop runs on fuel, the number of leaves.
pub mod Shape
pub mod Climb
pub mod Binding
pub mod Repeat
mod Tests
use ecn.Common.{ℕ, zero, suc, String, List, [], ◌∷◌, ltb, if◌then◌else◌, length}
use Prim.Native.String.{◌++◌ as ◌⁀◌}

-- The last element of a list, or a default: `levels[-1]`.
abbrev pub last_or {ℓ} : {A : Type ℓ} → A → List A → A
last_or d [] = d
last_or d (x ∷ xs) = last_or x xs

-- `level[0]`
abbrev pub head_or {ℓ} : {A : Type ℓ} → A → List A → A
head_or d [] = d
head_or d (x ∷ xs) = x

module _ (sha256 : String → String) where
  -- One pass of the `for` loop over pairs; an odd last node is paired with itself.
  unfoldable pub next_level : List String → List String
  next_level [] = []
  next_level (left ∷ []) = sha256 (left ⁀ left) ∷ []
  next_level (left ∷ right ∷ level) = sha256 (left ⁀ right) ∷ next_level level

  -- `while len(level) > 1`
  unfoldable pub build_levels : ℕ → List String → List (List String)
  build_levels zero level = level ∷ []
  build_levels (suc fuel) level =
      let rest = build_levels fuel (next_level level) in
      if ltb 1 (length level) then level ∷ rest else level ∷ []

  unfoldable pub build_merkle_tree : List String → List (List String)
  unfolding build_levels next_level
  build_merkle_tree [] = (sha256 "" ∷ []) ∷ []
  build_merkle_tree (leaf ∷ leaves) = build_levels (length (leaf ∷ leaves)) (leaf ∷ leaves)

  -- `tree[-1][0]`; the defaults stand for positions that `Merkle.Shape` shows to be there.
  unfoldable pub merkle_root : List String → String
  unfolding build_merkle_tree
  merkle_root leaves = head_or "" (last_or [] (build_merkle_tree leaves))
