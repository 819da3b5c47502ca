-- ===== src/Merkle/Climb.antt =====
-- What the loop leaves at the top of the tree, by the levels.
use ecn.Common.{ℕ, zero, suc, ◌<◌, String, ◌≡◌, refl, List, [], ◌∷◌, arith, length}
use ecn.Merkle.{last_or, head_or, next_level, build_levels, merkle_root}

module _ (sha256 : String → String) where
  abbrev pub top : ℕ → List String → String
  top fuel level = head_or "" (last_or [] (build_levels sha256 fuel level))

  pub last_or-build_levels :
      (d : List String) (fuel : ℕ) (level : List String)
      → last_or d (build_levels sha256 fuel level) ≡ last_or [] (build_levels sha256 fuel level)
  unfolding build_levels
  last_or-build_levels d zero level = refl
  last_or-build_levels d (suc fuel) level = ground arith

  pub top_more :
      (fuel : ℕ) (level : List String)
      → 1 < length level
      → top (suc fuel) level ≡ top fuel (next_level sha256 level)
  unfolding build_levels
  top_more fuel level h = ground (arith, last_or-build_levels level fuel (next_level sha256 level))

  pub top_one : (fuel : ℕ) (a : String) → top fuel (a ∷ []) ≡ a
  unfolding build_levels
  top_one zero a = refl
  top_one (suc fuel) a = refl

  pub merkle_root-top :
      (xs : List String) → 0 < length xs → merkle_root sha256 xs ≡ top (length xs) xs
  unfolding merkle_root
  merkle_root-top [] h = absurd (omega arith)
  merkle_root-top (x ∷ xs) h = refl
