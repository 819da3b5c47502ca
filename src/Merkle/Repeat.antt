-- ===== src/Merkle/Repeat.antt =====
-- The price of pairing an odd last node with itself: more leaves than one have the same root.
use ecn.Common.{
  ℕ, zero, suc, ◌%◌, ◌≤◌, ◌<◌, String, ◌≡◌, refl, sym, ap, ◌∙◌, inl, inr, List, [], ◌∷◌, ◌++◌,
  arith, ltb, Bool-cases, length, length-append,
}
use ecn.Merkle.{next_level, build_levels, merkle_root}
use ecn.Merkle.Climb.{top, top_more, merkle_root-top}
use ecn.Merkle.Shape.{length-next_level}

module _ (sha256 : String → String) where
  top_done :
      (fuel : ℕ) (level : List String)
      → length level ≤ 1
      → top sha256 (suc fuel) level ≡ top sha256 fuel level
  unfolding build_levels
  top_done zero level h = ground arith
  top_done (suc fuel) level h = ground arith

  -- More fuel than nodes changes nothing.
  top_enough :
      (fuel : ℕ) (level : List String)
      → length level ≤ fuel
      → top sha256 (suc fuel) level ≡ top sha256 fuel level
  top_enough zero level h = top_done zero level (omega arith)
  top_enough (suc fuel) level h = elim (Bool-cases (ltb 1 (length level))) [
    | inl more ↦
        top_more sha256 (suc fuel) level (ground arith)
        ∙ top_enough fuel (next_level sha256 level) (ground (arith, length-next_level sha256 level))
        ∙ sym (top_more sha256 fuel level (ground arith))
    | inr done ↦ top_done (suc fuel) level (ground arith)
  ]

  next_level-twice :
      (xs : List String) (a : String)
      → length xs % 2 ≡ 0
      → next_level sha256 ((xs ++ a ∷ []) ++ a ∷ []) ≡ next_level sha256 (xs ++ a ∷ [])
  unfolding next_level
  next_level-twice [] a h = refl
  next_level-twice (x ∷ []) a h = absurd (omega arith)
  next_level-twice (x ∷ y ∷ xs) a h = rw (next_level-twice xs a (omega arith))

  -- Where the number of leaves is odd and at least three, repeating the last leaf leaves the root
  -- as it is.
  pub merkle_root-repeat :
      (xs : List String) (a : String)
      → length xs % 2 ≡ 0
      → 0 < length xs
      → merkle_root sha256 ((xs ++ a ∷ []) ++ a ∷ []) ≡ merkle_root sha256 (xs ++ a ∷ [])
  merkle_root-repeat xs a h p =
      let n = length xs in
      let once = xs ++ a ∷ [] in
      let twice = once ++ a ∷ [] in
      let n1 : length once ≡ suc n = omega (arith, length-append xs (a ∷ [])) in
      let n2 : length twice ≡ suc (suc n) = omega (arith, length-append once (a ∷ [])) in
      merkle_root-top sha256 twice (omega arith)
      ∙ ap (λ k. top sha256 k twice) n2
      ∙ top_more sha256 (suc n) twice (omega arith)
      ∙ ap (top sha256 (suc n)) (next_level-twice xs a h)
      ∙ top_enough n (next_level sha256 once) (omega (arith, length-next_level sha256 once))
      ∙ sym (top_more sha256 n once (omega arith))
      ∙ ap (λ k. top sha256 k once) (sym n1)
      ∙ sym (merkle_root-top sha256 once (omega arith))
