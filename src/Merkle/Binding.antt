-- ===== src/Merkle/Binding.antt =====
-- The root binds the leaves: two lists of as many leaves with one root are the same list, unless
-- two different texts that are hashed in the trees have one digest. That a digest has 64 characters is all that is assumed.
use ecn.Common.{
  ℕ, zero, suc, ◌≤◌, String, ◌≡◌, refl, sym, ap, ◌∙◌, ◌≢◌, ◌⊎◌, inl, inr, List, [], ◌∷◌, arith,
  Bool-cases, length, All, ◌++◌, true,
}
use ecn.Common.Text.{str_eq, eq_iff, str_eq_refl, listed, listed-left, listed-right}
use mathlib.Core.Path.{subst}
use Prim.Native.String.{◌++◌ as ◌⁀◌, count}
use text.Mathlib.TextLemmas.{append_inj}
use ecn.Merkle.{next_level, merkle_root}
use ecn.Merkle.Climb.{top, top_more, top_one, merkle_root-top}
use ecn.Merkle.Shape.{length-next_level}

abbrev pub IsDigest : String → Type 0
IsDigest s = count s ≡ 64

-- Another first outcome.
on_left {ℓ} : {A C D : Type ℓ} → A ⊎ C → (A → D) → D ⊎ C
on_left (inl a) f = inl (f a)
on_left (inr c) f = inr c

-- The texts that one pass of the loop hashes.
abbrev pub paired : List String → List String
paired [] = []
paired (left ∷ []) = (left ⁀ left) ∷ []
paired (left ∷ right ∷ level) = (left ⁀ right) ∷ paired level

module _ (sha256 : String → String) where
  -- The texts that are hashed on the way from a level to the root.
  abbrev pub hashed : ℕ → List String → List String
  hashed zero level = []
  hashed (suc fuel) [] = []
  hashed (suc fuel) (root ∷ []) = []
  hashed (suc fuel) (a ∷ b ∷ level) =
      paired (a ∷ b ∷ level) ++ hashed fuel (next_level sha256 (a ∷ b ∷ level))

  -- A text of each list, different ones with one digest.
  pub record Collision (texts others : List String) : Type 0 where
    pub one : String
    pub other : String
    pub one_of : listed one texts ≡ true
    pub other_of : listed other others ≡ true
    pub distinct : one ≢ other
    pub same_digest : sha256 one ≡ sha256 other

  Collision-head :
      (a b c d : String) (xs ys : List String)
      → sha256 (a ⁀ b) ≡ sha256 (c ⁀ d)
      → IsDigest a
      → IsDigest c
      → ((a ≡ c) × (b ≡ d)) ⊎ Collision ((a ⁀ b) ∷ xs) ((c ⁀ d) ∷ ys)
  unfolding listed
  Collision-head a b c d xs ys e ha hc = elim (Bool-cases (str_eq (a ⁀ b) (c ⁀ d))) [
    | inl same ↦ inl (append_inj ((eq_iff (a ⁀ b) (c ⁀ d)).0 same) (ha ∙ sym hc))
    | inr differ ↦ inr (record {
      one = a ⁀ b;
      other = c ⁀ d;
      one_of = ground (arith, str_eq_refl (a ⁀ b));
      other_of = ground (arith, str_eq_refl (c ⁀ d));
      distinct = λ p. cc ((eq_iff (a ⁀ b) (c ⁀ d)).1 p);
      same_digest = e;
    })
  ]

  Collision-append :
      (ts us ts' us' : List String) → Collision ts us → Collision (ts ++ ts') (us ++ us')
  Collision-append ts us ts' us' c = record {
    one = c.one;
    other = c.other;
    one_of = listed-left c.one ts ts' c.one_of;
    other_of = listed-left c.other us us' c.other_of;
    distinct = c.distinct;
    same_digest = c.same_digest;
  }

  Collision-after :
      (ts us ts' us' : List String) → Collision ts' us' → Collision (ts ++ ts') (us ++ us')
  Collision-after ts us ts' us' c = record {
    one = c.one;
    other = c.other;
    one_of = listed-right c.one ts ts' c.one_of;
    other_of = listed-right c.other us us' c.other_of;
    distinct = c.distinct;
    same_digest = c.same_digest;
  }

  next_level-injective :
      (xs ys : List String)
      → length xs ≡ length ys
      → All IsDigest xs
      → All IsDigest ys
      → next_level sha256 xs ≡ next_level sha256 ys
      → (xs ≡ ys) ⊎ Collision (paired xs) (paired ys)
  unfolding next_level
  next_level-injective [] [] n hx hy e = inl refl
  next_level-injective (a ∷ []) (c ∷ []) n hx hy e =
      on_left (Collision-head a a c c [] [] (cc) hx.0 hy.0) (λ p. cc (p.0))
  next_level-injective (a ∷ b ∷ xs) (c ∷ d ∷ ys) n hx hy e =
      elim (Collision-head a b c d (paired xs) (paired ys) (cc) hx.0 hy.0) [
        | inr found ↦ inr found
        | inl same ↦ elim (next_level-injective xs ys (omega arith) hx.1.1 hy.1.1 (cc)) [
          | inl rest ↦ inl (cc (same.0, same.1, rest))
          | inr found ↦
              inr (Collision-after ((a ⁀ b) ∷ []) ((c ⁀ d) ∷ []) (paired xs) (paired ys) found)
        ]
      ]
  next_level-injective _ _ n hx hy e = absurd (omega arith)

  module _ (digest : (s : String) → IsDigest (sha256 s)) where
    next_level-digests : (xs : List String) → All IsDigest (next_level sha256 xs)
    unfolding next_level
    next_level-digests [] = tt
    next_level-digests (a ∷ []) = (digest (a ⁀ a), tt)
    next_level-digests (a ∷ b ∷ xs) = (digest (a ⁀ b), next_level-digests xs)

    top-injective :
        (fuel : ℕ) (xs ys : List String)
        → length xs ≡ length ys
        → length xs ≤ fuel
        → All IsDigest xs
        → All IsDigest ys
        → top sha256 fuel xs ≡ top sha256 fuel ys
        → (xs ≡ ys) ⊎ Collision (hashed fuel xs) (hashed fuel ys)
    top-injective zero [] [] n h hx hy e = inl refl
    top-injective (suc fuel) [] [] n h hx hy e = inl refl
    top-injective (suc fuel) (a ∷ []) (b ∷ []) n h hx hy e =
        inl (cc (e, top_one sha256 (suc fuel) a, top_one sha256 (suc fuel) b))
    top-injective (suc fuel) (a ∷ b ∷ xs) (c ∷ d ∷ ys) n h hx hy e =
        let up = next_level sha256 (a ∷ b ∷ xs) in
        let up' = next_level sha256 (c ∷ d ∷ ys) in
        elim (top-injective fuel up up'
          (omega
            (arith, length-next_level sha256 (a ∷ b ∷ xs), length-next_level sha256 (c ∷ d ∷ ys)))
          (omega (arith, length-next_level sha256 (a ∷ b ∷ xs))) (next_level-digests (a ∷ b ∷ xs))
          (next_level-digests (c ∷ d ∷ ys))
          (sym (top_more sha256 fuel (a ∷ b ∷ xs) (omega arith))
            ∙ e
            ∙ top_more sha256 fuel (c ∷ d ∷ ys) (omega arith))) [
              | inl same ↦ elim (next_level-injective (a ∷ b ∷ xs) (c ∷ d ∷ ys) n hx hy same) [
                | inl equal ↦ inl equal
                | inr found ↦ inr (
                    Collision-append (paired (a ∷ b ∷ xs)) (paired (c ∷ d ∷ ys)) (hashed fuel up)
                      (hashed fuel up') found)
              ]
              | inr found ↦ inr (
                  Collision-after (paired (a ∷ b ∷ xs)) (paired (c ∷ d ∷ ys)) (hashed fuel up)
                    (hashed fuel up') found)
            ]
    top-injective _ _ _ n h hx hy e = absurd (omega arith)

    -- Two lists of as many digests with the same Merkle root are equal, or the two trees give away a
    -- collision: a text that is hashed in the one and a different text that is hashed in the other
    -- have the same digest. Every digest has 64 characters.
    pub merkle_root-injective :
        (xs ys : List String)
        → length xs ≡ length ys
        → All IsDigest xs
        → All IsDigest ys
        → merkle_root sha256 xs ≡ merkle_root sha256 ys
        → (xs ≡ ys) ⊎ Collision (hashed (length xs) xs) (hashed (length ys) ys)
    merkle_root-injective [] [] n hx hy e = inl refl
    merkle_root-injective (x ∷ xs) (y ∷ ys) n hx hy e =
        subst
          (λ k.
            (x ∷ xs ≡ y ∷ ys) ⊎ Collision (hashed (length (x ∷ xs)) (x ∷ xs)) (hashed k (y ∷ ys)))
          n
          (top-injective (length (x ∷ xs)) (x ∷ xs) (y ∷ ys) n (omega arith) hx hy (
            sym (merkle_root-top sha256 (x ∷ xs) (omega arith))
            ∙ e
            ∙ merkle_root-top sha256 (y ∷ ys) (omega arith)
            ∙ ap (λ k. top sha256 k (y ∷ ys)) (sym n)))
    merkle_root-injective _ _ n hx hy e = absurd (omega arith)
