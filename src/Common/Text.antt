-- ===== src/Common/Text.antt =====
-- Texts as keys: the equality and the order of Python's `str`, which goes by code points, as the
-- order of the native texts does.
use Prim.Native.Nat.{Ordering}
use Prim.Native.String.{String, compare}
use Prim.Native.String.compare as Compare
use mathlib.Core.Path.{◌≡◌, refl}
use mathlib.Core.Bool.{Bool, true, false, ◌||◌}
use mathlib.Core.List.{List, [], ◌∷◌, ◌++◌}
use mathlib.Core.Logic.{◌≢◌, ◌⊎◌, inl, inr}
use native.Mathlib.Omega.{arith}
use text.Mathlib.TextEquality.{path_by_compare}
pub use text.Mathlib.Text.{◌==◌ as str_eq}
pub use text.Mathlib.TextEquality.{eq_iff}
use text.Mathlib.TextPositions.{compare_refl, eq_refl}

abbrev pub str_lt : String → String → Bool
str_lt s t = elim (compare s t) [ Ordering.lt ↦ true | _ ↦ false ]

-- The opposite answer.
abbrev pub flip : Ordering → Ordering
flip Ordering.lt = Ordering.gt
flip Ordering.eq = Ordering.eq
flip Ordering.gt = Ordering.lt

compare-flip : (s t : String) → compare t s ≡ flip (compare s t)
compare-flip String.[] String.[] = refl
compare-flip String.[] (String.◌∷◌ d t) = rw (Compare.cons-nil, Compare.nil-cons)
compare-flip (String.◌∷◌ c s) String.[] = rw (Compare.cons-nil, Compare.nil-cons)
compare-flip (String.◌∷◌ c s) (String.◌∷◌ d t) =
    simp (Compare.cons-cons, compare-flip s t) (ground arith)

not-compare-nil : (s : String) → compare s String.[] ≢ Ordering.lt
not-compare-nil String.[] h = cc
not-compare-nil (String.◌∷◌ c s) h = cc (Compare.cons-nil c s)

compare_trans :
    (s t u : String)
    → compare s t ≡ Ordering.lt
    → compare t u ≡ Ordering.lt
    → compare s u ≡ Ordering.lt
compare_trans s String.[] u h k = absurd (not-compare-nil s h)
compare_trans String.[] t (String.◌∷◌ e u) h k = Compare.nil-cons e u
compare_trans s t String.[] h k = absurd (not-compare-nil t k)
compare_trans (String.◌∷◌ c s) (String.◌∷◌ d t) (String.◌∷◌ e u) h k =
    rw Compare.cons-cons (
      ground (arith, (rw Compare.cons-cons at h), (rw Compare.cons-cons at k), compare_trans s t u))

lt_of_test : (s t : String) → str_lt s t ≡ true → compare s t ≡ Ordering.lt
lt_of_test s t h = ground arith

pub str_lt_irrefl : (s : String) → str_lt s s ≡ false
str_lt_irrefl s = rw (compare_refl, str_lt)

pub str_lt_trans : (s t u : String) → str_lt s t ≡ true → str_lt t u ≡ true → str_lt s u ≡ true
str_lt_trans s t u h k = rw (compare_trans s t u (lt_of_test s t h) (lt_of_test t u k), str_lt)

-- Of two texts, one comes first or they are the same.
pub str_lt_cases : (s t : String) → (str_lt s t ≡ true) ⊎ (s ≡ t) ⊎ (str_lt t s ≡ true)
str_lt_cases s t = go (compare s t) refl
  where
    go : (o : Ordering) → compare s t ≡ o → (str_lt s t ≡ true) ⊎ (s ≡ t) ⊎ (str_lt t s ≡ true)
    go Ordering.lt e = inl (rw (e, str_lt))
    go Ordering.eq e = inr (inl (path_by_compare s t e))
    go Ordering.gt e = inr (inr (rw (compare-flip s t, e, str_lt)))

pub str_eq_refl : (s : String) → str_eq s s ≡ true
str_eq_refl s = eq_refl s

pub str_ne : (s t : String) → s ≢ t → str_eq s t ≡ false
str_ne s t h = ground (arith, eq_iff s t)

-- "Not before" is transitive.
pub str_ge_trans : (s t u : String) → str_lt t s ≡ false → str_lt u t ≡ false → str_lt u s ≡ false
str_ge_trans s t u h k = ground (arith, str_lt_cases s t, eq_iff s t, str_lt_trans u s t)

-- `k in l`
unfoldable pub listed : String → List String → Bool
listed k [] = false
listed k (a ∷ l) = str_eq k a || listed k l

pub listed-left :
    (a : String) (xs ys : List String) → listed a xs ≡ true → listed a (xs ++ ys) ≡ true
unfolding listed
listed-left a (x ∷ xs) ys h = ground (arith, h, listed-left a xs ys)
listed-left a [] ys h = absurd (cc)

pub listed-right :
    (a : String) (xs ys : List String) → listed a ys ≡ true → listed a (xs ++ ys) ≡ true
unfolding listed
listed-right a [] ys h = h
listed-right a (x ∷ xs) ys h = ground (arith, listed-right a xs ys h)
