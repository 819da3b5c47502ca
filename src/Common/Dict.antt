-- ===== src/Common/Dict.antt =====
-- A Python dict whose keys are texts: an association list in insertion order.
use Prim.Native.String.{String}
use mathlib.Core.Path.{◌≡◌, refl, ◌∙◌, sym}
use mathlib.Core.Logic.{inl, inr}
use mathlib.Core.Bool.{Bool, true, false}
use mathlib.Core.Option.{Option, none, some}
use mathlib.Core.List.{List, [], ◌∷◌, map}
use native.Mathlib.Omega.{arith}
use ecn.Common.Tests.{if◌then◌else◌}
use ecn.Common.Lists.{All}
use ecn.Common.Text.{str_eq, str_lt, eq_iff, str_lt_cases, str_lt_trans, str_lt_irrefl, str_eq_refl}

abbrev pub Dict {ℓ} : Type ℓ → Type ℓ
Dict V = List (String × V)

module _ {ℓ} {V : Type ℓ} where
  abbrev pub lookup : String → Dict V → Option V
  lookup k [] = none
  lookup k ((j, v) ∷ d) = if str_eq k j then some v else lookup k d

  -- `k in d`
  abbrev pub contains : String → Dict V → Bool
  contains k d = elim (lookup k d) [ none ↦ false | some _ ↦ true ]

  -- `d.get(k, default)`
  abbrev pub get_or : String → Dict V → V → V
  get_or k d default = elim (lookup k d) [ none ↦ default | some v ↦ v ]

  -- `d[k] = v`
  unfoldable pub insert : String → V → Dict V → Dict V
  insert k v [] = (k, v) ∷ []
  insert k v ((j, w) ∷ d) = if str_eq k j then (j, v) ∷ d else (j, w) ∷ insert k v d

  -- `del d[k]`
  unfoldable pub erase : String → Dict V → Dict V
  erase k [] = []
  erase k ((j, w) ∷ d) = if str_eq k j then erase k d else (j, w) ∷ erase k d

  abbrev pub keys : Dict V → List String
  keys = map (λ e. e.0)

  abbrev pub values : Dict V → List V
  values = map (λ e. e.1)

  pub lookup-insert :
      (j k : String) (v : V) (d : Dict V)
      → lookup j (insert k v d) ≡ (if str_eq j k then some v else lookup j d)
  unfolding insert
  lookup-insert j k v [] = refl
  lookup-insert j k v ((i, w) ∷ d) =
      ground (arith, eq_iff j k, eq_iff k i, eq_iff j i, lookup-insert j k v d)

  pub lookup-insert_ne :
      (j k : String) (v : V) (d : Dict V)
      → str_eq j k ≡ false
      → lookup j (insert k v d) ≡ lookup j d
  lookup-insert_ne j k v d ne = rw (lookup-insert j k v d, ne) refl

  pub get_or-insert :
      (j k : String) (v default : V) (d : Dict V)
      → get_or j (insert k v d) default ≡ (if str_eq j k then v else get_or j d default)
  get_or-insert j k v default d = ground (arith, lookup-insert j k v d)

  pub lookup-erase :
      (j k : String) (d : Dict V) → lookup j (erase k d) ≡ (if str_eq j k then none else lookup j d)
  unfolding erase
  lookup-erase j k [] = ground arith
  lookup-erase j k ((i, w) ∷ d) =
      ground (arith, eq_iff j k, eq_iff k i, eq_iff j i, lookup-erase j k d)

  -- `sorted(d.items())`, by insertion. Of two entries with one key the first counts, as it does
  -- for `lookup`.
  unfoldable pub insert_sorted : String → V → Dict V → Dict V
  insert_sorted k v [] = (k, v) ∷ []
  insert_sorted k v ((j, w) ∷ d) =
      if str_lt k j
      then (k, v) ∷ (j, w) ∷ d
      else (if str_eq k j then (k, v) ∷ d else (j, w) ∷ insert_sorted k v d)

  unfoldable pub sort_items : Dict V → Dict V
  sort_items [] = []
  sort_items ((k, v) ∷ d) = insert_sorted k v (sort_items d)

  -- Every key comes before the next ones.
  abbrev pub IsSorted : Dict V → Type 0
  IsSorted [] = Unit
  IsSorted ((k, v) ∷ d) = All (λ j. str_lt k j ≡ true) (keys d) × IsSorted d

  lookup-insert_sorted :
      (j k : String) (v : V) (d : Dict V)
      → lookup j (insert_sorted k v d) ≡ (if str_eq j k then some v else lookup j d)
  unfolding insert_sorted
  lookup-insert_sorted j k v [] = refl
  lookup-insert_sorted j k v ((i, w) ∷ d) =
      ground (arith, eq_iff j k, eq_iff k i, eq_iff j i, lookup-insert_sorted j k v d)

  -- Sorting changes nothing that can be read.
  pub lookup-sort_items : (j : String) (d : Dict V) → lookup j (sort_items d) ≡ lookup j d
  unfolding sort_items
  lookup-sort_items j [] = refl
  lookup-sort_items j ((k, v) ∷ d) =
      ground (arith, lookup-insert_sorted j k v (sort_items d), lookup-sort_items j d)

  All-lt_trans :
      (i k : String) (d : Dict V)
      → str_lt i k ≡ true
      → All (λ j. str_lt k j ≡ true) (keys d)
      → All (λ j. str_lt i j ≡ true) (keys d)
  All-lt_trans i k [] h a = tt
  All-lt_trans i k ((j, w) ∷ d) h a = (str_lt_trans i k j h a.0, All-lt_trans i k d h a.1)

  All-insert_sorted :
      (i k : String) (v : V) (d : Dict V)
      → str_lt i k ≡ true
      → All (λ j. str_lt i j ≡ true) (keys d)
      → All (λ j. str_lt i j ≡ true) (keys (insert_sorted k v d))
  unfolding insert_sorted
  All-insert_sorted i k v [] h a = (h, tt)
  All-insert_sorted i k v ((j, w) ∷ d) h a = ground (arith, All-insert_sorted i k v d h a.1)

  insert_sorted-IsSorted :
      (k : String) (v : V) (d : Dict V) → IsSorted d → IsSorted (insert_sorted k v d)
  unfolding insert_sorted
  insert_sorted-IsSorted k v [] s = (tt, tt)
  insert_sorted-IsSorted k v ((j, w) ∷ d) s = ground (
    arith,
    str_lt_cases k j,
    eq_iff k j,
    All-lt_trans k j d,
    All-insert_sorted j k v d,
    insert_sorted-IsSorted k v d s.1,
  )

  pub sort_items-IsSorted : (d : Dict V) → IsSorted (sort_items d)
  unfolding sort_items
  sort_items-IsSorted [] = tt
  sort_items-IsSorted ((k, v) ∷ d) =
      insert_sorted-IsSorted k v (sort_items d) (sort_items-IsSorted d)

  -- Before the first key there is nothing.
  lookup_before :
      (k : String) (d : Dict V) → All (λ j. str_lt k j ≡ true) (keys d) → lookup k d ≡ none
  lookup_before k [] a = refl
  lookup_before k ((j, w) ∷ d) a =
      ground (arith, eq_iff k j, str_lt_irrefl k, lookup_before k d a.1)

  lookup_head : (k : String) (v : V) (d : Dict V) → lookup k ((k, v) ∷ d) ≡ some v
  lookup_head k v d = rw str_eq_refl

  -- The entries behind equal keys agree where the dictionaries do.
  lookup_tail :
      (i k j : String) (v w : V) (d e : Dict V)
      → k ≡ j
      → All (λ x. str_lt k x ≡ true) (keys d)
      → All (λ x. str_lt j x ≡ true) (keys e)
      → lookup i ((k, v) ∷ d) ≡ lookup i ((j, w) ∷ e)
      → lookup i d ≡ lookup i e
  lookup_tail i k j v w d e same ad ae h =
      ground (arith, eq_iff i k, eq_iff i j, lookup_before k d ad, lookup_before j e ae)

  lookup_heads :
      (k j : String) (v w : V) (d e : Dict V)
      → k ≡ j
      → lookup k ((k, v) ∷ d) ≡ lookup k ((j, w) ∷ e)
      → v ≡ w
  lookup_heads k j v w d e same h = ground (arith, eq_iff k j, eq_iff k k)

  -- A sorted dictionary is determined by what can be read from it.
  pub IsSorted-ext :
      (d e : Dict V) → IsSorted d → IsSorted e → ((k : String) → lookup k d ≡ lookup k e) → d ≡ e
  IsSorted-ext [] [] sd se h = refl
  IsSorted-ext [] ((j, w) ∷ e) sd se h = cc (h j, lookup_head j w e)
  IsSorted-ext ((k, v) ∷ d) [] sd se h = cc (h k, lookup_head k v d)
  IsSorted-ext ((k, v) ∷ d) ((j, w) ∷ e) sd se h = elim (str_lt_cases k j) [
    | inl lt ↦
        cc (h k, lookup_head k v d, lookup_before k ((j, w) ∷ e) (lt, All-lt_trans k j e lt se.0))
    | inr (inr gt) ↦
        cc (h j, lookup_head j w e, lookup_before j ((k, v) ∷ d) (gt, All-lt_trans j k d gt sd.0))
    | inr (inl same) ↦ cc (
      same,
      lookup_heads k j v w d e same (h k),
      IsSorted-ext d e sd.1 se.1 (λ i. lookup_tail i k j v w d e same sd.0 se.0 (h i)),
    )
  ]

  -- Two dictionaries that hold the same mapping, in whatever order, have the same sorted items.
  pub sort_items-ext :
      (d e : Dict V) → ((k : String) → lookup k d ≡ lookup k e) → sort_items d ≡ sort_items e
  sort_items-ext d e h =
      IsSorted-ext (sort_items d) (sort_items e) (sort_items-IsSorted d) (sort_items-IsSorted e)
        (λ k. lookup-sort_items k d ∙ h k ∙ sym (lookup-sort_items k e))
