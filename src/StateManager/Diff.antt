-- ===== src/StateManager/Diff.antt =====
-- The diff of a transaction: every account whose balance changed, with both values, and no other.
use ecn.Common.{
  String, ◌≡◌, refl, false, Option, none, some, List, [], ◌∷◌, ◌++◌, arith, if◌then◌else◌,
}
use ecn.Common.Int.{ℤ, pos, eqb_ℤ}
use ecn.Common.Dict.{Dict, lookup, contains, get_or, keys, sort_items, lookup-sort_items}
use ecn.Common.Text.{eq_iff, listed}
use ecn.World.{State}
use ecn.StateManager.{balances_of, diff_accounts, compute_diff}

-- What the diff should say of one account.
abbrev pub change : Dict ℤ → Dict ℤ → String → Option (ℤ × ℤ)
change old new k =
    if eqb_ℤ (get_or k old (pos 0)) (get_or k new (pos 0))
    then none
    else some (get_or k old (pos 0), get_or k new (pos 0))

lookup-diff_accounts :
    (old new : Dict ℤ) (k : String) (accounts : List String)
    → lookup k (diff_accounts old new accounts)
      ≡ (if listed k accounts then change old new k else none)
unfolding diff_accounts listed
lookup-diff_accounts old new k [] = refl
lookup-diff_accounts old new k (a ∷ accounts) =
    ground (arith, eq_iff k a, lookup-diff_accounts old new k accounts)

listed-keys {ℓ} : {V : Type ℓ} (k : String) (d : Dict V) → listed k (keys d) ≡ contains k d
unfolding listed
listed-keys k [] = refl
listed-keys k ((j, v) ∷ d) = ground (arith, listed-keys k d)

lookup-append {ℓ} :
    {V : Type ℓ} (k : String) (d e : Dict V)
    → lookup k (d ++ e) ≡ (if contains k d then lookup k d else lookup k e)
lookup-append k [] e = refl
lookup-append k ((j, v) ∷ d) e = ground (arith, lookup-append k d e)

contains-sort_items {ℓ} :
    {V : Type ℓ} (k : String) (d : Dict V) → contains k (sort_items d) ≡ contains k d
contains-sort_items k d = ground (arith, lookup-sort_items k d)

change_absent :
    (old new : Dict ℤ) (k : String) → contains k (old ++ new) ≡ false → change old new k ≡ none
change_absent old new k h = ground (arith, lookup-append k old new)

-- For every account the diff says whether its balance changed, a missing account counting as
-- zero: the old and the new balance where they differ, and nothing where they are equal.
pub lookup-compute_diff :
    (s t : State) (k : String)
    → lookup k (compute_diff s t) ≡ change (balances_of s) (balances_of t) k
unfolding compute_diff
lookup-compute_diff s t k =
    let old = balances_of s in
    let new = balances_of t in
    rw (lookup-diff_accounts, listed-keys, contains-sort_items)
      (ground (arith, change_absent old new k))
