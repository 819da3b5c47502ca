-- ===== src/Engine/Balances.antt =====
-- The sum of the balances, and what an update of one account does to it.
use ecn.Common.{◌≡◌, some, [], ◌∷◌, String, arith, All}
use ecn.Common.Int.{ℤ, pos, ◌+ℤ◌, ◌≤ℤ◌, int_laws}
use ecn.Common.Dict.{Dict, lookup, insert, get_or}

unfoldable pub total : Dict ℤ → ℤ
total [] = pos 0
total ((k, v) ∷ d) = v +ℤ total d

-- No balance is negative.
abbrev pub IsNonnegative : Dict ℤ → Type 0
IsNonnegative = All (λ e. pos 0 ≤ℤ e.1)

pub lookup_nonneg :
    (k : String) (v : ℤ) (d : Dict ℤ) → IsNonnegative d → lookup k d ≡ some v → pos 0 ≤ℤ v
lookup_nonneg k v [] h e = cc
lookup_nonneg k v ((j, w) ∷ d) h e = ground (arith, lookup_nonneg k v d h.1)

pub insert-IsNonnegative :
    (k : String) (v : ℤ) (d : Dict ℤ) → IsNonnegative d → pos 0 ≤ℤ v → IsNonnegative (insert k v d)
unfolding insert
insert-IsNonnegative k v [] h p = (p, tt)
insert-IsNonnegative k v ((j, w) ∷ d) h p = ground (arith, insert-IsNonnegative k v d h.1 p)

-- Whether the account is old or new, the sum moves by the change of its balance.
pub total-insert :
    (k : String) (v : ℤ) (d : Dict ℤ) → total (insert k v d) +ℤ get_or k d (pos 0) ≡ total d +ℤ v
unfolding total insert
total-insert k v [] = omega int_laws
total-insert k v ((j, w) ∷ d) = grind (int_laws, total-insert k v d)
