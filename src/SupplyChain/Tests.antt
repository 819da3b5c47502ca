-- ===== src/SupplyChain/Tests.antt =====
-- The checks of a product, at concrete inputs.
use ecn.Common.{◌≡◌, refl, [], ◌∷◌}
use ecn.SupplyChain.{has_check, insert_check, sort_checks, add_check}

-- An inspection sorts the checks.
sorted : add_check "a" ("c" ∷ "b" ∷ []) ≡ "a" ∷ "b" ∷ "c" ∷ []
unfolding add_check has_check sort_checks insert_check
sorted = refl
