-- ===== src/SupplyChain/Checks.antt =====
-- The list of passed checks: sorted, with no name twice.
use ecn.Common.{String, ◌≡◌, refl, true, false, ◌||◌, List, [], ◌∷◌, ◌++◌, arith, All}
use ecn.Common.Text.{str_eq, str_lt, eq_iff, str_lt_irrefl, str_lt_trans, str_lt_cases}
use ecn.SupplyChain.{has_check, insert_check, sort_checks, add_check}

abbrev pub IsSortedList : List String → Type 0
IsSortedList [] = Unit
IsSortedList (c ∷ cs) = All (λ d. str_lt c d ≡ true) cs × IsSortedList cs

All-lt_trans :
    (b c : String) (cs : List String)
    → str_lt b c ≡ true
    → All (λ d. str_lt c d ≡ true) cs
    → All (λ d. str_lt b d ≡ true) cs
All-lt_trans b c [] h a = tt
All-lt_trans b c (d ∷ cs) h a = (str_lt_trans b c d h a.0, All-lt_trans b c cs h a.1)

All-insert_check :
    (b name : String) (cs : List String)
    → str_lt b name ≡ true
    → All (λ d. str_lt b d ≡ true) cs
    → All (λ d. str_lt b d ≡ true) (insert_check name cs)
unfolding insert_check
All-insert_check b name [] h a = (h, tt)
All-insert_check b name (c ∷ cs) h a = ground (arith, All-insert_check b name cs h a.1)

insert_check-IsSortedList :
    (name : String) (cs : List String)
    → has_check name cs ≡ false
    → IsSortedList cs
    → IsSortedList (insert_check name cs)
unfolding has_check insert_check
insert_check-IsSortedList name [] h s = (tt, tt)
insert_check-IsSortedList name (c ∷ cs) h s = ground (
  arith,
  str_lt_cases name c,
  eq_iff name c,
  All-lt_trans name c cs,
  All-insert_check c name cs,
  insert_check-IsSortedList name cs,
)

insert_check_first :
    (c : String) (cs : List String) → All (λ d. str_lt c d ≡ true) cs → insert_check c cs ≡ c ∷ cs
unfolding insert_check
insert_check_first c [] a = refl
insert_check_first c (d ∷ cs) a = rw a.0

-- Sorting after the append is an insertion into the sorted list.
sort_checks-append :
    (name : String) (cs : List String)
    → IsSortedList cs
    → has_check name cs ≡ false
    → sort_checks (cs ++ name ∷ []) ≡ insert_check name cs
unfolding sort_checks insert_check has_check
sort_checks-append name [] s h = refl
sort_checks-append name (c ∷ cs) s h = rw (sort_checks-append name cs s.1 (ground arith)) (
    ground (
      arith,
      str_lt_cases name c,
      str_lt_cases c name,
      eq_iff name c,
      str_lt_trans c name c,
      str_lt_irrefl c,
      All-lt_trans name c cs,
      insert_check_first name cs,
      insert_check_first c cs,
      All-insert_check c name cs,
      insert_check_first c (insert_check name cs),
    ))

pub add_check-IsSortedList :
    (name : String) (cs : List String) → IsSortedList cs → IsSortedList (add_check name cs)
unfolding add_check
add_check-IsSortedList name cs s =
    ground (arith, sort_checks-append name cs, insert_check-IsSortedList name cs)

has_check-insert_check :
    (other name : String) (cs : List String)
    → has_check other (insert_check name cs) ≡ str_eq other name || has_check other cs
unfolding has_check insert_check
has_check-insert_check other name [] = refl
has_check-insert_check other name (c ∷ cs) = ground (arith, has_check-insert_check other name cs)

has_check-sort_checks :
    (other : String) (cs : List String) → has_check other (sort_checks cs) ≡ has_check other cs
unfolding has_check sort_checks
has_check-sort_checks other [] = refl
has_check-sort_checks other (c ∷ cs) = simp (has_check-insert_check, has_check-sort_checks other cs)

has_check-append :
    (other name : String) (cs : List String)
    → has_check other (cs ++ name ∷ []) ≡ str_eq other name || has_check other cs
unfolding has_check
has_check-append other name [] = refl
has_check-append other name (c ∷ cs) = ground (arith, has_check-append other name cs)

-- The check is on the list afterwards, and every other is there exactly if it was.
pub has_check-add_check :
    (other name : String) (cs : List String)
    → has_check other (add_check name cs) ≡ str_eq other name || has_check other cs
unfolding add_check
has_check-add_check other name cs = ground (
  arith,
  eq_iff other name,
  has_check-sort_checks other (cs ++ name ∷ []),
  has_check-append other name cs,
)
