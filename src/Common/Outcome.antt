-- ===== src/Common/Outcome.antt =====
-- The outcome of code that may raise, over the exceptions `E` of a component.
use mathlib.Core.Path.{◌≡◌, refl}
use mathlib.Core.Logic.{◌⊎◌, inl, inr}
use mathlib.Core.Bool.{Bool, true, false}
use mathlib.Core.Option.{Option, none, some}

pub data Result {ℓ} (E : Type 0) (A : Type ℓ) : Type ℓ where
  ok : A → Result E A
  raise : E → Result E A

infixl 5 ◌>>=◌ ◌>>◌
-- What comes after a statement runs on its value, and an exception skips it.
abbrev pub ◌>>=◌ {ℓ κ} :
    {E : Type 0} {A : Type ℓ} {B : Type κ} → Result E A → (A → Result E B) → Result E B
raise e >>= rest = raise e
ok a >>= rest = rest a

abbrev pub ◌>>◌ {ℓ} : {E : Type 0} {B : Type ℓ} → Result E (Unit {0}) → Result E B → Result E B
raise e >> rest = raise e
ok _ >> rest = rest

-- `if not b: raise e`
abbrev pub guard : {E : Type 0} → Bool → E → Result E (Unit {0})
guard true e = ok tt
guard false e = raise e

-- A value that may be missing, or the exception that its absence raises.
abbrev pub or_raise {ℓ} : {E : Type 0} {A : Type ℓ} → Option A → E → Result E A
or_raise none e = raise e
or_raise (some a) e = ok a

pub Result-cases {ℓ} :
    {E : Type 0} {A : Type ℓ} (r : Result E A) → ((a : A) × (r ≡ ok a)) ⊎ ((e : E) × (r ≡ raise e))
Result-cases (ok a) = inl (a, refl)
Result-cases (raise e) = inr (e, refl)

-- The value of an outcome that cannot be an exception.
pub accepted {ℓ} :
    {E : Type 0} {A : Type ℓ} (r : Result E A) → ((e : E) → r ≡ raise e → ⊥) → (a : A) × (r ≡ ok a)
accepted (ok a) h = (a, refl)
accepted (raise e) h = absurd (h e refl)
