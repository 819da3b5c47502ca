-- ===== src/Execution/Reach.antt =====
-- The states that a network can reach: from an initial state, by accepted transactions.
use ecn.Common.{
  String, ◌≡◌, refl, Bool, true, false, Option, none, some, List, [], ◌∷◌, if◌then◌else◌, ok,
}
use ecn.Common.Dict.{Dict, lookup, insert, lookup-insert}
use ecn.Common.Text.{str_eq}
use mathlib.Core.Path.{subst}
use ecn.World.{State, Product, Transaction}
use ecn.Engine.Ledger.{IsSolvent}
use ecn.SupplyChain.{products_of, new_product, initial_products, make_initial_state}
use ecn.SupplyChain.Lifecycle.{IsConsistent, Advances}
use ecn.Execution.{run_transaction}
use ecn.Execution.Custody.{run_transaction-Advances}
use ecn.Execution.Supply.{run_transaction-supply}

-- A sequence of accepted transactions.
pub data Run (s : State) : State → Type 0 where
  start : Run s s
  accept : {t u : State} (tx : Transaction) → Run s t → run_transaction t tx ≡ ok u → Run s u

-- Every product in the state is consistent, and no balance is negative.
pub record IsSound (s : State) : Type 0 where
  pub consistent : (k : String) (p : Product) → lookup k (products_of s) ≡ some p → IsConsistent p
  pub solvent : IsSolvent s

Advances-IsConsistent :
    (o : Option Product) (q : Product)
    → Advances o (some q)
    → ((p : Product) → o ≡ some p → IsConsistent p)
    → IsConsistent q
Advances-IsConsistent none q a h = absurd a
Advances-IsConsistent (some p) q a h = a.1 (h p refl)

-- Every accepted transaction keeps the state sound, and so does every run.
pub Run-IsSound : {s t : State} → IsSound s → Run s t → IsSound t
Run-IsSound h start = h
Run-IsSound {s} h (accept {t} {u} tx run e) =
    let before = Run-IsSound h run in
    record {
      consistent = λ k q found.
          Advances-IsConsistent (lookup k (products_of t)) q
            (rw found at ((run_transaction-Advances t u tx k e).0)) (before.consistent k);
      solvent = (run_transaction-supply t u tx e).3 before.solvent;
    }

new_product-IsConsistent : IsConsistent new_product
new_product-IsConsistent = record {
  reason_if = λ e. cc;
  reason_only_if = λ r. absurd (r refl);
  ordered = tt;
}

new_or_old :
    (b : Bool) (o : Option Product) (q : Product)
    → (if b then some new_product else o) ≡ some q
    → (o ≡ some q → IsConsistent q)
    → IsConsistent q
new_or_old true o q e h =
    let same : new_product ≡ q = cc in subst IsConsistent same new_product-IsConsistent
new_or_old false o q e h = h e

initial_products-lookup :
    (k : String) (p : Product) (ids : List String) (d : Dict Product)
    → ((q : Product) → lookup k d ≡ some q → IsConsistent q)
    → lookup k (initial_products ids d) ≡ some p
    → IsConsistent p
unfolding initial_products
initial_products-lookup k p [] d h e = h p e
initial_products-lookup k p (id ∷ ids) d h e =
    initial_products-lookup k p ids (insert id new_product d)
      (λ q f. new_or_old (str_eq k id) (lookup k d) q (rw lookup-insert at f) (h q)) e

-- The initial state of the supply chain is sound.
pub make_initial_state-IsSound : (ids : List String) → IsSound (make_initial_state ids)
unfolding make_initial_state
make_initial_state-IsSound ids = record {
  consistent = λ k p e. initial_products-lookup k p ids [] (λ q f. cc) e;
  solvent = tt;
}
