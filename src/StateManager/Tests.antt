-- ===== src/StateManager/Tests.antt =====
-- A manager that mints, and the theorems at concrete inputs.
use ecn.Common.{String, ◌≡◌, refl, true, false, some, [], ◌∷◌, arith, ok}
use ecn.Common.Int.{pos, ◌+ℤ◌, ◌-ℤ◌}
use ecn.Common.Dict.{lookup, insert, insert_sorted, sort_items}
use ecn.Common.Text.{eq_iff}
use ecn.World.{State}
use ecn.Engine.{execute, handle_mint}
use ecn.Execution.{all_handlers, run_transaction}
use ecn.StateManager.{
  merkle_hash, StateManager, init, balances_of, state_hash, diff_accounts, compute_diff,
  apply_transaction,
}
use ecn.StateManager.Trace.{IsTraced, init-IsTraced, apply_transaction-IsTraced}
use ecn.StateManager.Hash.{state_hash-ext}
use ecn.StateManager.Diff.{change, lookup-compute_diff}
use ecn.SupplyChain.{new_product}
use ecn.Samples.{bank, richer_bank, minting, digest}

program : Unit {0}
unfolding init execute handle_mint all_handlers run_transaction apply_transaction insert ◌+ℤ◌ ◌-ℤ◌
program = tt

abbrev before : StateManager
before = init (some bank) false

abbrev after : StateManager
after = record {
  state = richer_bank;
  use_merkle = false;
  trace =
      record {
        tx = minting;
        old_hash = state_hash digest false bank;
        new_hash = state_hash digest false richer_bank;
        diff = compute_diff bank richer_bank;
      }
      ∷ [];
}

apply_transaction-IsTraced_example :
    IsTraced digest bank false after
    × (run_transaction before.state minting ≡ ok richer_bank)
    × (richer_bank ≡ after.state)
unfolding program
apply_transaction-IsTraced_example =
    apply_transaction-IsTraced digest bank false before after minting richer_bank
      (init-IsTraced digest bank false) refl

minted : compute_diff bank richer_bank ≡ ("C", (pos 0, pos 50)) ∷ []
unfolding compute_diff diff_accounts sort_items insert_sorted
minted = refl

lookup-compute_diff_example :
    lookup "C" (compute_diff bank richer_bank)
    ≡ change (balances_of bank) (balances_of richer_bank) "C"
lookup-compute_diff_example = lookup-compute_diff bank richer_bank "C"

abbrev turned : State
turned = record bank { balances = some (("B", pos 500) ∷ ("A", pos 1000) ∷ []) }

same_entries :
    (k : String)
    → lookup k (("A", pos 1000) ∷ ("B", pos 500) ∷ [])
      ≡ lookup k (("B", pos 500) ∷ ("A", pos 1000) ∷ [])
same_entries k = ground (arith, eq_iff k "A", eq_iff k "B", eq_iff "A" "B")

state_hash-ext_example : state_hash digest false bank ≡ state_hash digest false turned
state_hash-ext_example = state_hash-ext digest false bank turned same_entries tt

abbrev stocked : State
stocked = record bank { products = some (("P", new_product) ∷ []) }

-- With `use_merkle` products leave no trace in the hash.
unseen : state_hash digest true bank ≡ state_hash digest true stocked
unfolding state_hash merkle_hash
unseen = refl
