-- ===== src/Execution/Tests.antt =====
-- Runs over the full registry, and the theorems at concrete inputs.
use ecn.Common.{String, ◌≡◌, refl, ◌≢◌, Option, none, some, [], ◌∷◌, arith}
use ecn.Common.Int.{pos, ◌+ℤ◌, ◌-ℤ◌}
use ecn.Common.Dict.{lookup, insert}
use ecn.Common.Text.{eq_iff}
use ecn.World.{State, Transaction, in_transit, quarantined}
use ecn.Engine.Ledger.{supply, IsSolvent}
use ecn.Engine.{execute, handle_mint}
use ecn.SupplyChain.{
  products_of, handle_ship, handle_quarantine, handle_release, new_product, make_initial_state,
}
use ecn.SupplyChain.Lifecycle.{Advances}
use ecn.SupplyChain.Isolation.{IsHeld}
use ecn.Execution.{all_handlers, run_transaction}
use ecn.Execution.Supply.{issued, run_transaction-supply}
use ecn.Execution.Custody.{run_transaction-Advances, run_transaction-IsHeld}
use ecn.Execution.Reach.{start, accept, IsSound, Run-IsSound, make_initial_state-IsSound}
use ecn.Samples.{blank, minting}

program : Unit {0}
unfolding run_transaction all_handlers execute handle_ship handle_quarantine handle_release
    handle_mint make_initial_state insert ◌+ℤ◌ ◌-ℤ◌
program = tt

abbrev shop : State
shop = record { balances = some (("A", pos 10) ∷ []); products = some (("P", new_product) ∷ []) }

abbrev richer : State
richer = record shop { balances = some (("A", pos 10) ∷ ("C", pos 50) ∷ []) }

run_transaction-supply_example :
    (t : String) × (minting.type ≡ some t)
    × (supply richer ≡ supply shop +ℤ issued t minting)
    × (IsSolvent shop → IsSolvent richer)
unfolding program
run_transaction-supply_example = run_transaction-supply shop richer minting refl

abbrev shipping : Transaction
shipping = record blank {
  type = some "ship";
  product_id = some "P";
  destination = some "Port";
  shipper = some "S";
}

abbrev shipped : State
shipped = record shop {
  products =
      some (("P", record new_product { status = in_transit; location = "Port"; owner = "S" }) ∷ []);
}

run_transaction-Advances_example :
    Advances (lookup "P" (products_of shop)) (lookup "P" (products_of shipped))
    × (shipping.product_id ≢ some "P"
        → lookup "P" (products_of shipped) ≡ lookup "P" (products_of shop))
unfolding program
run_transaction-Advances_example = run_transaction-Advances shop shipped shipping "P" refl

abbrev held : State
held = record shop {
  products =
      some (
        ("P", record new_product { status = quarantined; quarantine_reason = some "damage" }) ∷ []);
}

abbrev held_richer : State
held_richer = record held { balances = richer.balances }

-- While the product is held a mint goes through.
run_transaction-IsHeld_example :
    IsHeld (lookup "P" (products_of held)) (lookup "P" (products_of held_richer))
unfolding program
run_transaction-IsHeld_example =
    run_transaction-IsHeld held held_richer minting "P" refl (λ e. mint_not_release e)
  where
    mint_not_release : ◌≡◌ {A = Option String} (some "mint") (some "release") → ⊥
    mint_not_release e = ground (arith, eq_iff "mint" "release")

abbrev fresh : State
fresh = record { balances = none; products = some (("P", new_product) ∷ []) }

abbrev fresh_shipped : State
fresh_shipped = record fresh { products = shipped.products }

-- From the initial state with one product, by one shipment.
Run-IsSound_example : IsSound fresh_shipped
unfolding program
Run-IsSound_example =
    Run-IsSound (make_initial_state-IsSound ("P" ∷ [])) (accept shipping start refl)
