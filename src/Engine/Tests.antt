-- ===== src/Engine/Tests.antt =====
-- Runs of the engine's handlers and the theorems at concrete inputs.
use ecn.Common.{◌≡◌, refl, none, some, [], ◌∷◌, arith, ok, raise}
use ecn.Common.Int.{ℤ, pos, ◌+ℤ◌, ◌-ℤ◌}
use ecn.Common.Dict.{Dict, insert}
use ecn.World.{State, Transaction, insufficient_funds, unknown_type}
use ecn.Engine.{execute, builtin_handlers, handle_transfer}
use ecn.Engine.Ledger.{Moves, handle_transfer-Moves}
use ecn.Samples.{blank}

abbrev accounts : Dict ℤ
accounts = ("A", pos 1000) ∷ ("B", pos 500) ∷ []

abbrev bank : State
bank = record { balances = some accounts; products = none }

abbrev payment : Transaction
payment = record blank {
  type = some "transfer";
  from = some "A";
  to = some "B";
  amount = some (pos 100);
}

execute-payment :
    execute builtin_handlers bank payment
    ≡ ok (record bank { balances = some (("A", pos 900) ∷ ("B", pos 600) ∷ []) })
unfolding execute handle_transfer insert ◌+ℤ◌ ◌-ℤ◌
execute-payment = refl

execute-overdraft :
    execute builtin_handlers bank (record payment { amount = some (pos 1001) })
    ≡ raise (insufficient_funds "A" (pos 1000) (pos 1001))
unfolding execute handle_transfer
execute-overdraft = refl

execute-unknown :
    execute builtin_handlers bank (record payment { type = some "stake" })
    ≡ raise (unknown_type (some "stake"))
unfolding execute
execute-unknown = refl

-- Both accounts of the payment, and the amount that moves.
handle_transfer-Moves_example :
    (b : Dict ℤ) × (handle_transfer bank payment ≡ ok (record bank { balances = some b }))
    × Moves "A" "B" (pos 100) accounts b
handle_transfer-Moves_example =
    handle_transfer-Moves bank payment "A" "B" (pos 100) (pos 1000) (pos 500) accounts refl refl
      refl refl refl refl (omega arith) (omega arith)
