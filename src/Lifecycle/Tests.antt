-- ===== src/Lifecycle/Tests.antt =====
-- The life of one record, at concrete inputs.
use ecn.Common.{ℕ, ◌≤◌, ◌≡◌, refl, none, some, List, [], ◌∷◌}
use ecn.Common.Int.{pos}
use ecn.Lifecycle.{
  TxState, TxState-discrete, executing, proposed, consensus_pending, finalized, billed,
  valid_transitions, allows, Clock, TransactionRecord, new_record, finalize, transition,
}
use ecn.Lifecycle.Order.{rank, entries, transition_all-new_record}

program : Unit {0}
unfolding valid_transitions allows new_record finalize transition TxState-discrete
program = tt

abbrev clock : Clock
clock = record { utcnow = "later"; milliseconds_since = λ t. some (pos 7) }

abbrev fresh : TransactionRecord ℕ
fresh = new_record ℕ 0 "now" "uuid" "acme" none 5

abbrev path : List (Clock × TxState)
path =
    (clock, executing)
    ∷ (clock, proposed)
    ∷ (clock, consensus_pending)
    ∷ (clock, finalized)
    ∷ (clock, billed)
    ∷ []

abbrev bill : TransactionRecord ℕ
bill = record fresh { state = billed; finalized_at = some "later"; duration_ms = 7 }

transition_all-new_record_example : (rank bill.state ≡ 5) × (5 ≤ 6) × (entries ℕ billed path ≡ 1)
unfolding program
transition_all-new_record_example =
    transition_all-new_record ℕ 0 "now" "uuid" "acme" none 5 path bill refl
