-- ===== src/Lifecycle.antt =====
-- ecn/transaction.py: the record of a transaction and the states it goes through. The clock is an
-- argument; amounts of money are floats and only kept.
mod Order
mod Tests
use ecn.Common.{
  ℕ, String, Bool, true, false, Option, none, some, List, [], ◌∷◌, if◌then◌else◌, Result, ok, raise,
}
use ecn.Common.Int.{ℤ, pos_part}
use ecn.Common.Text.{str_eq}

pub data TxState : Type 0 where
  initiated executing proposed consensus_pending finalized billed replicated : TxState

unfoldable pub TxState-discrete : Discrete TxState
TxState-discrete = hlevel

-- `new_state == state`
abbrev pub state_eq : TxState → TxState → Bool
state_eq a b = elim (TxState-discrete a b) [ yes _ ↦ true | no _ ↦ false ]

-- `_VALID_TRANSITIONS[state]`
unfoldable pub valid_transitions : TxState → List TxState
valid_transitions initiated = executing ∷ []
valid_transitions executing = proposed ∷ []
valid_transitions proposed = consensus_pending ∷ []
valid_transitions consensus_pending = finalized ∷ []
valid_transitions finalized = billed ∷ []
valid_transitions billed = replicated ∷ []
valid_transitions replicated = []

-- `new_state in allowed`
unfoldable pub allows : TxState → List TxState → Bool
allows new_state [] = false
allows new_state (s ∷ states) = if state_eq new_state s then true else allows new_state states

pub record InvalidTransition : Type 0 where
  pub current : TxState
  pub requested : TxState

-- The time when a transition is made: `_utcnow()`, and the milliseconds since a time, none where that
-- one does not parse.
pub record Clock : Type 0 where
  pub utcnow : String
  pub milliseconds_since : String → Option ℤ

module _ (Money : Type 0) where
  pub record TransactionRecord : Type 0 where
    pub tx_id : String
    pub tenant_id : String
    pub state : TxState
    pub node_count : ℕ
    pub consensus_reached : Bool
    pub fault_count : ℕ
    pub duration_ms : ℕ
    pub billed_amount : Money
    pub created_at : String
    pub finalized_at : Option String

  -- `new_record`, with the zero of the amounts, the time and a fresh `uuid4`. An empty `tx_id` counts
  -- as none.
  unfoldable pub new_record :
      Money → String → String → String → Option String → ℕ → TransactionRecord
  new_record zero_amount utcnow uuid tenant_id tx_id node_count = record {
    tx_id = elim tx_id [ none ↦ uuid | some given ↦ if str_eq given "" then uuid else given ];
    tenant_id = tenant_id;
    state = initiated;
    node_count = node_count;
    consensus_reached = false;
    fault_count = 0;
    duration_ms = 0;
    billed_amount = zero_amount;
    created_at = utcnow;
    finalized_at = none;
  }

  -- The updates of a transition, the `state` apart.
  unfoldable pub finalize : Clock → TransactionRecord → TransactionRecord
  finalize clock r = record r {
    finalized_at = some clock.utcnow;
    duration_ms = elim (clock.milliseconds_since r.created_at) [
      | none ↦ r.duration_ms
      | some ms ↦ pos_part ms
    ];
  }

  unfoldable pub transition :
      Clock → TransactionRecord → TxState → Result InvalidTransition TransactionRecord
  transition clock r new_state =
      if allows new_state (valid_transitions r.state)
      then ok (
          if state_eq new_state finalized
          then record (finalize clock r) { state = new_state }
          else record r { state = new_state })
      else raise (record { current = r.state; requested = new_state })
