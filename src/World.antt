-- ===== src/World.antt =====
-- The data that every node keeps and executes on: the `State` and `Transaction` dictionaries of
-- ecn/execution_engine.py, with the keys that the handlers of that file and of
-- ecn/use_cases/supply_chain.py read and write. A key that may be missing is an `Option`.
use ecn.Common.{Bool, Option, List, String, Result}
use ecn.Common.Int.{ℤ}
use ecn.Common.Dict.{Dict}

-- `product["status"]`
pub data Status : Type 0 where
  manufactured in_transit at_customs quarantined delivered : Status

pub Status-discrete : Discrete Status
Status-discrete = hlevel

pub record Product : Type 0 where
  pub status : Status
  pub location : String
  pub owner : String
  pub checks : List String
  pub quarantine_reason : Option String

pub record State : Type 0 where
  pub balances : Option (Dict ℤ)
  pub products : Option (Dict Product)

-- A transaction, after `TransactionRequest.to_ecn_tx`: only the fields that were given are there.
pub record Transaction : Type 0 where
  pub type : Option String
  pub from : Option String
  pub to : Option String
  pub amount : Option ℤ
  pub product_id : Option String
  pub destination : Option String
  pub shipper : Option String
  pub receiver : Option String
  pub at_customs : Option Bool
  pub check_name : Option String
  pub inspector : Option String
  pub reason : Option String
  pub released_by : Option String

-- What `execute` raises: a `KeyError` with its key, or a `ValueError`, one constructor for each
-- message, with the values that the message shows.
pub data Error : Type 0 where
  key_error : String → Error
  unknown_type : Option String → Error
  transfer_not_positive mint_not_positive burn_not_positive : ℤ → Error
  sender_not_found receiver_not_found account_not_found product_not_found : String → Error
  insufficient_funds insufficient_to_burn : String → ℤ → ℤ → Error
  cannot_ship cannot_receive : String → Status → Error
  already_quarantined not_quarantined : String → Error

-- `execute(state, tx)` and each handler: the new state, or what is raised.
abbrev pub Handler : Type 0
Handler = State → Transaction → Result Error State
