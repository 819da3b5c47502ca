-- ===== src/Execution.antt =====
-- The engine as the API runs it: `execute` over the registry that holds the handlers of
-- ecn/execution_engine.py and those that `register_supply_chain_handlers` adds.
pub mod Dispatch
pub mod Supply
pub mod Custody
pub mod Reach
mod Tests
use ecn.Common.{Result}
use ecn.World.{State, Transaction, Error}
use ecn.Engine.{Handlers, builtin_handlers, execute}
use ecn.SupplyChain.{register_supply_chain_handlers}

-- `_HANDLERS` once ecn/api.py or ecn/tenant.py is imported.
unfoldable pub all_handlers : Handlers
unfolding register_supply_chain_handlers
all_handlers = register_supply_chain_handlers builtin_handlers

unfoldable pub run_transaction : State → Transaction → Result Error State
run_transaction = execute all_handlers
