-- ===== src/Engine.antt =====
-- ecn/execution_engine.py: the transfer, mint and burn handlers, the registry of handlers and
-- `execute`. The registry `_HANDLERS` is a module-level dictionary that `register_handler` updates;
-- here it is passed along. `int(tx["amount"])` is the amount itself: the request model admits
-- integers only. A state is a value, so the deep copies need no model.
pub mod Balances
pub mod Ledger
mod Tests
use ecn.Common.{Option, none, some, [], ◌∷◌, String, Result, ok, ◌>>=◌, ◌>>◌, guard, or_raise}
use ecn.Common.Int.{pos, ◌+ℤ◌, ◌-ℤ◌, ltb_ℤ, leb_ℤ}
use ecn.Common.Dict.{Dict, lookup, contains, insert, get_or}
use ecn.World.{
  State, Transaction, Error, Handler, key_error, unknown_type, transfer_not_positive,
  mint_not_positive, burn_not_positive, sender_not_found, receiver_not_found, account_not_found,
  insufficient_funds, insufficient_to_burn,
}

-- `d[k]`
abbrev pub index {ℓ} : {V : Type ℓ} → String → Dict V → Result Error V
index k d = or_raise (lookup k d) (key_error k)

unfoldable pub handle_transfer : Handler
handle_transfer state tx = do
  sender ← or_raise tx.from (key_error "from")
  receiver ← or_raise tx.to (key_error "to")
  amount ← or_raise tx.amount (key_error "amount")
  guard (ltb_ℤ (pos 0) amount) (transfer_not_positive amount)
  balances ← or_raise state.balances (key_error "balances")
  guard (contains sender balances) (sender_not_found sender)
  guard (contains receiver balances) (receiver_not_found receiver)
  funds ← index sender balances
  guard (leb_ℤ amount funds) (insufficient_funds sender funds amount)
  let debited = insert sender (funds -ℤ amount) balances
  credit ← index receiver debited
  ok (record state { balances = some (insert receiver (credit +ℤ amount) debited) })

unfoldable pub handle_mint : Handler
handle_mint state tx = do
  receiver ← or_raise tx.to (key_error "to")
  amount ← or_raise tx.amount (key_error "amount")
  guard (ltb_ℤ (pos 0) amount) (mint_not_positive amount)
  balances ← or_raise state.balances (key_error "balances")
  ok (record state {
    balances = some (insert receiver (get_or receiver balances (pos 0) +ℤ amount) balances);
  })

unfoldable pub handle_burn : Handler
handle_burn state tx = do
  sender ← or_raise tx.from (key_error "from")
  amount ← or_raise tx.amount (key_error "amount")
  guard (ltb_ℤ (pos 0) amount) (burn_not_positive amount)
  balances ← or_raise state.balances (key_error "balances")
  guard (contains sender balances) (account_not_found sender)
  funds ← index sender balances
  guard (leb_ℤ amount funds) (insufficient_to_burn sender funds amount)
  ok (record state { balances = some (insert sender (funds -ℤ amount) balances) })

-- `_HANDLERS`
abbrev pub Handlers : Type 0
Handlers = Dict Handler

abbrev pub builtin_handlers : Handlers
builtin_handlers =
    ("transfer", handle_transfer) ∷ ("mint", handle_mint) ∷ ("burn", handle_burn) ∷ []

unfoldable pub register_handler : String → Handler → Handlers → Handlers
unfolding insert
register_handler tx_type handler handlers = insert tx_type handler handlers

-- `tx_type in _HANDLERS`, where `None` is no key, and the handler behind it.
abbrev pub find_handler : Handlers → Option String → Option Handler
find_handler handlers none = none
find_handler handlers (some tx_type) = lookup tx_type handlers

unfoldable pub execute : Handlers → State → Transaction → Result Error State
execute handlers state tx = do
  handler ← or_raise (find_handler handlers tx.type) (unknown_type tx.type)
  handler state tx
