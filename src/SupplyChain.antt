-- ===== src/SupplyChain.antt =====
-- ecn/use_cases/supply_chain.py: the five handlers of the product life cycle, their registration
-- and the initial state. A product has the four keys that `make_initial_state` gives it;
-- `quarantine_reason` comes and goes.
pub mod Checks
pub mod Lifecycle
pub mod Isolation
mod Tests
use ecn.Common.{
  String, Bool, true, false, ◌||◌, not, Option, none, some, List, [], ◌∷◌, ◌++◌, if◌then◌else◌,
  Result, ok, ◌>>=◌, ◌>>◌, guard, or_raise,
}
use ecn.Common.Dict.{Dict, lookup, insert}
use ecn.Common.Text.{str_eq, str_lt}
use ecn.World.{
  Status, manufactured, in_transit, at_customs, quarantined, delivered, Product, State, Error,
  Handler, key_error, product_not_found, cannot_ship, cannot_receive, already_quarantined,
  not_quarantined,
}
use ecn.Engine.{Handlers, register_handler}

-- `a == b` and `a in (...)` on statuses.
abbrev pub status_eq : Status → Status → Bool
status_eq manufactured manufactured = true
status_eq in_transit in_transit = true
status_eq at_customs at_customs = true
status_eq quarantined quarantined = true
status_eq delivered delivered = true
status_eq _ _ = false

-- `state.get("products", {})`
abbrev pub products_of : State → Dict Product
products_of state = elim state.products [ none ↦ [] | some products ↦ products ]

unfoldable pub get_product : State → String → Result Error Product
get_product state product_id =
    or_raise (lookup product_id (products_of state)) (product_not_found product_id)

-- The product is an object inside the new state: what a handler sets on it is set there.
abbrev pub put_product : String → Product → State → State
put_product product_id product state = record state {
  products = some (insert product_id product (products_of state));
}

unfoldable pub handle_ship : Handler
unfolding get_product
handle_ship state tx = do
  product_id ← or_raise tx.product_id (key_error "product_id")
  destination ← or_raise tx.destination (key_error "destination")
  shipper ← or_raise tx.shipper (key_error "shipper")
  product ← get_product state product_id
  guard (not (status_eq product.status in_transit || status_eq product.status quarantined))
      (cannot_ship product_id product.status)
  ok (
      put_product product_id
        (record product { status = in_transit; location = destination; owner = shipper }) state)

-- `bool(tx.get("at_customs", False))`
abbrev pub flag : Option Bool → Bool
flag none = false
flag (some b) = b

unfoldable pub handle_receive : Handler
unfolding get_product
handle_receive state tx = do
  product_id ← or_raise tx.product_id (key_error "product_id")
  receiver ← or_raise tx.receiver (key_error "receiver")
  let customs = flag tx.at_customs
  product ← get_product state product_id
  guard (status_eq product.status in_transit) (cannot_receive product_id product.status)
  ok (
      put_product product_id
        (record product { status = if customs then at_customs else delivered; owner = receiver })
        state)

-- `check_name in checks`
unfoldable pub has_check : String → List String → Bool
has_check name [] = false
has_check name (c ∷ checks) = str_eq name c || has_check name checks

-- `checks.sort()` after an append, on a list of texts.
unfoldable pub insert_check : String → List String → List String
insert_check name [] = name ∷ []
insert_check name (c ∷ checks) =
    if str_lt name c then name ∷ c ∷ checks else c ∷ insert_check name checks

unfoldable pub sort_checks : List String → List String
sort_checks [] = []
sort_checks (c ∷ checks) = insert_check c (sort_checks checks)

unfoldable pub add_check : String → List String → List String
add_check name checks = if has_check name checks then checks else sort_checks (checks ++ name ∷ [])

unfoldable pub handle_inspect : Handler
unfolding get_product
handle_inspect state tx = do
  product_id ← or_raise tx.product_id (key_error "product_id")
  check_name ← or_raise tx.check_name (key_error "check_name")
  product ← get_product state product_id
  ok (
      put_product product_id (record product { checks = add_check check_name product.checks })
        state)

unfoldable pub handle_quarantine : Handler
unfolding get_product
handle_quarantine state tx = do
  product_id ← or_raise tx.product_id (key_error "product_id")
  reason ← or_raise tx.reason (key_error "reason")
  product ← get_product state product_id
  guard (not (status_eq product.status quarantined)) (already_quarantined product_id)
  ok (
      put_product product_id
        (record product { status = quarantined; quarantine_reason = some reason }) state)

unfoldable pub handle_release : Handler
unfolding get_product
handle_release state tx = do
  product_id ← or_raise tx.product_id (key_error "product_id")
  product ← get_product state product_id
  guard (status_eq product.status quarantined) (not_quarantined product_id)
  ok (
      put_product product_id (record product { status = at_customs; quarantine_reason = none })
        state)

unfoldable pub register_supply_chain_handlers : Handlers → Handlers
unfolding register_handler
register_supply_chain_handlers handlers = register_handler "release" handle_release (
    register_handler "quarantine" handle_quarantine (
      register_handler "inspect" handle_inspect
        (register_handler "receive" handle_receive (register_handler "ship" handle_ship handlers))))

abbrev pub new_product : Product
new_product = record {
  status = manufactured;
  location = "factory";
  owner = "manufacturer";
  checks = [];
  quarantine_reason = none;
}

-- The dictionary comprehension of `make_initial_state`: a repeated identifier is set again.
unfoldable pub initial_products : List String → Dict Product → Dict Product
initial_products [] products = products
initial_products (pid ∷ product_ids) products =
    initial_products product_ids (insert pid new_product products)

unfoldable pub make_initial_state : List String → State
unfolding initial_products
make_initial_state product_ids = record {
  balances = none;
  products = some (initial_products product_ids []);
}
