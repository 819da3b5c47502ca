-- ===== src/Execution/Custody.antt =====
-- The products that the whole engine keeps account of.
use ecn.Common.{String, ◌≡◌, refl, ap, ◌∙◌, ◌≢◌, false, Option, none, some, arith, All, ok}
use ecn.Common.Dict.{lookup}
use ecn.Common.Text.{str_eq, str_ne}
use ecn.World.{Product, State, Transaction, Handler}
use ecn.Engine.{handle_transfer, handle_mint, handle_burn}
use ecn.SupplyChain.{products_of}
use ecn.SupplyChain.Lifecycle.{
  Advances, Advances-refl, HandlerAdvances, ship-Advances, receive-Advances, inspect-Advances,
  quarantine-Advances, release-Advances,
}
use ecn.SupplyChain.Isolation.{
  IsLocal, IsHeld, HandlerHolds, ship-IsLocal, receive-IsLocal, inspect-IsLocal, quarantine-IsLocal,
  release-IsLocal, ship-Holds, receive-Holds, inspect-Holds, quarantine-Holds,
}
use ecn.Execution.{all_handlers, run_transaction}
use ecn.Execution.Dispatch.{execute-All}

abbrev KeepsProducts : Handler → Type 0
KeepsProducts h = (s s' : State) (tx : Transaction) → h s tx ≡ ok s' → s'.products ≡ s.products

transfer-KeepsProducts : KeepsProducts handle_transfer
unfolding handle_transfer
transfer-KeepsProducts s s' tx h = ground arith

mint-KeepsProducts : KeepsProducts handle_mint
unfolding handle_mint
mint-KeepsProducts s s' tx h = ground arith

burn-KeepsProducts : KeepsProducts handle_burn
unfolding handle_burn
burn-KeepsProducts s s' tx h = ground arith

-- What each handler does to the product behind a key, together with its name.
record Keeps (t : String) (h : Handler) : Type 0 where
  advances : HandlerAdvances h
  local : IsLocal h
  holds : str_eq t "release" ≡ false → HandlerHolds h

IsHeld-refl : (o : Option Product) → IsHeld o o
IsHeld-refl none = tt
IsHeld-refl (some p) = λ e. (e, refl, refl, refl)

same_products : (s s' : State) → s'.products ≡ s.products → products_of s' ≡ products_of s
same_products s s' e = ground arith

KeepsProducts-Keeps : (t : String) (h : Handler) → KeepsProducts h → Keeps t h
KeepsProducts-Keeps t h k = record {
  advances = λ s s' tx j e.
      rw (same_products s s' (k s s' tx e)) (Advances-refl (lookup j (products_of s)));
  local = λ s s' tx j e n. rw (same_products s s' (k s s' tx e));
  holds = λ n s s' tx j e.
      rw (same_products s s' (k s s' tx e)) (IsHeld-refl (lookup j (products_of s)));
}

all_handlers-Keep : All (λ e. Keeps e.0 e.1) all_handlers
unfolding all_handlers
all_handlers-Keep = (
  KeepsProducts-Keeps _ _ transfer-KeepsProducts,
  (
    KeepsProducts-Keeps _ _ mint-KeepsProducts,
    (
      KeepsProducts-Keeps _ _ burn-KeepsProducts,
      (
        record { advances = ship-Advances; local = ship-IsLocal; holds = λ n. ship-Holds },
        (
          record {
            advances = receive-Advances;
            local = receive-IsLocal;
            holds = λ n. receive-Holds;
          },
          (
            record {
              advances = inspect-Advances;
              local = inspect-IsLocal;
              holds = λ n. inspect-Holds;
            },
            (
              record {
                advances = quarantine-Advances;
                local = quarantine-IsLocal;
                holds = λ n. quarantine-Holds;
              },
              (
                record {
                  advances = release-Advances;
                  local = release-IsLocal;
                  holds = λ n. absurd (cc);
                },
                tt,
              ),
            ),
          ),
        ),
      ),
    ),
  ),
)

-- An accepted transaction moves no product but along the life cycle, adds none and removes none,
-- keeps each consistent, and touches only the product that it names.
pub run_transaction-Advances :
    (s s' : State) (tx : Transaction) (k : String)
    → run_transaction s tx ≡ ok s'
    → Advances (lookup k (products_of s)) (lookup k (products_of s'))
      × (tx.product_id ≢ some k → lookup k (products_of s') ≡ lookup k (products_of s))
unfolding run_transaction
run_transaction-Advances s s' tx k e =
    let (t, h, et, keeps, eh) = execute-All Keeps all_handlers s s' tx all_handlers-Keep e in
    (keeps.advances s s' tx k eh, λ n. keeps.local s s' tx k eh n)

-- A quarantined product stays: it is there after every accepted transaction that is not a release,
-- quarantined still, where it was, with its owner and its reason.
pub run_transaction-IsHeld :
    (s s' : State) (tx : Transaction) (k : String)
    → run_transaction s tx ≡ ok s'
    → tx.type ≢ some "release"
    → IsHeld (lookup k (products_of s)) (lookup k (products_of s'))
unfolding run_transaction
run_transaction-IsHeld s s' tx k e n =
    let (t, h, et, keeps, eh) = execute-All Keeps all_handlers s s' tx all_handlers-Keep e in
    keeps.holds (str_ne t "release" (λ same. n (et ∙ ap some same))) s s' tx k eh
