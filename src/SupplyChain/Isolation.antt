-- ===== src/SupplyChain/Isolation.antt =====
-- What a supply-chain handler leaves alone: the balances, and every product but the named one.
use ecn.Common.{String, ◌≡◌, ◌≢◌, Option, none, some, arith, ok}
use ecn.Common.Dict.{lookup, lookup-insert}
use ecn.Common.Text.{eq_iff}
use ecn.World.{quarantined, Product, State, Transaction, Handler}
use ecn.SupplyChain.{
  products_of, handle_ship, handle_receive, handle_inspect, handle_quarantine, handle_release,
}

abbrev pub KeepsBalances : Handler → Type 0
KeepsBalances h = (s s' : State) (tx : Transaction) → h s tx ≡ ok s' → s'.balances ≡ s.balances

-- A handler that touches only the product that the transaction names.
abbrev pub IsLocal : Handler → Type 0
IsLocal h =
    (s s' : State) (tx : Transaction) (k : String)
    → h s tx ≡ ok s'
    → tx.product_id ≢ some k
    → lookup k (products_of s') ≡ lookup k (products_of s)

-- A quarantined product is still there, and left as it is, but for its checks.
abbrev pub IsHeld : Option Product → Option Product → Type 0
IsHeld (some p) (some q) =
    p.status ≡ quarantined
    → (q.status ≡ quarantined)
      × (q.location ≡ p.location)
      × (q.owner ≡ p.owner)
      × (q.quarantine_reason ≡ p.quarantine_reason)
IsHeld (some p) none = p.status ≢ quarantined
IsHeld none _ = Unit

abbrev pub HandlerHolds : Handler → Type 0
HandlerHolds h =
    (s s' : State) (tx : Transaction) (k : String)
    → h s tx ≡ ok s'
    → IsHeld (lookup k (products_of s)) (lookup k (products_of s'))

pub ship-KeepsBalances : KeepsBalances handle_ship
unfolding handle_ship
ship-KeepsBalances s s' tx h = ground arith

pub ship-IsLocal : IsLocal handle_ship
unfolding handle_ship
ship-IsLocal s s' tx k h n = grind (arith, lookup-insert, eq_iff)

pub ship-Holds : HandlerHolds handle_ship
unfolding handle_ship
ship-Holds s s' tx k h = grind (arith, lookup-insert, eq_iff)

pub receive-KeepsBalances : KeepsBalances handle_receive
unfolding handle_receive
receive-KeepsBalances s s' tx h = ground arith

pub receive-IsLocal : IsLocal handle_receive
unfolding handle_receive
receive-IsLocal s s' tx k h n = grind (arith, lookup-insert, eq_iff)

pub receive-Holds : HandlerHolds handle_receive
unfolding handle_receive
receive-Holds s s' tx k h = grind (arith, lookup-insert, eq_iff)

pub inspect-KeepsBalances : KeepsBalances handle_inspect
unfolding handle_inspect
inspect-KeepsBalances s s' tx h = ground arith

pub inspect-IsLocal : IsLocal handle_inspect
unfolding handle_inspect
inspect-IsLocal s s' tx k h n = grind (arith, lookup-insert, eq_iff)

pub inspect-Holds : HandlerHolds handle_inspect
unfolding handle_inspect
inspect-Holds s s' tx k h = grind (arith, lookup-insert, eq_iff)

pub quarantine-KeepsBalances : KeepsBalances handle_quarantine
unfolding handle_quarantine
quarantine-KeepsBalances s s' tx h = ground arith

pub quarantine-IsLocal : IsLocal handle_quarantine
unfolding handle_quarantine
quarantine-IsLocal s s' tx k h n = grind (arith, lookup-insert, eq_iff)

pub quarantine-Holds : HandlerHolds handle_quarantine
unfolding handle_quarantine
quarantine-Holds s s' tx k h = grind (arith, lookup-insert, eq_iff)

pub release-KeepsBalances : KeepsBalances handle_release
unfolding handle_release
release-KeepsBalances s s' tx h = ground arith

pub release-IsLocal : IsLocal handle_release
unfolding handle_release
release-IsLocal s s' tx k h n = grind (arith, lookup-insert, eq_iff)
