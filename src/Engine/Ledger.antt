-- ===== src/Engine/Ledger.antt =====
-- What the handlers of the engine do to the balances: exact effects, conservation, refusals.
use ecn.Common.{⊤, String, ◌≡◌, ◌≢◌, Option, none, some, arith, if◌then◌else◌, ok}
use ecn.Common.Int.{ℤ, pos, ◌+ℤ◌, ◌-ℤ◌, ◌≤ℤ◌, int_laws}
use ecn.Common.Text.{str_eq, eq_iff}
use ecn.Common.Dict.{Dict, lookup, get_or, insert, lookup-insert}
use ecn.World.{State, Transaction}
use ecn.Engine.{handle_transfer, handle_mint, handle_burn}
use ecn.Engine.Balances.{total, IsNonnegative, lookup_nonneg, insert-IsNonnegative, total-insert}

-- An amount leaves one account and reaches another, which may be the same; all others are kept.
-- The equation is on each account's balance, with what it loses and what it gains.
abbrev pub Moves : (x y : String) (a : ℤ) (d d' : Dict ℤ) → Type 0
Moves x y a d d' =
    (k : String)
    → get_or k d' (pos 0) +ℤ (if str_eq k x then a else pos 0)
      ≡ get_or k d (pos 0) +ℤ (if str_eq k y then a else pos 0)

-- The sum of all balances; a state without balances holds none.
abbrev pub supply : State → ℤ
supply s = elim s.balances [ none ↦ pos 0 | some b ↦ total b ]

-- The amount that a transaction carries.
abbrev pub amount_of : Transaction → ℤ
amount_of tx = elim tx.amount [ none ↦ pos 0 | some a ↦ a ]

abbrev pub IsSolvent : State → Type 0
IsSolvent s = elim s.balances [ none ↦ ⊤ | some b ↦ IsNonnegative b ]

-- Whether a balance covers an amount.
abbrev Covers : ℤ → Option ℤ → Type 0
Covers a none = ⊥
Covers a (some funds) = a ≤ℤ funds

-- What a transfer, a burn and a mint must meet to be accepted.
abbrev TransferAllowed : Option String → Option String → Option ℤ → Option (Dict ℤ) → Type 0
TransferAllowed (some x) (some y) (some a) (some b) =
    (pos 1 ≤ℤ a) × Covers a (lookup x b) × (lookup y b ≢ none)
TransferAllowed _ _ _ _ = ⊥

handle_transfer-Allowed :
    (s : State) (tx : Transaction) {s' : State}
    → handle_transfer s tx ≡ ok s'
    → TransferAllowed tx.from tx.to tx.amount s.balances
unfolding handle_transfer
handle_transfer-Allowed s tx h = ground arith

pub handle_transfer-total :
    (s : State) (tx : Transaction) {s' : State}
    → handle_transfer s tx ≡ ok s'
    → supply s' ≡ supply s
unfolding handle_transfer
handle_transfer-total s tx h = grind (int_laws, total-insert, lookup-insert)

-- An accepted transfer keeps every balance at zero or more.
pub handle_transfer-IsSolvent :
    (s : State) (tx : Transaction) {s' : State}
    → IsSolvent s
    → handle_transfer s tx ≡ ok s'
    → IsSolvent s'
unfolding handle_transfer
handle_transfer-IsSolvent s tx v h =
    grind (int_laws, insert-IsNonnegative, lookup_nonneg, lookup-insert)

-- A mint raises the sum by its amount, and a burn lowers it.
pub handle_mint-total :
    (s : State) (tx : Transaction) {s' : State}
    → handle_mint s tx ≡ ok s'
    → supply s' ≡ supply s +ℤ amount_of tx
unfolding handle_mint
handle_mint-total s tx h = grind (int_laws, total-insert)

pub handle_mint-IsSolvent :
    (s : State) (tx : Transaction) {s' : State}
    → IsSolvent s
    → handle_mint s tx ≡ ok s'
    → IsSolvent s'
unfolding handle_mint
handle_mint-IsSolvent s tx v h = grind (int_laws, insert-IsNonnegative, lookup_nonneg)

pub handle_burn-total :
    (s : State) (tx : Transaction) {s' : State}
    → handle_burn s tx ≡ ok s'
    → supply s' ≡ supply s -ℤ amount_of tx
unfolding handle_burn
handle_burn-total s tx h = grind (int_laws, total-insert)

pub handle_burn-IsSolvent :
    (s : State) (tx : Transaction) {s' : State}
    → IsSolvent s
    → handle_burn s tx ≡ ok s'
    → IsSolvent s'
unfolding handle_burn
handle_burn-IsSolvent s tx v h = grind (int_laws, insert-IsNonnegative, lookup_nonneg)

-- Between two accounts with the funds for it, a transfer is accepted, and it moves the amount.
pub handle_transfer-Moves :
    (s : State) (tx : Transaction) (x y : String) (a funds credit : ℤ) (b : Dict ℤ)
    → tx.from ≡ some x
    → tx.to ≡ some y
    → tx.amount ≡ some a
    → s.balances ≡ some b
    → lookup x b ≡ some funds
    → lookup y b ≡ some credit
    → pos 1 ≤ℤ a
    → a ≤ℤ funds
    → (b' : Dict ℤ) × (handle_transfer s tx ≡ ok (record s { balances = some b' }))
      × Moves x y a b b'
unfolding handle_transfer
handle_transfer-Moves s tx x y a funds credit b ex ey ea eb ef ec p q =
    let debited = insert x (funds -ℤ a) b in
    (
      insert y (get_or y debited (pos 0) +ℤ a) debited,
      grind (int_laws, lookup-insert),
      λ k. grind (int_laws, lookup-insert, eq_iff),
    )
