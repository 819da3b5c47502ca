-- ===== src/Execution/Supply.antt =====
-- The money that the whole engine keeps account of.
use ecn.Common.{String, ◌≡◌, refl, ◌∙◌, false, some, arith, if◌then◌else◌, All, ok}
use ecn.Common.Int.{ℤ, pos, ◌+ℤ◌, ◌-ℤ◌, int_laws}
use ecn.Common.Text.{str_eq}
use ecn.World.{State, Transaction, Handler}
use ecn.Engine.{handle_transfer, handle_mint, handle_burn}
use ecn.Engine.Ledger.{
  supply, amount_of, IsSolvent, handle_transfer-total, handle_mint-total, handle_burn-total,
  handle_transfer-IsSolvent, handle_mint-IsSolvent, handle_burn-IsSolvent,
}
use ecn.SupplyChain.Isolation.{
  KeepsBalances, ship-KeepsBalances, receive-KeepsBalances, inspect-KeepsBalances,
  quarantine-KeepsBalances, release-KeepsBalances,
}
use ecn.Execution.{all_handlers, run_transaction}
use ecn.Execution.Dispatch.{execute-All}

-- What a transaction adds to the supply, by its type: a mint its amount, a burn the negative.
abbrev pub issued : String → Transaction → ℤ
issued t tx =
    if str_eq t "mint"
    then amount_of tx
    else (if str_eq t "burn" then pos 0 -ℤ amount_of tx else pos 0)

Issues : String → Handler → Type 0
Issues t h =
    (s s' : State) (tx : Transaction)
    → h s tx ≡ ok s'
    → (supply s' ≡ supply s +ℤ issued t tx) × (IsSolvent s → IsSolvent s')

add_nothing : (a : ℤ) → a ≡ a +ℤ pos 0
add_nothing a = omega int_laws

add_negative : (a b : ℤ) → a -ℤ b ≡ a +ℤ (pos 0 -ℤ b)
add_negative a b = omega int_laws

KeepsBalances-Issues :
    (t : String) (h : Handler)
    → str_eq t "mint" ≡ false
    → str_eq t "burn" ≡ false
    → KeepsBalances h
    → Issues t h
unfolding Issues
KeepsBalances-Issues t h m b k s s' tx e =
    let kept : s'.balances ≡ s.balances = k s s' tx e in
    let same : supply s' ≡ supply s = ground arith in
    (rw (m, b) (same ∙ add_nothing (supply s)), λ v. ground arith)

transfer-Issues : Issues "transfer" handle_transfer
unfolding Issues
transfer-Issues s s' tx e =
    (handle_transfer-total s tx e ∙ add_nothing (supply s), λ v. handle_transfer-IsSolvent s tx v e)

mint-Issues : Issues "mint" handle_mint
unfolding Issues
mint-Issues s s' tx e = (handle_mint-total s tx e, λ v. handle_mint-IsSolvent s tx v e)

burn-Issues : Issues "burn" handle_burn
unfolding Issues
burn-Issues s s' tx e = (
  handle_burn-total s tx e ∙ add_negative (supply s) (amount_of tx),
  λ v. handle_burn-IsSolvent s tx v e,
)

all_handlers-Issues : All (λ e. Issues e.0 e.1) all_handlers
unfolding all_handlers
all_handlers-Issues = (
  transfer-Issues,
  (
    mint-Issues,
    (
      burn-Issues,
      (
        KeepsBalances-Issues _ _ refl refl ship-KeepsBalances,
        (
          KeepsBalances-Issues _ _ refl refl receive-KeepsBalances,
          (
            KeepsBalances-Issues _ _ refl refl inspect-KeepsBalances,
            (
              KeepsBalances-Issues _ _ refl refl quarantine-KeepsBalances,
              (KeepsBalances-Issues _ _ refl refl release-KeepsBalances, tt),
            ),
          ),
        ),
      ),
    ),
  ),
)

-- An accepted transaction changes the sum of all balances by what its type issues and by nothing
-- else, and it leaves no balance negative if none was.
pub run_transaction-supply :
    (s s' : State) (tx : Transaction)
    → run_transaction s tx ≡ ok s'
    → (t : String) × (tx.type ≡ some t)
      × (supply s' ≡ supply s +ℤ issued t tx)
      × (IsSolvent s → IsSolvent s')
unfolding run_transaction Issues
run_transaction-supply s s' tx e =
    let (t, h, et, issues, eh) = execute-All Issues all_handlers s s' tx all_handlers-Issues e in
    let (moved, solvent) = issues s s' tx eh in (t, et, moved, solvent)
