-- ===== src/Execution/Dispatch.antt =====
-- What `execute` does follows from what each registered handler does.
use ecn.Common.{String, ◌≡◌, inl, inr, some, [], ◌∷◌, arith, Bool-cases, need, All, ok}
use ecn.Common.Dict.{lookup}
use ecn.Common.Text.{str_eq, eq_iff}
use ecn.World.{State, Transaction, Handler}
use ecn.Engine.{Handlers, execute}

-- A property of the registered names and handlers holds of the one that is found.
lookup-All {κ} :
    (P : String → Handler → Type κ) (t : String) (h : Handler) (hs : Handlers)
    → All (λ e. P e.0 e.1) hs
    → lookup t hs ≡ some h
    → P t h
lookup-All P t h [] a e = absurd (cc)
lookup-All P t h ((j, w) ∷ hs) a e = elim (Bool-cases (str_eq t j)) [
  | inl same ↦
      let found : w ≡ h = ground (arith, same, e) in rw ((eq_iff t j).0 same, ← found) (a.0)
  | inr other ↦ lookup-All P t h hs a.1 (rw other at e)
]

-- An accepted transaction was accepted by a registered handler, under its own type.
pub execute-All {κ} :
    (P : String → Handler → Type κ) (hs : Handlers) (s s' : State) (tx : Transaction)
    → All (λ e. P e.0 e.1) hs
    → execute hs s tx ≡ ok s'
    → (t : String) × (h : Handler) × (tx.type ≡ some t) × P t h × (h s tx ≡ ok s')
unfolding execute
execute-All P hs s s' tx a e =
    let (t, et) = need tx.type (λ n. ground arith) in
    let (h, eh) = need (lookup t hs) (λ n. ground arith) in
    (t, h, et, lookup-All P t h hs a eh, ground arith)
