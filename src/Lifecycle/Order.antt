-- ===== src/Lifecycle/Order.antt =====
-- The order of the states: a record moves one state forward at a time, and is billed once.
use ecn.Common.{
  ℕ, suc, ◌+◌, ◌≤◌, String, ◌≡◌, refl, sym, ap, ◌∙◌, ◌≢◌, ◌⊎◌, inl, inr, true, false, ◌&&◌, Option,
  some, List, [], ◌∷◌, arith, ltb, leb, ◌==◌, if◌then◌else◌, Bool-cases, length, Result, ok, raise,
  ◌>>=◌,
}
use ecn.Lifecycle.{
  TxState, TxState-discrete, initiated, executing, proposed, consensus_pending, finalized, billed,
  replicated, state_eq, valid_transitions, allows, InvalidTransition, Clock, TransactionRecord,
  new_record, finalize, transition,
}

abbrev pub rank : TxState → ℕ
rank initiated = 0
rank executing = 1
rank proposed = 2
rank consensus_pending = 3
rank finalized = 4
rank billed = 5
rank replicated = 6

unrank : ℕ → TxState
unrank n =
    if n == 0
    then initiated
    else (if n == 1
        then executing
        else (if n == 2
            then proposed
            else (if n == 3
                then consensus_pending
                else (if n == 4 then finalized else (if n == 5 then billed else replicated)))))

unrank-rank : (s : TxState) → unrank (rank s) ≡ s
unfolding unrank
unrank-rank initiated = refl
unrank-rank executing = refl
unrank-rank proposed = refl
unrank-rank consensus_pending = refl
unrank-rank finalized = refl
unrank-rank billed = refl
unrank-rank replicated = refl

rank-le : (s : TxState) → rank s ≤ 6
rank-le initiated = omega arith
rank-le executing = omega arith
rank-le proposed = omega arith
rank-le consensus_pending = omega arith
rank-le finalized = omega arith
rank-le billed = omega arith
rank-le replicated = omega arith

rank-injective : (s t : TxState) → rank s ≡ rank t → s ≡ t
rank-injective s t e = sym (unrank-rank s) ∙ ap unrank e ∙ unrank-rank t

state_eq-rank : (t s : TxState) → state_eq t s ≡ (rank t == rank s)
state_eq-rank t s =
    elim (TxState-discrete t s)
      as (λ d. (elim d [ yes _ ↦ true | no _ ↦ false ]) ≡ (rank t == rank s)) [
        | yes same ↦ rw same (ground arith)
        | no other ↦
            let unequal : rank t ≢ rank s = λ e. other (rank-injective t s e) in
            ground (arith, unequal)
      ]

allows-rank : (s t : TxState) → allows t (valid_transitions s) ≡ (rank t == rank s + 1)
unfolding allows valid_transitions
allows-rank initiated t = ground (arith, state_eq-rank t executing)
allows-rank executing t = ground (arith, state_eq-rank t proposed)
allows-rank proposed t = ground (arith, state_eq-rank t consensus_pending)
allows-rank consensus_pending t = ground (arith, state_eq-rank t finalized)
allows-rank finalized t = ground (arith, state_eq-rank t billed)
allows-rank billed t = ground (arith, state_eq-rank t replicated)
allows-rank replicated t = ground (arith, rank-le t)

module _ (Money : Type 0) where
  -- A transition succeeds exactly to the next state in the order. Then the record stands at that state
  -- and keeps its identity, and its date of finalization changes only on entering FINALIZED; else the
  -- error names both states.
  pub transition-cases :
      (clock : Clock) (r : TransactionRecord Money) (t : TxState)
      → ((rank t ≡ rank r.state + 1)
          × ((r' : TransactionRecord Money) × (transition Money clock r t ≡ ok r')
              × (r'.state ≡ t)
              × (r'.tx_id ≡ r.tx_id)
              × (r'.tenant_id ≡ r.tenant_id)
              × (r'.finalized_at
                  ≡ (if state_eq t finalized then some clock.utcnow else r.finalized_at))))
        ⊎ ((rank t ≢ rank r.state + 1)
            × (transition Money clock r t ≡ raise (record { current = r.state; requested = t })))
  unfolding transition finalize
  transition-cases clock r t = elim (Bool-cases (rank t == rank r.state + 1)) [
    | inl next ↦
        let allowed : allows t (valid_transitions r.state) ≡ true = allows-rank r.state t ∙ next in
        elim (Bool-cases (state_eq t finalized)) [
          | inl final ↦ inl (
            ground (arith, next),
            rw (allowed, final, transition) (_, refl, refl, refl, refl, refl),
          )
          | inr other ↦ inl (
            ground (arith, next),
            rw (allowed, other, transition) (_, refl, refl, refl, refl, refl),
          )
        ]
    | inr wrong ↦
        let refused : allows t (valid_transitions r.state) ≡ false =
          allows-rank r.state t ∙ wrong in
        inr (ground (arith, wrong), rw (refused, transition) refl)
  ]

  -- A list of transitions, one after the other.
  abbrev pub transition_all :
      TransactionRecord Money
      → List (Clock × TxState)
      → Result InvalidTransition (TransactionRecord Money)
  transition_all r [] = ok r
  transition_all r ((clock, t) ∷ ts) = do r' ← transition Money clock r t; transition_all r' ts

  -- How often a list of transitions enters a state.
  abbrev pub entries : TxState → List (Clock × TxState) → ℕ
  entries s [] = 0
  entries s ((clock, t) ∷ ts) = if state_eq t s then suc (entries s ts) else entries s ts

  transition_all-rank :
      (r r' : TransactionRecord Money) (ts : List (Clock × TxState))
      → transition_all r ts ≡ ok r'
      → (rank r'.state ≡ rank r.state + length ts)
        × (entries billed ts
            ≡ (if ltb (rank r.state) 5 && leb 5 (rank r.state + length ts) then 1 else 0))
  transition_all-rank r r' [] h =
      let same : r ≡ r' = ground (arith, h) in (rw same (omega arith), ground arith)
  transition_all-rank r r' ((clock, t) ∷ ts) h = elim (transition-cases clock r t) [
    | inl (next, (r1, moved, there, _, _, _)) ↦
        let onward : transition_all r1 ts ≡ ok r' = rw moved at h in
        let (reached, bills) = transition_all-rank r1 r' ts onward in
        let here : rank r1.state ≡ rank r.state + 1 = ap rank there ∙ next in
        (omega (arith, reached, here), ground (arith, bills, here, next, state_eq-rank t billed))
    | inr (wrong, refused) ↦ absurd (ground (arith, rw refused at h))
  ]

  -- From a new record, a list of transitions that all succeed leads as many states forward as it is
  -- long, so there are at most six of them, and it enters BILLED once if it has five or more and
  -- never if it has fewer.
  pub transition_all-new_record :
      (zero_amount : Money) (utcnow uuid tenant_id : String) (tx_id : Option String)
      (node_count : ℕ) (ts : List (Clock × TxState)) (r' : TransactionRecord Money)
      → transition_all (new_record Money zero_amount utcnow uuid tenant_id tx_id node_count) ts
        ≡ ok r'
      → (rank r'.state ≡ length ts)
        × (length ts ≤ 6)
        × (entries billed ts ≡ (if leb 5 (length ts) then 1 else 0))
  unfolding new_record
  transition_all-new_record zero_amount utcnow uuid tenant_id tx_id node_count ts r' h =
      let start = new_record Money zero_amount utcnow uuid tenant_id tx_id node_count in
      let (reached, bills) = transition_all-rank start r' ts h in
      (omega (arith, reached), omega (arith, reached, rank-le r'.state), ground (arith, bills))
