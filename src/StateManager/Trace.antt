-- ===== src/StateManager/Trace.antt =====
-- The execution trace: a chain of hashes from the initial state to the present one, whose
-- transactions, run again, lead to the same state.
use ecn.Common.{
  String, ◌≡◌, refl, sym, ap, ◌∙◌, inl, inr, Bool, some, List, [], ◌∷◌, ◌++◌, map, map-append,
  arith, Result, ok, raise, ◌>>=◌, Result-cases, accepted,
}
use ecn.World.{State, Transaction, Error}
use ecn.Execution.{run_transaction}
use ecn.StateManager.{
  Digest, StateManager, TraceEntry, init, apply_transaction, state_hash, compute_state_hash,
  compute_diff,
}

-- Running a list of transactions from a state.
unfoldable pub replay : State → List Transaction → Result Error State
replay s [] = ok s
replay s (tx ∷ txs) = do s' ← run_transaction s tx; replay s' txs

-- Each entry begins at the hash at which the one before it ended.
abbrev pub IsLinked : String → List TraceEntry → String → Type 0
IsLinked h [] h' = h ≡ h'
IsLinked h (e ∷ es) h' = (e.old_hash ≡ h) × IsLinked e.new_hash es h'

abbrev pub transactions : List TraceEntry → List Transaction
transactions = map (λ e. e.tx)

replay-append :
    (s : State) (txs : List Transaction) (tx : Transaction) {t : State}
    → replay s txs ≡ ok t
    → replay s (txs ++ tx ∷ []) ≡ run_transaction t tx
unfolding replay
replay-append s [] tx h = ground arith
replay-append s (x ∷ txs) tx h =
    let (s1, e) = accepted (run_transaction s x) (λ c n. ground arith) in
    rw e (replay-append s1 txs tx (rw e at h))

IsLinked-append :
    (h h' : String) (es : List TraceEntry) (e : TraceEntry)
    → IsLinked h es h'
    → e.old_hash ≡ h'
    → IsLinked h (es ++ e ∷ []) e.new_hash
IsLinked-append h h' [] e l p = (p ∙ sym l, refl)
IsLinked-append h h' (x ∷ es) e l p = (l.0, IsLinked-append x.new_hash h' es e l.1 p)

module _ (digest : Digest) (start : State) (use_merkle : Bool) where
  -- What the trace of a manager that began at `start` says.
  pub record IsTraced (m : StateManager) : Type 0 where
    pub same_mode : m.use_merkle ≡ use_merkle
    pub linked : IsLinked (state_hash digest use_merkle start) m.trace (compute_state_hash digest m)
    pub replayed : replay start (transactions m.trace) ≡ ok m.state

  pub init-IsTraced : IsTraced (init (some start) use_merkle)
  unfolding init replay
  init-IsTraced = record { same_mode = refl; linked = refl; replayed = refl }

  -- The manager after a transaction that led to the state `n`.
  abbrev extended : StateManager → Transaction → State → StateManager
  extended m tx n = record m {
    state = n;
    trace =
        m.trace
        ++ record {
          tx = tx;
          old_hash = compute_state_hash digest m;
          new_hash = state_hash digest m.use_merkle n;
          diff = compute_diff m.state n;
        }
          ∷ [];
  }

  extended-IsTraced :
      (m : StateManager) (tx : Transaction) (n : State)
      → IsTraced m
      → run_transaction m.state tx ≡ ok n
      → IsTraced (extended m tx n)
  extended-IsTraced m tx n t ran = record {
    same_mode = t.same_mode;
    linked =
        IsLinked-append (state_hash digest use_merkle start) (compute_state_hash digest m) m.trace _
          t.linked refl;
    replayed =
        ap (replay start) (map-append (λ e. e.tx) m.trace _)
        ∙ replay-append start (transactions m.trace) tx t.replayed
        ∙ ran;
  }

  apply_transaction-extended :
      (m m' : StateManager) (tx : Transaction) (s n : State)
      → apply_transaction digest m tx ≡ ok (m', s)
      → run_transaction m.state tx ≡ ok n
      → (m' ≡ extended m tx n) × (s ≡ n)
  unfolding apply_transaction
  apply_transaction-extended m m' tx s n e ran = (ground arith, ground arith)

  -- What the engine refuses the manager refuses.
  apply_transaction-refused :
      (m : StateManager) (tx : Transaction) (c : Error)
      → run_transaction m.state tx ≡ raise c
      → apply_transaction digest m tx ≡ raise c
  unfolding apply_transaction
  apply_transaction-refused m tx c r = rw r

  -- Every accepted transaction extends the chain by one link, and the trace by the transaction.
  pub apply_transaction-IsTraced :
      (m m' : StateManager) (tx : Transaction) (s : State)
      → IsTraced m
      → apply_transaction digest m tx ≡ ok (m', s)
      → IsTraced m' × (run_transaction m.state tx ≡ ok s) × (s ≡ m'.state)
  apply_transaction-IsTraced m m' tx s t e = elim (Result-cases (run_transaction m.state tx)) [
    | inl (n, ran) ↦
        let (made, given) = apply_transaction-extended m m' tx s n e ran in
        (
          (rw made (extended-IsTraced m tx n t ran)),
          rw given ran,
          given ∙ sym (ap (λ (x : StateManager). x.state) made),
        )
    | inr (c, refused) ↦ absurd (cc (e, apply_transaction-refused m tx c refused))
  ]
