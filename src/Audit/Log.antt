-- ===== src/Audit/Log.antt =====
-- The log as a sequence of numbered rounds.
use ecn.Common.{
  ℕ, zero, suc, ◌+◌, ◌≤◌, ◌<◌, String, ◌≡◌, refl, ◌⊎◌, inl, inr, Bool, true, none, some, List, [],
  ◌∷◌, ◌++◌, arith, ltb, Bool-cases, length, get_elem?, keep, length-append,
}
use ecn.Common.Dict.{get_or, lookup-insert}
use ecn.Common.Text.{str_eq, eq_iff}
use ecn.World.{Transaction}
use ecn.Consensus.{NodeResult, ConsensusResult}
use ecn.Audit.{
  AuditEvent, AuditLog, has_fault, new_event, record_round, get_event, all_faulty, count_faults,
  summary,
}

-- The rounds are numbered one after the other, from the number after `n` on.
abbrev pub IsNumbered : ℕ → AuditLog → Type 0
IsNumbered n [] = Unit
IsNumbered n (e ∷ log) = (e.round_id ≡ n + 1) × IsNumbered (n + 1) log

IsNumbered-append :
    (n : ℕ) (log : AuditLog) (e : AuditEvent)
    → IsNumbered n log
    → e.round_id ≡ n + length log + 1
    → IsNumbered n (log ++ e ∷ [])
IsNumbered-append n [] e numbered here = (omega (arith, here), tt)
IsNumbered-append n (x ∷ log) e numbered here =
    (numbered.0, IsNumbered-append (n + 1) log e numbered.1 (omega (arith, here)))

get_elem?-IsNumbered :
    (n : ℕ) (log : AuditLog) (i : ℕ)
    → IsNumbered n log
    → i < length log
    → (e : AuditEvent) × (get_elem? log i ≡ some e) × (e.round_id ≡ n + i + 1)
get_elem?-IsNumbered n [] i numbered lt = absurd (omega (arith, lt))
get_elem?-IsNumbered n (x ∷ log) zero numbered lt = (x, refl, omega (arith, numbered.0))
get_elem?-IsNumbered n (x ∷ log) (suc i) numbered lt =
    let (e, found, number) = get_elem?-IsNumbered (n + 1) log i numbered.1 (omega (arith, lt)) in
    (e, found, omega (arith, number))

get_elem?-append :
    {A : Type 0} (l m : List A) (i : ℕ) → i < length l → get_elem? (l ++ m) i ≡ get_elem? l i
get_elem?-append [] m i lt = absurd (omega (arith, lt))
get_elem?-append (x ∷ l) m zero lt = refl
get_elem?-append (x ∷ l) m (suc i) lt = get_elem?-append l m i (omega (arith, lt))

get_elem?-last : {A : Type 0} (l : List A) (x : A) → get_elem? (l ++ x ∷ []) (length l) ≡ some x
get_elem?-last [] x = refl
get_elem?-last (y ∷ l) x = get_elem?-last l x

get_event-last :
    (log : AuditLog) (e : AuditEvent) → get_event (length log + 1) (log ++ e ∷ []) ≡ some e
unfolding get_event
get_event-last log e =
    let next : length log + 1 ≡ suc (length log) = omega arith in
    let room : ltb (length log) (length (log ++ e ∷ [])) ≡ true =
      ground (arith, length-append log (e ∷ [])) in
    rw (next, room) (get_elem?-last log e)

get_event-earlier :
    (log : AuditLog) (e : AuditEvent) (k : ℕ)
    → k ≤ length log
    → get_event k (log ++ e ∷ []) ≡ get_event k log
unfolding get_event
get_event-earlier log e zero le = refl
get_event-earlier log e (suc i) le =
    ground (arith, le, length-append log (e ∷ []), get_elem?-append log (e ∷ []) i)

module _ (log : AuditLog) (timestamp : String) (tx : Transaction) (results : List NodeResult)
    (c : ConsensusResult) where
  abbrev after : AuditLog
  after = (record_round log timestamp tx results c).0

  -- Recording a round keeps the rounds numbered, the new event is found under the number that it
  -- carries, and every earlier round reads as before.
  pub record_round-get_event :
      IsNumbered 0 log
      → IsNumbered 0 after
        × (get_event (record_round log timestamp tx results c).1.round_id after
            ≡ some (record_round log timestamp tx results c).1)
        × ((k : ℕ) → k ≤ length log → get_event k after ≡ get_event k log)
  unfolding record_round new_event
  record_round-get_event numbered =
      let e = new_event log timestamp tx results c in
      (
        IsNumbered-append 0 log e numbered (omega arith),
        get_event-last log e,
        get_event-earlier log e,
      )

-- In a numbered log, a lookup finds the event of that number for every round from 1 to the number
-- of rounds, and nothing for any other number.
pub get_event-IsNumbered :
    (log : AuditLog) (k : ℕ)
    → IsNumbered 0 log
    → ((0 < k)
        × (k ≤ length log)
        × ((e : AuditEvent) × (get_event k log ≡ some e) × (e.round_id ≡ k)))
      ⊎ (((k ≡ 0) ⊎ (length log < k)) × (get_event k log ≡ none))
unfolding get_event
get_event-IsNumbered log zero numbered = inr (inl refl, refl)
get_event-IsNumbered log (suc idx) numbered = elim (Bool-cases (ltb idx (length log))) [
  | inl inside ↦
      let (e, found, number) = get_elem?-IsNumbered 0 log idx numbered (ground (arith, inside)) in
      inl (omega arith, ground (arith, inside), (e, rw inside found, omega (arith, number)))
  | inr outside ↦ inr (inr (ground (arith, outside)), rw outside refl)
]

-- How often a name stands in a list.
abbrev pub occurrences : String → List String → ℕ
occurrences n names = length (keep (str_eq n) names)

counted : (n : String) (names : List String) → get_or n (count_faults names) 0 ≡ occurrences n names
unfolding count_faults
counted n [] = refl
counted n (m ∷ names) = ground (
  arith,
  lookup-insert n m (get_or m (count_faults names) 0 + 1) (count_faults names),
  counted n names,
  counted m names,
  eq_iff n m,
  eq_iff m n,
)

keep-le : (p : AuditEvent → Bool) (l : AuditLog) → length (keep p l) ≤ length l
keep-le p [] = omega arith
keep-le p (x ∷ l) = ground (arith, keep-le p l)

-- The summary counts for each node the rounds' mentions of it as faulty, and no count of rounds
-- exceeds the number of rounds.
pub summary-counts :
    (log : AuditLog) (n : String)
    → (get_or n (summary log).fault_counts 0 ≡ occurrences n (all_faulty log))
      × ((summary log).fault_rounds ≤ (summary log).total_rounds)
      × ((summary log).consensus_failure_rounds ≤ (summary log).total_rounds)
unfolding summary
summary-counts log n = (counted n (all_faulty log), keep-le has_fault log, keep-le _ log)
