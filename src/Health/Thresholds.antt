-- ===== src/Health/Thresholds.antt =====
-- The thresholds of the health states, along every history of successes and failures.
use ecn.Common.{
  ℕ, ◌+◌, ◌≤◌, ◌<◌, String, ◌≡◌, refl, ◌⊎◌, inl, inr, Bool, ◌&&◌, ◌||◌, not, none, some, List, [],
  ◌∷◌, arith, ltb, leb, if◌then◌else◌, length,
}
use ecn.Common.Text.{str_eq}
use ecn.Common.Ring.{length-push}
use ecn.Health.{
  NodeState, healthy, suspect, excluded, rehabilitating, is_excluded, Clock, NodeHealth, new_health,
  advance, succeed, demote, fail,
}

-- What the state of a node says of its counter.
abbrev pub FitsState : NodeState → ℕ → Type 0
FitsState healthy n = n < 3
FitsState suspect n = n < 5
FitsState rehabilitating n = n ≡ 0
FitsState excluded n = Unit

pub NodeState-cases :
    (s : NodeState) → (s ≡ healthy) ⊎ (s ≡ suspect) ⊎ (s ≡ excluded) ⊎ (s ≡ rehabilitating)
NodeState-cases healthy = inl refl
NodeState-cases suspect = inr (inl refl)
NodeState-cases excluded = inr (inr (inl refl))
NodeState-cases rehabilitating = inr (inr (inr refl))

module _ (Latency : Type 0) (leb_latency : Latency → Latency → Bool) where
  abbrev Health : Type 0
  Health = NodeHealth Latency leb_latency

  pub record IsSound (h : Health) : Type 0 where
    pub fits : FitsState h.state h.consecutive_failures
    pub window : length h.latency_samples ≤ 20

  -- A call on one node.
  pub data Report : Type 0 where
    success : Clock → Latency → Report
    failure : Clock → Report

  abbrev pub apply : Health → Report → Health
  apply h (success clock latency) = succeed Latency leb_latency clock latency h
  apply h (failure clock) = fail Latency leb_latency clock h

  abbrev pub apply_all : Health → List Report → Health
  apply_all h [] = h
  apply_all h (r ∷ reports) = apply_all (apply h r) reports

  succeed-IsSound :
      (clock : Clock) (x : Latency) (h : Health)
      → IsSound h
      → IsSound (succeed Latency leb_latency clock x h)
  unfolding succeed advance
  succeed-IsSound clock x h sound = record {
    fits = ground (arith, sound.fits, NodeState-cases h.state);
    window = ground (arith, length-push 20 h.latency_samples x);
  }

  fail-IsSound :
      (clock : Clock) (h : Health) → IsSound h → IsSound (fail Latency leb_latency clock h)
  unfolding fail demote
  fail-IsSound clock h sound = record {
    fits = ground (arith, sound.fits, NodeState-cases h.state);
    window = ground (arith, sound.window);
  }

  -- Whatever is reported of a node, a healthy node has less than 3 failures in a row, a suspect one
  -- less than 5, a rehabilitating one none, and at most 20 latencies are kept.
  pub apply_all-IsSound :
      (reports : List Report) (h : Health) → IsSound h → IsSound (apply_all h reports)
  apply_all-IsSound [] h sound = sound
  apply_all-IsSound (success clock x ∷ reports) h sound =
      apply_all-IsSound reports _ (succeed-IsSound clock x h sound)
  apply_all-IsSound (failure clock ∷ reports) h sound =
      apply_all-IsSound reports _ (fail-IsSound clock h sound)

  -- A failure excludes a node that was not excluded exactly when it is the fifth in a row or a later
  -- one, and then the time is noted; an excluded node stays so, with the time of its exclusion.
  pub fail-excluded :
      (clock : Clock) (h : Health)
      → (let h' = fail Latency leb_latency clock h in
          (is_excluded h'.state ≡ (is_excluded h.state || leb 5 (h.consecutive_failures + 1)))
          × (h'.excluded_since ≡ (
              if is_excluded h.state
              then h.excluded_since
              else (if leb 5 (h.consecutive_failures + 1)
                  then some clock.utcnow
                  else h.excluded_since))))
  unfolding fail demote
  fail-excluded clock h = elim (NodeState-cases h.state) [
    | inl e ↦ ground (arith, e)
    | inr (inl e) ↦ ground (arith, e)
    | inr (inr (inl e)) ↦ ground (arith, e)
    | inr (inr (inr e)) ↦ ground (arith, e)
  ]

  abbrev pub failures : List Clock → List Report
  failures [] = []
  failures (clock ∷ clocks) = failure clock ∷ failures clocks

  -- The state after so many failures in a row.
  abbrev by_count : ℕ → NodeState
  by_count n = if ltb n 3 then healthy else (if ltb n 5 then suspect else excluded)

  fail-counts :
      (clock : Clock) (h : Health)
      → (fail Latency leb_latency clock h).consecutive_failures ≡ h.consecutive_failures + 1
  unfolding fail demote
  fail-counts clock h = ground (arith, NodeState-cases h.state)

  fail-by_count :
      (clock : Clock) (h : Health)
      → h.state ≡ by_count h.consecutive_failures
      → (fail Latency leb_latency clock h).state ≡ by_count (h.consecutive_failures + 1)
  unfolding fail demote
  fail-by_count clock h e = ground (arith, e, NodeState-cases h.state)

  failures-by_count :
      (clocks : List Clock) (h : Health)
      → h.state ≡ by_count h.consecutive_failures
      → (apply_all h (failures clocks)).state ≡ by_count (h.consecutive_failures + length clocks)
  failures-by_count [] h e = ground (arith, e)
  failures-by_count (clock ∷ clocks) h e =
      let counted : (fail Latency leb_latency clock h).consecutive_failures
          ≡ h.consecutive_failures + 1 =
        fail-counts clock h in
      let later =
        failures-by_count clocks (fail Latency leb_latency clock h)
          (rw counted (fail-by_count clock h e)) in
      ground (arith, later, counted)

  -- A new node is healthy after 0, 1 and 2 failures, suspect after 3 and 4, and excluded from the fifth
  -- on.
  pub state-failures :
      (node_id : String) (clocks : List Clock)
      → (apply_all (new_health Latency leb_latency node_id) (failures clocks)).state ≡ (
          if ltb (length clocks) 3
          then healthy
          else (if ltb (length clocks) 5 then suspect else excluded))
  state-failures node_id clocks =
      ground (arith, failures-by_count clocks (new_health Latency leb_latency node_id) refl)

  -- A success never excludes a node, and lets an excluded node out only into rehabilitation, when the
  -- time since its exclusion is long enough; one more success makes that node healthy.
  pub succeed-state :
      (clock : Clock) (x : Latency) (h : Health)
      → (let h' = succeed Latency leb_latency clock x h in
          (h'.consecutive_failures ≡ 0)
          × (h'.state ≡ (
              if is_excluded h.state
              then (elim h.excluded_since [
                | none ↦ excluded
                | some t ↦
                    if not (str_eq t "") && clock.is_rehab_due t then rehabilitating else excluded
              ])
              else healthy)))
  unfolding succeed advance
  succeed-state clock x h = ground (arith, NodeState-cases h.state)
