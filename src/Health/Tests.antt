-- ===== src/Health/Tests.antt =====
-- One node that fails, at concrete inputs.
use ecn.Common.{ℕ, ◌≡◌, refl, true, some, [], ◌∷◌, arith, leb}
use ecn.Common.Ring.{push}
use ecn.Health.{
  excluded, rehabilitating, Clock, NodeHealth, new_health, advance, succeed, demote, fail,
  sort_samples, p95_latency_ms,
}
use ecn.Health.Thresholds.{IsSound, success, failure, apply_all, apply_all-IsSound}

program : Unit {0}
unfolding advance succeed demote fail push sort_samples p95_latency_ms
program = tt

abbrev clock : Clock
clock = record { utcnow = "now"; is_rehab_due = λ t. true }

abbrev fresh : NodeHealth ℕ leb
fresh = new_health ℕ leb "N1"

abbrev dead : NodeHealth ℕ leb
dead = record fresh { state = excluded; consecutive_failures = 5; excluded_since = some "then" }

-- The 95th percentile of four samples is the largest.
p95 : p95_latency_ms ℕ leb (record fresh { latency_samples = 3 ∷ 9 ∷ 1 ∷ 4 ∷ [] }) ≡ some 9
unfolding program
p95 = refl

-- A node whose exclusion is over is let out on trial.
on_trial : (succeed ℕ leb clock 12 dead).state ≡ rehabilitating
unfolding program
on_trial = refl

apply_all-IsSound_example :
    IsSound ℕ leb (apply_all ℕ leb fresh (failure clock ∷ success clock 12 ∷ failure clock ∷ []))
apply_all-IsSound_example =
    apply_all-IsSound ℕ leb (failure clock ∷ success clock 12 ∷ failure clock ∷ []) fresh
      (record { fits = omega arith; window = omega arith })
