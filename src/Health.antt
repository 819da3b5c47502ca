-- ===== src/Health.antt =====
-- ecn/node_health.py: the health of each node, from its successes and failures. The clock and the
-- latencies, which are floats, are parameters.
pub mod Thresholds
mod Tests
use ecn.Common.{
  ℕ, ◌+◌, ◌-◌, ◌*◌, ◌/◌, min, String, Bool, true, false, ◌&&◌, not, Option, none, some, List, [],
  ◌∷◌, leb, ◌==◌, if◌then◌else◌, length, get_elem?,
}
use ecn.Common.Dict.{Dict, lookup, insert}
use ecn.Common.Text.{str_eq}
use ecn.Common.Ring.{push}

pub data NodeState : Type 0 where
  healthy suspect excluded rehabilitating : NodeState

pub NodeState-discrete : Discrete NodeState
NodeState-discrete = hlevel

abbrev pub is_excluded : NodeState → Bool
is_excluded excluded = true
is_excluded _ = false

abbrev pub suspect_threshold : ℕ
suspect_threshold = 3

abbrev pub excluded_threshold : ℕ
excluded_threshold = 5

abbrev pub latency_window : ℕ
latency_window = 20

-- The time of a call: `_utcnow()`, and `_seconds_since(t) >= _REHAB_WINDOW_SECS`.
pub record Clock : Type 0 where
  pub utcnow : String
  pub is_rehab_due : String → Bool

module _ (Latency : Type 0) (leb_latency : Latency → Latency → Bool) where
  pub record NodeHealth : Type 0 where
    pub node_id : String
    pub state : NodeState
    pub consecutive_failures : ℕ
    pub last_success_at : Option String
    pub excluded_since : Option String
    pub latency_samples : List Latency

  -- `NodeHealth(node_id=node_id)`
  abbrev pub new_health : String → NodeHealth
  new_health node_id = record {
    node_id = node_id;
    state = healthy;
    consecutive_failures = 0;
    last_success_at = none;
    excluded_since = none;
    latency_samples = [];
  }

  insert_sample : Latency → List Latency → List Latency
  insert_sample x [] = x ∷ []
  insert_sample x (y ∷ samples) =
      if leb_latency x y then x ∷ (y ∷ samples) else y ∷ insert_sample x samples

  -- `sorted(samples)`
  unfoldable pub sort_samples : List Latency → List Latency
  unfolding insert_sample
  sort_samples [] = []
  sort_samples (x ∷ samples) = insert_sample x (sort_samples samples)

  -- `p95_latency_ms`: `int(n * 0.95)` of the at most 20 samples is `n * 95 / 100`.
  unfoldable pub p95_latency_ms : NodeHealth → Option Latency
  p95_latency_ms h =
      let n = length h.latency_samples in
      if n == 0
      then none
      else get_elem? (sort_samples h.latency_samples) (min (n * 95 / 100) (n - 1))

  -- The branches on the state in `record_success`. An empty `excluded_since` counts as none.
  unfoldable pub advance : Clock → NodeHealth → NodeHealth
  advance clock h = elim h.state [
    | excluded ↦ elim h.excluded_since [
      | none ↦ h
      | some since ↦
          if not (str_eq since "") && clock.is_rehab_due since
          then record h { state = rehabilitating; excluded_since = none }
          else h
    ]
    | rehabilitating ↦ record h { state = healthy }
    | suspect ↦ record h { state = healthy }
    | healthy ↦ record h { state = healthy }
  ]

  -- `record_success` on the record of the node
  unfoldable pub succeed : Clock → Latency → NodeHealth → NodeHealth
  succeed clock latency_ms h = advance clock (record h {
    latency_samples = push latency_window h.latency_samples latency_ms;
    consecutive_failures = 0;
    last_success_at = some clock.utcnow;
  })

  -- The branches of `record_failure`, after the counter has gone up.
  unfoldable pub demote : Clock → NodeHealth → NodeHealth
  demote clock h =
      if is_excluded h.state
      then h
      else (if leb excluded_threshold h.consecutive_failures
          then record h { state = excluded; excluded_since = some clock.utcnow }
          else (if leb suspect_threshold h.consecutive_failures
              then record h { state = suspect }
              else (elim h.state [ rehabilitating ↦ record h { state = suspect } | _ ↦ h ])))

  -- `record_failure` on the record of the node
  unfoldable pub fail : Clock → NodeHealth → NodeHealth
  fail clock h = demote clock (record h { consecutive_failures = h.consecutive_failures + 1 })

  -- `NodeHealthRegistry._nodes`
  abbrev pub Registry : Type 0
  Registry = Dict NodeHealth

  -- `_get_or_create`, which is `get` also
  unfoldable pub get_or_create : String → Registry → NodeHealth
  get_or_create node_id registry = elim (lookup node_id registry) [
    | none ↦ new_health node_id
    | some h ↦ h
  ]

  unfoldable pub record_success : Clock → String → Latency → Registry → Registry
  record_success clock node_id latency_ms registry =
      insert node_id (succeed clock latency_ms (get_or_create node_id registry)) registry

  unfoldable pub record_failure : Clock → String → Registry → Registry
  record_failure clock node_id registry =
      insert node_id (fail clock (get_or_create node_id registry)) registry

  unfoldable pub active_nodes : Registry → List String
  active_nodes [] = []
  active_nodes ((nid, h) ∷ registry) =
      if is_excluded h.state then active_nodes registry else nid ∷ active_nodes registry

  unfoldable pub excluded_nodes : Registry → List String
  excluded_nodes [] = []
  excluded_nodes ((nid, h) ∷ registry) =
      if is_excluded h.state then nid ∷ excluded_nodes registry else excluded_nodes registry
