-- ===== src/Billing.antt =====
-- ecn/billing.py: the rounds of each tenant are counted per period, entered in a ledger, and tallied
-- for the service level. The clock, the environment variables and the floats are arguments; an amount
-- is the number of its millionths, which is what `round(..., 6)` keeps.
pub mod Totals
pub mod Ledger
mod Tests
use ecn.Common.{
  ℕ, ◌+◌, ◌-◌, ◌*◌, String, Bool, ◌||◌, Option, none, some, List, [], ◌∷◌, ◌++◌, ltb, if◌then◌else◌,
  keep, Result, ok, ◌>>=◌, or_raise,
}
use ecn.Common.Text.{str_eq}
use ecn.Common.Dict.{Dict, lookup, contains, get_or, insert}
use ecn.Consensus.{Floats}
use ecn.Persistence.Usage.{PeriodCount, CounterStore}

-- `datetime.now(utc)`: its texts by format, and the ISO text of an entry.
pub record Moment : Type 0 where
  pub strftime : String → String
  pub isoformat : String

-- `_current_period`, with `ECN_BILLING_PERIOD` in lower case
unfoldable pub current_period : String → Moment → String
current_period granularity now =
    if str_eq granularity "daily"
    then now.strftime "%Y-%m-%d"
    else (if str_eq granularity "yearly" || str_eq granularity "annual"
        then now.strftime "%Y"
        else now.strftime "%Y-%m")

module _ (f : Floats) where
  -- An entry of `_PRICING_TIERS`, without its description
  pub record Tier : Type 0 where
    pub sla_threshold : f.Float
    pub quorum_threshold : f.Float
    pub price_per_rmae : ℕ

  abbrev pub pricing_tiers : Dict Tier
  pricing_tiers =
      (
        "basic",
        record {
          sla_threshold = f.ratio 95 100;
          quorum_threshold = f.ratio 51 100;
          price_per_rmae = 1000;
        },
      )
      ∷ (
        "standard",
        record {
          sla_threshold = f.ratio 99 100;
          quorum_threshold = f.ratio 67 100;
          price_per_rmae = 5000;
        },
      )
      ∷ (
        "critical",
        record {
          sla_threshold = f.ratio 9999 10000;
          quorum_threshold = f.ratio 80 100;
          price_per_rmae = 20000;
        },
      )
      ∷ []

  -- `get_pricing_tier`, with `ECN_PRICING_TIER` in lower case and stripped
  unfoldable pub get_pricing_tier : String → String
  get_pricing_tier variable = if contains variable pricing_tiers then variable else "standard"

  -- `get_tier_config`: the error is the key of the `KeyError`. An empty tier counts as none.
  unfoldable pub get_tier_config : String → Option String → Result String Tier
  get_tier_config variable tier =
      let name : String = elim tier [
        | none ↦ get_pricing_tier variable
        | some t ↦ if str_eq t "" then get_pricing_tier variable else t
      ] in
      or_raise (lookup name pricing_tiers) name

  -- `compute_billed_amount`
  unfoldable pub compute_billed_amount : String → ℕ → Option String → Result String ℕ
  compute_billed_amount variable node_count tier = do
    config ← get_tier_config variable tier
    ok (node_count * config.price_per_rmae)

-- An entry of the ledger
pub record Entry : Type 0 where
  pub ledger_id : ℕ
  pub tx_id : String
  pub tenant_id : String
  pub period : String
  pub node_round_count : ℕ
  pub billed_amount : ℕ
  pub consensus_reached : Bool
  pub recorded_at : String

-- `_InMemoryLedger`, and the table `billing_ledger` with its `AUTOINCREMENT`: the last number given
-- and the entries.
pub record LedgerTable : Type 0 where
  pub seq : ℕ
  pub entries : List Entry

abbrev pub empty_ledger : LedgerTable
empty_ledger = record { seq = 0; entries = [] }

-- `append_entry`
unfoldable pub append_entry :
    String → String → String → String → ℕ → ℕ → Bool → LedgerTable → LedgerTable
append_entry recorded_at tx_id tenant_id period node_round_count billed_amount reached ledger =
    record {
      seq = ledger.seq + 1;
      entries =
          ledger.entries
          ++ record {
            ledger_id = ledger.seq + 1;
            tx_id = tx_id;
            tenant_id = tenant_id;
            period = period;
            node_round_count = node_round_count;
            billed_amount = billed_amount;
            consensus_reached = reached;
            recorded_at = recorded_at;
          }
            ∷ [];
    }

-- `load_entries`
unfoldable pub load_entries : String → LedgerTable → List Entry
load_entries tenant_id ledger = keep (λ e. str_eq e.tenant_id tenant_id) ledger.entries

-- `_InMemorySLATracker`
pub record SlaTracker : Type 0 where
  pub total : Dict ℕ
  pub faults : Dict ℕ

-- `_InMemorySLATracker.record`
unfoldable pub record_sla : String → Bool → SlaTracker → SlaTracker
record_sla tenant_id reached sla = record {
  total = insert tenant_id (get_or tenant_id sla.total 0 + 1) sla.total;
  faults =
      if reached
      then sla.faults
      else insert tenant_id (get_or tenant_id sla.faults 0 + 1) sla.faults;
}

-- `get_stats`: the rounds and those of them that failed
unfoldable pub get_stats : String → SlaTracker → ℕ × ℕ
get_stats tenant_id sla = (get_or tenant_id sla.total 0, get_or tenant_id sla.faults 0)

-- The environment of a call
pub record BillingEnv : Type 0 where
  pub granularity : String
  pub pricing_tier : String
  pub now : Moment

-- What `get_usage` returns
pub record UsageReport : Type 0 where
  pub tenant_id : String
  pub current_period : String
  pub round_count : ℕ
  pub all_periods : List PeriodCount

-- What `get_sla` returns of the service level, without the rounded quotients
pub record SlaReport : Type 0 where
  pub tenant_id : String
  pub tier : String
  pub total_rounds : ℕ
  pub fault_rounds : ℕ
  pub sla_met : Bool

module _ (f : Floats) (store : CounterStore) where
  -- `BillingTracker`, with the counters that it was made with
  pub record BillingTracker : Type 0 where
    pub counters : store.Table
    pub ledger : LedgerTable
    pub sla : SlaTracker

  -- `BillingTracker.__init__` on what the stores hold: the tallies start anew.
  unfoldable pub new_tracker : store.Table → LedgerTable → BillingTracker
  new_tracker counters ledger = record {
    counters = counters;
    ledger = ledger;
    sla = record { total = []; faults = [] };
  }

  -- `BillingTracker.record_round`
  unfoldable pub record_round :
      BillingEnv → String → String → ℕ → Bool → BillingTracker → Result String (BillingTracker × ℕ)
  record_round env tenant_id tx_id node_count reached b =
      let period = current_period env.granularity env.now in
      do
        billed_amount ← compute_billed_amount f env.pricing_tier node_count none
        ok (
          record {
            counters = store.count_up tenant_id period b.counters;
            ledger =
                append_entry env.now.isoformat tx_id tenant_id period node_count billed_amount
                  reached b.ledger;
            sla = record_sla tenant_id reached b.sla;
          },
          billed_amount,
        )

  unfoldable pub get_usage : BillingEnv → String → BillingTracker → UsageReport
  get_usage env tenant_id b =
      let period = current_period env.granularity env.now in
      record {
        tenant_id = tenant_id;
        current_period = period;
        round_count = store.count_of tenant_id period b.counters;
        all_periods = store.periods_of tenant_id b.counters;
      }

  unfoldable pub get_billing_ledger : String → BillingTracker → List Entry
  get_billing_ledger tenant_id b = load_entries tenant_id b.ledger

  -- `get_sla`
  unfoldable pub get_sla : BillingEnv → String → BillingTracker → Result String SlaReport
  get_sla env tenant_id b =
      let tier = get_pricing_tier f env.pricing_tier in
      let stats = get_stats tenant_id b.sla in
      do
        config ← get_tier_config f env.pricing_tier (some tier)
        ok (record {
          tenant_id = tenant_id;
          tier = tier;
          total_rounds = stats.0;
          fault_rounds = stats.1;
          sla_met =
              f.geb (if ltb 0 stats.0 then f.ratio (stats.0 - stats.1) stats.0 else f.ratio 1 1)
                config.sla_threshold;
        })
