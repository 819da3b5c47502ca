-- ===== src/Billing/Tests.antt =====
-- Three rounds of two tenants, in a month of one tier.
use ecn.Common.{
  ◌≤◌, ◌+◌, ◌-◌, ◌==◌, if◌then◌else◌, length, String, ◌≡◌, refl, Bool, true, false, none, some,
  List, [], ◌∷◌, ok, raise,
}
use ecn.Samples.{fractions}
use ecn.Persistence.Usage.{sqlite_counters, sqlite_counters-IsCounter, upsert, select_count}
use ecn.Billing.{
  Moment, LedgerTable, Tier, pricing_tiers, BillingEnv, BillingTracker, SlaReport, current_period,
  compute_billed_amount, get_pricing_tier, get_tier_config, new_tracker, record_round, append_entry,
  load_entries, record_sla, get_stats, get_sla,
}
use ecn.Billing.Totals.{
  RoundCall, record_from, record_all, IsTally, record_all-IsTally, get_sla-bounds,
}
use ecn.Billing.Ledger.{Grows, record_more, record_more-Grows}
use ecn.Common.Dict.{insert, lookup}

program : Unit {0}
unfolding upsert select_count current_period compute_billed_amount get_pricing_tier get_tier_config
    new_tracker record_round append_entry load_entries record_sla get_stats get_sla insert
program = tt

abbrev now : Moment
now = record { strftime = λ format. "2026-01"; isoformat = "2026-01-31T00:00:00Z" }

abbrev env : BillingEnv
env = record { granularity = "monthly"; pricing_tier = "gold"; now = now }

abbrev call : String → Bool → RoundCall
call t reached = record {
  env = env;
  tenant_id = t;
  tx_id = "tx";
  node_count = 3;
  reached = reached;
}

abbrev calls : List RoundCall
calls = call "acme" false ∷ call "beta" true ∷ call "acme" true ∷ []

-- An unknown tier is billed as the standard one.
price : compute_billed_amount fractions "gold" 3 none ≡ ok 15000
unfolding program
price = refl

no_such_tier : compute_billed_amount fractions "gold" 3 (some "gold") ≡ raise "gold"
unfolding program
no_such_tier = refl

record_all-IsTally_example :
    (b : BillingTracker fractions sqlite_counters) × (record_all fractions sqlite_counters calls
      ≡ ok b)
    × IsTally fractions sqlite_counters calls b
record_all-IsTally_example =
    record_all-IsTally fractions sqlite_counters sqlite_counters-IsCounter calls

abbrev start : BillingTracker fractions sqlite_counters
start = record {
  counters = [];
  ledger = record { seq = 0; entries = [] };
  sla = record { total = []; faults = [] };
}

abbrev old : LedgerTable
old = record {
  seq = 1;
  entries =
      record {
        ledger_id = 1;
        tx_id = "tx0";
        tenant_id = "acme";
        period = "2025-12";
        node_round_count = 3;
        billed_amount = 15000;
        consensus_reached = true;
        recorded_at = "2025-12-31T00:00:00Z";
      }
      ∷ [];
}

get_sla-bounds_example :
    (b : BillingTracker fractions sqlite_counters) × (record_from fractions sqlite_counters
        (new_tracker fractions sqlite_counters [] old)
        calls
      ≡ ok b)
    × (r : SlaReport) × (tier : Tier fractions) × (get_sla fractions sqlite_counters env "acme" b
        ≡ ok r)
    × (length (load_entries "acme" b.ledger) ≡ 1 + r.total_rounds)
    × (r.fault_rounds ≡ 1)
    × (r.fault_rounds ≤ r.total_rounds)
    × (lookup r.tier (pricing_tiers fractions) ≡ some tier)
    × (r.sla_met
        ≡ fractions.geb
            (if r.total_rounds == 0
              then fractions.ratio 1 1
              else fractions.ratio (r.total_rounds - r.fault_rounds) r.total_rounds)
            tier.sla_threshold)
unfolding program
get_sla-bounds_example = get_sla-bounds fractions sqlite_counters [] old calls env "acme"

record_more-Grows_example :
    (b : BillingTracker fractions sqlite_counters) × (record_more fractions sqlite_counters calls
        start
      ≡ ok b)
    × Grows fractions sqlite_counters "gamma" calls start b
record_more-Grows_example =
    record_more-Grows fractions sqlite_counters "gamma" calls start
      (record { numbered = tt; last = refl })
