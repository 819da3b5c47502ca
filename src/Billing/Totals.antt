-- ===== src/Billing/Totals.antt =====
-- The counters, the ledger and the tallies of a tracker tell the same history.
use ecn.Common.{
  ℕ, ◌+◌, ◌-◌, ◌*◌, ◌≤◌, String, ◌≡◌, refl, ap, ◌∙◌, inl, inr, Bool, true, false, ◌&&◌, not, none,
  some, List, [], ◌∷◌, ◌++◌, append-nil, arith, ltb, ◌==◌, if◌then◌else◌, Bool-cases, Option-cases,
  length, keep, length-append, keep-append, Result, ok, ◌>>=◌,
}
use ecn.Common.Text.{str_eq, eq_iff}
use ecn.Common.Dict.{Dict, lookup, contains, get_or, get_or-insert}
use ecn.Consensus.{Floats}
use ecn.Persistence.Usage.{CounterStore, IsCounter}
use ecn.Billing.{
  current_period, Tier, pricing_tiers, get_pricing_tier, get_tier_config, compute_billed_amount,
  Entry, LedgerTable, append_entry, load_entries, record_sla, get_stats, BillingEnv, BillingTracker,
  new_tracker, empty_ledger, record_round, get_sla, get_stats, SlaReport,
}

-- `total_billed` of the route of the ledger
unfoldable pub total_billed : List Entry → ℕ
total_billed [] = 0
total_billed (e ∷ entries) = e.billed_amount + total_billed entries

total_billed-append :
    (xs ys : List Entry) → total_billed (xs ++ ys) ≡ total_billed xs + total_billed ys
unfolding total_billed
total_billed-append [] ys = omega arith
total_billed-append (x ∷ xs) ys = omega (arith, total_billed-append xs ys)

pub load_entries-append_entry :
    (e : Entry) (ledger : LedgerTable) (t : String)
    → load_entries t (
        append_entry e.recorded_at e.tx_id e.tenant_id e.period e.node_round_count e.billed_amount
          e.consensus_reached ledger)
      ≡ (if str_eq e.tenant_id t
          then load_entries t ledger ++ record e { ledger_id = ledger.seq + 1 } ∷ []
          else load_entries t ledger)
unfolding load_entries append_entry
load_entries-append_entry e ledger t =
    keep-append (λ x. str_eq x.tenant_id t) ledger.entries
      (record e { ledger_id = ledger.seq + 1 } ∷ [])
    ∙ ground (arith, append-nil (keep (λ x. str_eq x.tenant_id t) ledger.entries))

-- One call of `record_round`
pub record RoundCall : Type 0 where
  pub env : BillingEnv
  pub tenant_id : String
  pub tx_id : String
  pub node_count : ℕ
  pub reached : Bool

abbrev pub is_of : String → RoundCall → Bool
is_of t c = str_eq c.tenant_id t

abbrev pub is_in : String → String → RoundCall → Bool
is_in t p c = str_eq c.tenant_id t && str_eq (current_period c.env.granularity c.env.now) p

abbrev pub is_fault_of : String → RoundCall → Bool
is_fault_of t c = str_eq c.tenant_id t && not c.reached

-- The entry that a call leaves.
abbrev entry_at : RoundCall → ℕ → ℕ → Entry
entry_at c id amount = record {
  ledger_id = id;
  tx_id = c.tx_id;
  tenant_id = c.tenant_id;
  period = current_period c.env.granularity c.env.now;
  node_round_count = c.node_count;
  billed_amount = amount;
  consensus_reached = c.reached;
  recorded_at = c.env.now.isoformat;
}

or_standard :
    {V : Type 0} (d : Dict V) (v s : String) (x : V)
    → lookup s d ≡ some x
    → (y : V) × (lookup (if contains v d then v else s) d ≡ some y)
or_standard d v s x e = elim (Option-cases (lookup v d)) [
  | inl g ↦ let absent : contains v d ≡ false = rw (g, contains) refl in (x, rw absent e)
  | inr (y, g) ↦ let there : contains v d ≡ true = rw (g, contains) refl in (y, rw there g)
]

module _ (f : Floats) where
  -- The price per node in the environment of a call.
  unfoldable pub price : BillingEnv → ℕ
  price env = elim (lookup (get_pricing_tier f env.pricing_tier) (pricing_tiers f)) [
    | none ↦ 0
    | some tier ↦ tier.price_per_rmae
  ]

  abbrev pub owed : String → List RoundCall → ℕ
  owed t [] = 0
  owed t (c ∷ calls) = if is_of t c then c.node_count * price c.env + owed t calls else owed t calls

  -- The active tier is one of those that there are.
  get_pricing_tier-known :
      (variable : String)
      → (tier : Tier f) × (lookup (get_pricing_tier f variable) (pricing_tiers f) ≡ some tier)
  unfolding get_pricing_tier
  get_pricing_tier-known variable = or_standard (pricing_tiers f) variable "standard" _ refl

  get_tier_config-active :
      (variable : String)
      → (tier : Tier f) × (lookup (get_pricing_tier f variable) (pricing_tiers f) ≡ some tier)
        × (get_tier_config f variable (some (get_pricing_tier f variable)) ≡ ok tier)
  unfolding get_tier_config
  get_tier_config-active variable =
      let (tier, e) = get_pricing_tier-known variable in
      (
        tier,
        e,
        elim (Bool-cases (str_eq (get_pricing_tier f variable) "")) [
          | inl g ↦ rw (g, get_tier_config) (rw e refl)
          | inr g ↦ rw (g, get_tier_config) (rw e refl)
        ],
      )

  pub compute_billed_amount-ok :
      (env : BillingEnv) (n : ℕ)
      → compute_billed_amount f env.pricing_tier n none ≡ ok (n * price env)
  unfolding compute_billed_amount get_tier_config price
  compute_billed_amount-ok env n =
      let (tier, e) = get_pricing_tier-known env.pricing_tier in
      let same : price env ≡ tier.price_per_rmae = rw (e, price) refl in
      rw (e, same, compute_billed_amount, get_tier_config) refl

  module _ (store : CounterStore) where
    -- A history from a tracker on, the last call first.
    abbrev pub record_from :
        BillingTracker f store → List RoundCall → Result String (BillingTracker f store)
    record_from start [] = ok start
    record_from start (c ∷ earlier) = do
      b ← record_from start earlier
      recorded ← record_round f store c.env c.tenant_id c.tx_id c.node_count c.reached b
      ok recorded.0

    -- A history of a tracker on stores without entries.
    abbrev pub record_all : List RoundCall → Result String (BillingTracker f store)
    record_all calls = record_from (new_tracker f store store.empty empty_ledger) calls

    -- What a tracker says of a history.
    pub record IsTally (calls : List RoundCall) (b : BillingTracker f store) : Type 0 where
      pub counted : (t p : String) → store.count_of t p b.counters ≡ length (keep (is_in t p) calls)
      pub rounds : (t : String) → get_or t b.sla.total 0 ≡ length (keep (is_of t) calls)
      pub faults : (t : String) → get_or t b.sla.faults 0 ≡ length (keep (is_fault_of t) calls)
      pub entered : (t : String) → length (load_entries t b.ledger) ≡ length (keep (is_of t) calls)
      pub billed : (t : String) → total_billed (load_entries t b.ledger) ≡ owed t calls

    module _ (law : IsCounter store) where
      record_round-IsTally :
          (c : RoundCall) (earlier : List RoundCall) (b : BillingTracker f store)
          → IsTally earlier b
          → (b' : BillingTracker f store) × (record_round f store c.env c.tenant_id c.tx_id
                c.node_count c.reached b
              ≡ ok (b', c.node_count * price c.env))
            × IsTally (c ∷ earlier) b'
      unfolding record_round record_sla total_billed
      record_round-IsTally c earlier b tally =
          let period = current_period c.env.granularity c.env.now in
          let entry = entry_at c (b.ledger.seq + 1) (c.node_count * price c.env) in
          let grown = load_entries-append_entry entry b.ledger in
          (
            record {
              counters = store.count_up c.tenant_id period b.counters;
              ledger =
                  append_entry c.env.now.isoformat c.tx_id c.tenant_id period c.node_count
                    (c.node_count * price c.env) c.reached b.ledger;
              sla = record_sla c.tenant_id c.reached b.sla;
            },
            rw (compute_billed_amount-ok c.env c.node_count, record_round) refl,
            record {
              counted = λ t p. ground (
                arith,
                law.one_more t p c.tenant_id period b.counters,
                tally.counted t p,
                eq_iff t c.tenant_id,
                eq_iff c.tenant_id t,
                eq_iff p period,
                eq_iff period p,
              );
              rounds = λ t. ground (
                arith,
                get_or-insert t c.tenant_id (get_or c.tenant_id b.sla.total 0 + 1) 0 b.sla.total,
                tally.rounds t,
                eq_iff t c.tenant_id,
                eq_iff c.tenant_id t,
              );
              faults = λ t. ground (
                arith,
                get_or-insert t c.tenant_id (get_or c.tenant_id b.sla.faults 0 + 1) 0 b.sla.faults,
                tally.faults t,
                eq_iff t c.tenant_id,
                eq_iff c.tenant_id t,
              );
              entered = λ t.
                  ap length (grown t)
                  ∙ ground (
                    arith,
                    length-append (load_entries t b.ledger) (entry ∷ []),
                    tally.entered t,
                  );
              billed = λ t.
                  ap total_billed (grown t)
                  ∙ ground (
                    arith,
                    total_billed-append (load_entries t b.ledger) (entry ∷ []),
                    tally.billed t,
                  );
            },
          )

      -- Every history of rounds is recorded without an exception, whatever the environment says of the
      -- tier and the period, and afterwards each counter says how many rounds of the tenant fell into
      -- the period, the tallies how many rounds the tenant had and how many failed, and the ledger has
      -- one entry for each round of the tenant, which bill the nodes of each at the price of its time.
      -- The counters keep what a store of counters promises.
      pub record_all-IsTally :
          (calls : List RoundCall)
          → (b : BillingTracker f store) × (record_all calls ≡ ok b) × IsTally calls b
      unfolding new_tracker load_entries total_billed
      record_all-IsTally [] = (
        new_tracker f store store.empty empty_ledger,
        refl,
        record {
          counted = law.nothing;
          rounds = λ t. refl;
          faults = λ t. refl;
          entered = λ t. refl;
          billed = λ t. refl;
        },
      )
      record_all-IsTally (c ∷ earlier) =
          let (b, ran, tally) = record_all-IsTally earlier in
          let (b', recorded, tally') = record_round-IsTally c earlier b tally in
          (b', rw (ran, recorded) refl, tally')

    -- What the tallies and the ledger say after a history, by what the ledger held before it.
    record IsSince (old : LedgerTable) (calls : List RoundCall) (b : BillingTracker f store)
        : Type 0 where
      rounds : (t : String) → get_or t b.sla.total 0 ≡ length (keep (is_of t) calls)
      faults : (t : String) → get_or t b.sla.faults 0 ≡ length (keep (is_fault_of t) calls)
      entered :
          (t : String)
          → length (load_entries t b.ledger)
            ≡ length (load_entries t old) + length (keep (is_of t) calls)

    record_from-IsSince :
        (counters : store.Table) (old : LedgerTable) (calls : List RoundCall)
        → (b : BillingTracker f store) × (record_from (new_tracker f store counters old) calls
            ≡ ok b)
          × IsSince old calls b
    unfolding new_tracker record_round record_sla
    record_from-IsSince counters old [] = (
      new_tracker f store counters old,
      refl,
      record { rounds = λ t. refl; faults = λ t. refl; entered = λ t. omega arith },
    )
    record_from-IsSince counters old (c ∷ earlier) =
        let (b, ran, since) = record_from-IsSince counters old earlier in
        let entry = entry_at c (b.ledger.seq + 1) (c.node_count * price c.env) in
        let grown = load_entries-append_entry entry b.ledger in
        (
          record {
            counters =
                store.count_up c.tenant_id (current_period c.env.granularity c.env.now) b.counters;
            ledger =
                append_entry c.env.now.isoformat c.tx_id c.tenant_id
                  (current_period c.env.granularity c.env.now) c.node_count
                  (c.node_count * price c.env) c.reached b.ledger;
            sla = record_sla c.tenant_id c.reached b.sla;
          },
          rw (ran) (rw (compute_billed_amount-ok c.env c.node_count, record_round) refl),
          record {
            rounds = λ t. ground (
              arith,
              get_or-insert t c.tenant_id (get_or c.tenant_id b.sla.total 0 + 1) 0 b.sla.total,
              since.rounds t,
              eq_iff t c.tenant_id,
              eq_iff c.tenant_id t,
            );
            faults = λ t. ground (
              arith,
              get_or-insert t c.tenant_id (get_or c.tenant_id b.sla.faults 0 + 1) 0 b.sla.faults,
              since.faults t,
              eq_iff t c.tenant_id,
              eq_iff c.tenant_id t,
            );
            entered = λ t.
                ap length (grown t)
                ∙ ground
                    (arith, length-append (load_entries t b.ledger) (entry ∷ []), since.entered t);
          },
        )

    faults-le :
        (t : String) (calls : List RoundCall)
        → length (keep (is_fault_of t) calls) ≤ length (keep (is_of t) calls)
    faults-le t [] = omega arith
    faults-le t (c ∷ calls) = ground (arith, faults-le t calls)

    -- After any rounds on a tracker that was made on any counters and any ledger, the service level
    -- of a tenant is reported without an exception: its rounds are those that the ledger has gained
    -- of the tenant since the tracker was made, whatever their periods, its failures are those of
    -- them that failed, which are never more, and it is met when the share of the others (1 when
    -- there are no rounds) is at least the threshold of the tier that is reported.
    pub get_sla-bounds :
        (counters : store.Table) (old : LedgerTable) (calls : List RoundCall) (env : BillingEnv)
        (t : String)
        → (b : BillingTracker f store) × (record_from (new_tracker f store counters old) calls
            ≡ ok b)
          × (r : SlaReport) × (tier : Tier f) × (get_sla f store env t b ≡ ok r)
          × (length (load_entries t b.ledger) ≡ length (load_entries t old) + r.total_rounds)
          × (r.fault_rounds ≡ length (keep (is_fault_of t) calls))
          × (r.fault_rounds ≤ r.total_rounds)
          × (lookup r.tier (pricing_tiers f) ≡ some tier)
          × (r.sla_met
              ≡ f.geb
                  (if r.total_rounds == 0
                    then f.ratio 1 1
                    else f.ratio (r.total_rounds - r.fault_rounds) r.total_rounds)
                  tier.sla_threshold)
    unfolding get_sla get_stats
    get_sla-bounds counters old calls env t =
        let (b, ran, since) = record_from-IsSince counters old calls in
        let (config, known, active) = get_tier_config-active env.pricing_tier in
        let stats = get_stats t b.sla in
        let report : SlaReport = record {
          tenant_id = t;
          tier = get_pricing_tier f env.pricing_tier;
          total_rounds = stats.0;
          fault_rounds = stats.1;
          sla_met =
              f.geb (if ltb 0 stats.0 then f.ratio (stats.0 - stats.1) stats.0 else f.ratio 1 1)
                config.sla_threshold;
        } in
        (
          b,
          ran,
          report,
          config,
          rw (active, get_sla) refl,
          since.entered t ∙ omega (arith, since.rounds t),
          since.faults t,
          rw (since.rounds t, since.faults t) (faults-le t calls),
          known,
          ground arith,
        )
