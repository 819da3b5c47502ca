-- ===== src/Persistence/Usage.antt =====
-- The usage counters: `SQLiteBillingStore` of ecn/persistence.py and `_InMemoryCounts` of
-- ecn/billing.py, which keep the same counts.
use ecn.Common.{
  ℕ, ◌+◌, String, ◌≡◌, refl, Bool, true, false, ◌&&◌, List, [], ◌∷◌, map, arith, if◌then◌else◌,
  keep,
}
use ecn.Common.Text.{str_eq, str_lt, eq_iff}

-- A row of `billing_usage`, and an item of `_counts`: the key is the tenant with the period.
pub record Usage : Type 0 where
  pub tenant_id : String
  pub period : String
  pub round_count : ℕ

-- `{"period": ..., "round_count": ...}`
pub record PeriodCount : Type 0 where
  pub period : String
  pub round_count : ℕ

abbrev pub is_key : String → String → Usage → Bool
is_key tenant_id period u = str_eq u.tenant_id tenant_id && str_eq u.period period

-- `INSERT ... ON CONFLICT(tenant_id, period) DO UPDATE SET round_count = round_count + 1`
unfoldable pub upsert : String → String → List Usage → List Usage
upsert tenant_id period [] = record { tenant_id = tenant_id; period = period; round_count = 1 } ∷ []
upsert tenant_id period (u ∷ table) =
    if is_key tenant_id period u
    then record u { round_count = u.round_count + 1 } ∷ table
    else u ∷ upsert tenant_id period table

-- `SELECT round_count ... WHERE tenant_id = ? AND period = ?`: the first row, or 0
unfoldable pub select_count : String → String → List Usage → ℕ
select_count tenant_id period [] = 0
select_count tenant_id period (u ∷ table) =
    if is_key tenant_id period u then u.round_count else select_count tenant_id period table

-- `ORDER BY period`
unfoldable pub insert_period : PeriodCount → List PeriodCount → List PeriodCount
insert_period p [] = p ∷ []
insert_period p (q ∷ periods) =
    if str_lt p.period q.period then p ∷ q ∷ periods else q ∷ insert_period p periods

unfoldable pub order_by_period : List PeriodCount → List PeriodCount
order_by_period [] = []
order_by_period (p ∷ periods) = insert_period p (order_by_period periods)

-- The columns `period, round_count`
abbrev pub period_count : Usage → PeriodCount
period_count u = record { period = u.period; round_count = u.round_count }

-- `SQLiteBillingStore.get_all_periods`
unfoldable pub select_periods : String → List Usage → List PeriodCount
select_periods tenant_id table =
    order_by_period (map period_count (keep (λ u. str_eq u.tenant_id tenant_id) table))

-- `_counts.get(key, 0)`
unfoldable pub get_count : String → String → List Usage → ℕ
get_count tenant_id period [] = 0
get_count tenant_id period (u ∷ counts) =
    if is_key tenant_id period u then u.round_count else get_count tenant_id period counts

-- `_counts[key] = n`
unfoldable pub set_count : String → String → ℕ → List Usage → List Usage
set_count tenant_id period n [] =
    record { tenant_id = tenant_id; period = period; round_count = n } ∷ []
set_count tenant_id period n (u ∷ counts) =
    if is_key tenant_id period u
    then record u { round_count = n } ∷ counts
    else u ∷ set_count tenant_id period n counts

-- `_InMemoryCounts.increment`
unfoldable pub increment : String → String → List Usage → List Usage
increment tenant_id period counts =
    set_count tenant_id period (get_count tenant_id period counts + 1) counts

-- The order of the items of `_counts`: by tenant, then by period, then by count
abbrev pub usage_lt : Usage → Usage → Bool
usage_lt u v =
    if str_lt u.tenant_id v.tenant_id
    then true
    else (if str_eq u.tenant_id v.tenant_id then str_lt u.period v.period else false)

-- `sorted(self._counts.items())`, whose keys are different
unfoldable pub insert_usage : Usage → List Usage → List Usage
insert_usage u [] = u ∷ []
insert_usage u (v ∷ counts) = if usage_lt u v then u ∷ v ∷ counts else v ∷ insert_usage u counts

unfoldable pub sort_usage : List Usage → List Usage
sort_usage [] = []
sort_usage (u ∷ counts) = insert_usage u (sort_usage counts)

-- `_InMemoryCounts.get_all_periods`
unfoldable pub get_all_periods : String → List Usage → List PeriodCount
get_all_periods tenant_id counts =
    map period_count (keep (λ u. str_eq u.tenant_id tenant_id) (sort_usage counts))

-- The counters of a tracker, durable or in memory.
pub record CounterStore : Type 1 where
  pub Table : Type 0
  pub empty : Table
  pub count_up : String → String → Table → Table
  pub count_of : String → String → Table → ℕ
  pub periods_of : String → Table → List PeriodCount

abbrev pub sqlite_counters : CounterStore
sqlite_counters = record {
  Table = List Usage;
  empty = [];
  count_up = upsert;
  count_of = select_count;
  periods_of = select_periods;
}

abbrev pub memory_counters : CounterStore
memory_counters = record {
  Table = List Usage;
  empty = [];
  count_up = increment;
  count_of = get_count;
  periods_of = get_all_periods;
}

-- What both promise: a new store counts nothing, and one call counts one round of its tenant in its
-- period.
pub record IsCounter (store : CounterStore) : Type 0 where
  pub nothing : (t p : String) → store.count_of t p store.empty ≡ 0
  pub one_more :
      (t p t' p' : String) (table : store.Table)
      → store.count_of t p (store.count_up t' p' table) ≡ (
          if str_eq t t' && str_eq p p'
          then store.count_of t p table + 1
          else store.count_of t p table)

select_count-upsert :
    (t p t' p' : String) (table : List Usage)
    → select_count t p (upsert t' p' table)
      ≡ (if str_eq t t' && str_eq p p' then select_count t p table + 1 else select_count t p table)
unfolding select_count upsert
select_count-upsert t p t' p' [] =
    ground (arith, eq_iff t t', eq_iff t' t, eq_iff p p', eq_iff p' p)
select_count-upsert t p t' p' (u ∷ table) = ground (
  arith,
  select_count-upsert t p t' p' table,
  eq_iff t t',
  eq_iff p p',
  eq_iff u.tenant_id t,
  eq_iff u.tenant_id t',
  eq_iff u.period p,
  eq_iff u.period p',
)

pub sqlite_counters-IsCounter : IsCounter sqlite_counters
unfolding select_count
sqlite_counters-IsCounter = record { nothing = λ t p. refl; one_more = select_count-upsert }

get_count-set_count :
    (t p t' p' : String) (n : ℕ) (counts : List Usage)
    → get_count t p (set_count t' p' n counts)
      ≡ (if str_eq t t' && str_eq p p' then n else get_count t p counts)
unfolding get_count set_count
get_count-set_count t p t' p' n [] =
    ground (arith, eq_iff t t', eq_iff t' t, eq_iff p p', eq_iff p' p)
get_count-set_count t p t' p' n (u ∷ counts) = ground (
  arith,
  get_count-set_count t p t' p' n counts,
  eq_iff t t',
  eq_iff p p',
  eq_iff u.tenant_id t,
  eq_iff u.tenant_id t',
  eq_iff u.period p,
  eq_iff u.period p',
)

get_count-increment :
    (t p t' p' : String) (counts : List Usage)
    → get_count t p (increment t' p' counts)
      ≡ (if str_eq t t' && str_eq p p' then get_count t p counts + 1 else get_count t p counts)
unfolding increment
get_count-increment t p t' p' counts = ground (
  arith,
  get_count-set_count t p t' p' (get_count t' p' counts + 1) counts,
  eq_iff t t',
  eq_iff p p',
)

pub memory_counters-IsCounter : IsCounter memory_counters
unfolding get_count
memory_counters-IsCounter = record { nothing = λ t p. refl; one_more = get_count-increment }
