-- ===== src/Persistence/Periods.antt =====
-- The counters in memory and the table of the durable store report the same periods.
use ecn.Common.{
  ◌+◌, String, ◌≡◌, refl, sym, ap, ◌∙◌, inl, inr, true, false, List, [], ◌∷◌, map, arith,
  if◌then◌else◌, Bool-cases, keep, All, All-map,
}
use ecn.Common.Text.{str_eq, str_lt, eq_iff, str_lt_irrefl, str_lt_trans, str_lt_cases}
use ecn.Persistence.Usage.{
  Usage, PeriodCount, is_key, upsert, insert_period, order_by_period, period_count, select_periods,
  get_count, set_count, increment, usage_lt, insert_usage, sort_usage, get_all_periods,
  CounterStore, sqlite_counters, memory_counters,
}

-- Both stores do the same to a table.
set_count-upsert :
    (t p : String) (table : List Usage)
    → set_count t p (get_count t p table + 1) table ≡ upsert t p table
unfolding set_count upsert get_count
set_count-upsert t p [] = refl
set_count-upsert t p (u ∷ table) = elim (Bool-cases (is_key t p u)) [
  | inl e ↦ rw (e, set_count, upsert, get_count) refl
  | inr e ↦ ground (arith, e, set_count-upsert t p table)
]

str_lt_le_trans : (a b c : String) → str_lt a b ≡ true → str_lt c b ≡ false → str_lt a c ≡ true
str_lt_le_trans a b c h k = ground (arith, str_lt_cases b c, str_lt_trans a b c, eq_iff b c)

str_lt_asym : (a b : String) → str_lt a b ≡ true → str_lt b a ≡ false
str_lt_asym a b h = ground (arith, str_lt_trans a b a, str_lt_irrefl a, Bool-cases (str_lt b a))

usage_lt_trans : (u v w : Usage) → usage_lt u v ≡ true → usage_lt w v ≡ false → usage_lt u w ≡ true
usage_lt_trans u v w h k = ground (
  arith,
  eq_iff u.tenant_id v.tenant_id,
  eq_iff w.tenant_id v.tenant_id,
  eq_iff u.tenant_id w.tenant_id,
  str_lt_cases w.tenant_id v.tenant_id,
  str_lt_le_trans u.tenant_id v.tenant_id w.tenant_id,
  str_lt_le_trans u.period v.period w.period,
)

usage_lt_asym : (u v : Usage) → usage_lt u v ≡ true → usage_lt v u ≡ false
usage_lt_asym u v h = ground (
  arith,
  eq_iff u.tenant_id v.tenant_id,
  eq_iff v.tenant_id u.tenant_id,
  str_lt_irrefl u.tenant_id,
  str_lt_asym u.tenant_id v.tenant_id,
  str_lt_asym u.period v.period,
)

-- No later item comes before an earlier one.
abbrev AreOrdered : List Usage → Type 0
AreOrdered [] = Unit
AreOrdered (u ∷ l) = All (λ v. usage_lt v u ≡ false) l × AreOrdered l

All-insert_usage :
    (w u : Usage) (l : List Usage)
    → usage_lt u w ≡ false
    → All (λ v. usage_lt v w ≡ false) l
    → All (λ v. usage_lt v w ≡ false) (insert_usage u l)
unfolding insert_usage
All-insert_usage w u [] h all = (h, tt)
All-insert_usage w u (v ∷ l) h all = elim (Bool-cases (usage_lt u v)) [
  | inl e ↦ rw (e, insert_usage) (h, all)
  | inr e ↦ rw (e, insert_usage) (all.0, All-insert_usage w u l h all.1)
]

insert_usage-AreOrdered :
    (u : Usage) (l : List Usage) → AreOrdered l → AreOrdered (insert_usage u l)
unfolding insert_usage
insert_usage-AreOrdered u [] ordered = (tt, tt)
insert_usage-AreOrdered u (v ∷ l) ordered = elim (Bool-cases (usage_lt u v)) [
  | inl e ↦
      rw (e, insert_usage)
        (
          (
            usage_lt_asym u v e,
            All-map _ _ (λ w h. usage_lt_asym u w (usage_lt_trans u v w e h)) l ordered.0,
          ),
          ordered,
        )
  | inr e ↦
      rw (e, insert_usage)
        (All-insert_usage v u l e ordered.0, insert_usage-AreOrdered u l ordered.1)
]

sort_usage-AreOrdered : (l : List Usage) → AreOrdered (sort_usage l)
unfolding sort_usage
sort_usage-AreOrdered [] = tt
sort_usage-AreOrdered (u ∷ l) = insert_usage-AreOrdered u (sort_usage l) (sort_usage-AreOrdered l)

module _ (t : String) where
  abbrev of_tenant : List Usage → List PeriodCount
  of_tenant l = map period_count (keep (λ u. str_eq u.tenant_id t) l)

  -- What comes first of all stays in front.
  insert_period_front :
      (u : Usage) (l : List Usage)
      → u.tenant_id ≡ t
      → All (λ v. usage_lt u v ≡ true) l
      → insert_period (period_count u) (of_tenant l) ≡ period_count u ∷ of_tenant l
  unfolding insert_period
  insert_period_front u [] same all = refl
  insert_period_front u (v ∷ l) same all = ground (
    arith,
    all,
    insert_period_front u l same all.1,
    eq_iff v.tenant_id t,
    eq_iff u.tenant_id v.tenant_id,
    str_lt_irrefl t,
  )

  of_tenant-insert_usage :
      (u : Usage) (l : List Usage)
      → AreOrdered l
      → of_tenant (insert_usage u l) ≡ (
          if str_eq u.tenant_id t
          then insert_period (period_count u) (of_tenant l)
          else of_tenant l)
  unfolding insert_usage insert_period
  of_tenant-insert_usage u [] ordered = ground arith
  of_tenant-insert_usage u (v ∷ l) ordered = elim (Bool-cases (usage_lt u v)) [
    | inl e ↦
        rw (e, insert_usage)
          (elim (Bool-cases (str_eq u.tenant_id t)) [
            | inl g ↦ rw g (
                sym (
                  insert_period_front u (v ∷ l) ((eq_iff u.tenant_id t).0 g)
                    (e, All-map _ _ (λ w h. usage_lt_trans u v w e h) l ordered.0)))
            | inr g ↦ rw g refl
          ])
    | inr e ↦ ground (
      arith,
      e,
      of_tenant-insert_usage u l ordered.1,
      eq_iff u.tenant_id t,
      eq_iff v.tenant_id t,
      eq_iff u.tenant_id v.tenant_id,
    )
  ]

  periods : (table : List Usage) → of_tenant (sort_usage table) ≡ order_by_period (of_tenant table)
  unfolding sort_usage order_by_period
  periods [] = refl
  periods (u ∷ table) = ground (
    arith,
    of_tenant-insert_usage u (sort_usage table) (sort_usage-AreOrdered table),
    periods table,
  )

-- Calls of `increment` on a store.
abbrev pub count_all : (store : CounterStore) → List (String × String) → store.Table
count_all store [] = store.empty
count_all store ((t, p) ∷ calls) = store.count_up t p (count_all store calls)

same_table :
    (calls : List (String × String))
    → count_all memory_counters calls ≡ count_all sqlite_counters calls
unfolding increment
same_table [] = refl
same_table ((t, p) ∷ calls) =
    set_count-upsert t p (count_all memory_counters calls) ∙ ap (upsert t p) (same_table calls)

-- After the same rounds, the counters in memory and those of the durable store report the same
-- periods of a tenant in the same order, though one filters a sorted dictionary and the other sorts
-- the rows that it selects.
pub get_all_periods-select_periods :
    (calls : List (String × String)) (t : String)
    → get_all_periods t (count_all memory_counters calls)
      ≡ select_periods t (count_all sqlite_counters calls)
unfolding get_all_periods select_periods
get_all_periods-select_periods calls t =
    periods t (count_all memory_counters calls) ∙ ap (select_periods t) (same_table calls)
