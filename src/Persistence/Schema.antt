-- ===== src/Persistence/Schema.antt =====
-- `SQLiteSchemaVersion` of ecn/persistence.py: the migrations of a database, in the order of their
-- versions.
use ecn.Common.{
  ℕ, ◌≤◌, max, ◌≡◌, refl, sym, ap, ◌∙◌, inl, inr, Option, none, some, List, [], ◌∷◌, arith, ltb,
  if◌then◌else◌, Bool-cases, Option-cases, All,
}

module _ (Database : Type 0) where
  -- `_MIGRATIONS`: the versions with what they do
  abbrev pub Migrations : Type 0
  Migrations = List (ℕ × (Database → Database))

  -- The row of `schema_version`, none before `_bootstrap`, and the rest of the database.
  pub record Schema : Type 0 where
    pub version : Option ℕ
    pub database : Database

  -- `_bootstrap`
  unfoldable pub bootstrap : Schema → Schema
  bootstrap s = record s { version = elim s.version [ none ↦ some 0 | some v ↦ some v ] }

  -- `get_version`, after `_bootstrap`
  unfoldable pub get_version : Schema → ℕ
  get_version s = elim s.version [ none ↦ 0 | some v ↦ v ]

  -- `set_version`: an `UPDATE`, which does nothing when there is no row.
  unfoldable pub set_version : ℕ → Schema → Schema
  set_version v s = record s { version = elim s.version [ none ↦ none | some _ ↦ some v ] }

  -- `sorted(_MIGRATIONS.items())`, by the version
  unfoldable pub insert_migration : ℕ → (Database → Database) → Migrations → Migrations
  insert_migration v f [] = (v, f) ∷ []
  insert_migration v f ((w, g) ∷ ms) =
      if ltb v w then (v, f) ∷ (w, g) ∷ ms else (w, g) ∷ insert_migration v f ms

  unfoldable pub sort_migrations : Migrations → Migrations
  sort_migrations [] = []
  sort_migrations ((v, f) ∷ ms) = insert_migration v f (sort_migrations ms)

  -- The loop of `ensure_migrations`
  unfoldable pub migrate : ℕ → Migrations → Schema → Schema
  migrate current [] s = s
  migrate current ((v, f) ∷ ms) s =
      if ltb current v
      then migrate v ms (set_version v (record s { database = f s.database }))
      else migrate current ms s

  unfoldable pub ensure_migrations : Migrations → Schema → Schema
  ensure_migrations migrations s =
      let s' = bootstrap s in migrate (get_version s') (sort_migrations migrations) s'

  -- The versions that a list of migrations reaches from one version.
  abbrev pub latest : ℕ → Migrations → ℕ
  latest current [] = current
  latest current ((v, f) ∷ ms) = max v (latest current ms)

  abbrev AreUpTo : ℕ → Migrations → Type 0
  AreUpTo n [] = Unit
  AreUpTo n ((v, f) ∷ ms) = (v ≤ n) × AreUpTo n ms

  abbrev AreSorted : Migrations → Type 0
  AreSorted [] = Unit
  AreSorted ((v, f) ∷ ms) = All (λ m. v ≤ m.0) ms × AreSorted ms

  migrate-AreUpTo :
      (current : ℕ) (ms : Migrations) (s : Schema) → AreUpTo current ms → migrate current ms s ≡ s
  unfolding migrate
  migrate-AreUpTo current [] s done = refl
  migrate-AreUpTo current ((v, f) ∷ ms) s (le, done) =
      ground (arith, le, migrate-AreUpTo current ms s done)

  latest_step :
      (current v : ℕ) (ms : Migrations) → current ≤ v → max v (latest current ms) ≡ latest v ms
  latest_step current v [] le = omega (arith, le)
  latest_step current v ((w, f) ∷ ms) le = omega (arith, latest_step current v ms le)

  latest-ge : (current : ℕ) (ms : Migrations) → current ≤ latest current ms
  latest-ge current [] = omega arith
  latest-ge current ((w, f) ∷ ms) = omega (arith, latest-ge current ms)

  AreUpTo-more : (n m : ℕ) (ms : Migrations) → n ≤ m → AreUpTo n ms → AreUpTo m ms
  AreUpTo-more n m [] le done = tt
  AreUpTo-more n m ((v, f) ∷ ms) le (first, done) =
      (omega (arith, le, first), AreUpTo-more n m ms le done)

  latest-AreUpTo : (current : ℕ) (ms : Migrations) → AreUpTo (latest current ms) ms
  latest-AreUpTo current [] = tt
  latest-AreUpTo current ((v, f) ∷ ms) =
      (omega arith, AreUpTo-more (latest current ms) _ ms (omega arith) (latest-AreUpTo current ms))

  migrate-version :
      (current : ℕ) (ms : Migrations) (s : Schema)
      → s.version ≡ some current
      → (migrate current ms s).version ≡ some (latest current ms)
  unfolding migrate set_version
  migrate-version current [] s e = e
  migrate-version current ((v, f) ∷ ms) s e = elim (Bool-cases (ltb current v)) [
    | inl g ↦
        rw (g, migrate)
          (migrate-version v ms (set_version v (record s { database = f s.database }))
              (rw (e, set_version) refl)
            ∙ ap some (sym (latest_step current v ms (ground (arith, g)))))
    | inr g ↦
        rw (g, migrate)
          (migrate-version current ms s e
            ∙ ap some (
                omega
                  (arith, latest-ge current ms, (let le : v ≤ current = ground (arith, g) in le))))
  ]

  latest-insert :
      (current v : ℕ) (f : Database → Database) (ms : Migrations)
      → latest current (insert_migration v f ms) ≡ max v (latest current ms)
  unfolding insert_migration
  latest-insert current v f [] = refl
  latest-insert current v f ((w, g) ∷ ms) = ground (arith, latest-insert current v f ms)

  latest-sort :
      (current : ℕ) (ms : Migrations) → latest current (sort_migrations ms) ≡ latest current ms
  unfolding sort_migrations
  latest-sort current [] = refl
  latest-sort current ((v, f) ∷ ms) =
      latest-insert current v f (sort_migrations ms) ∙ ap (max v) (latest-sort current ms)

  bootstrap_again : (s : Schema) (v : ℕ) → s.version ≡ some v → bootstrap s ≡ s
  unfolding bootstrap
  bootstrap_again s v e =
      let same : (elim s.version [ none ↦ some 0 | some w ↦ some w ]) ≡ s.version = rw e refl in
      ap (λ x. record s { version = x }) same

  ensure_migrations-AreUpTo :
      (ms : Migrations) (s : Schema) (v : ℕ)
      → s.version ≡ some v
      → AreUpTo v (sort_migrations ms)
      → ensure_migrations ms s ≡ s
  unfolding ensure_migrations get_version
  ensure_migrations-AreUpTo ms s v e done =
      let current : get_version s ≡ v = rw (e, get_version) refl in
      rw (bootstrap_again s v e, ensure_migrations)
        (ap (λ n. migrate n (sort_migrations ms) s) current
          ∙ migrate-AreUpTo v (sort_migrations ms) s done)

  -- The migrations bring a database to the latest version that there is, or leave it at a later one;
  -- when they run again they change nothing.
  pub ensure_migrations-again :
      (ms : Migrations) (s : Schema)
      → (let s' = ensure_migrations ms s in
          (s'.version ≡ some (latest (get_version s) ms)) × (ensure_migrations ms s' ≡ s'))
  unfolding ensure_migrations bootstrap get_version
  ensure_migrations-again ms s =
      let start = bootstrap s in
      let from : start.version ≡ some (get_version s) = elim (Option-cases s.version) [
        | inl e ↦ rw (e, get_version, bootstrap) refl
        | inr (v, e) ↦ rw (e, get_version, bootstrap) refl
      ] in
      let same : get_version start ≡ get_version s = rw (from, get_version) refl in
      let sorted = sort_migrations ms in
      let s' = ensure_migrations ms s in
      let reached : s'.version ≡ some (latest (get_version s) sorted) =
        rw (same, ensure_migrations) (migrate-version (get_version s) sorted start from) in
      (
        reached ∙ ap some (latest-sort (get_version s) ms),
        ensure_migrations-AreUpTo ms s' (latest (get_version s) sorted) reached
            (latest-AreUpTo (get_version s) sorted),
      )
