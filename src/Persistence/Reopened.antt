-- ===== src/Persistence/Reopened.antt =====
-- What a registry that is opened anew on its table knows of the running one.
use ecn.Common.{
  String, ◌≡◌, refl, sym, ap, ◌∙◌, inl, inr, true, Option, none, some, List, [], ◌∷◌, ◌++◌, ◌⊎◌,
  map, arith, if◌then◌else◌, Bool-cases, Option-cases, need, ok,
}
use mathlib.Core.Path.{subst}
use ecn.Common.Text.{str_eq, eq_iff, listed, str_eq_refl}
use ecn.Common.Dict.{Dict, lookup, contains, erase, values, lookup-insert, lookup-erase}
use ecn.Auth.{all_roles, given_or, ApiKey, ApiKeyRegistry, store_key, issue, revoke, lookup_secret}
use ecn.Persistence.Json.{Json, object, load_rows, JsonLibrary}
use ecn.Persistence.Keys.{
  key_dict, key_of_dict-key_dict, load_keys, KeyTable, save_key, delete_key, open_registry,
  StoredRegistry, issue_stored, revoke_stored, KeyCall, issuing, revoking, run_call, run_calls,
  fresh,
}

-- The keys that the rows of a table stand for.
abbrev replaced : String → ApiKey → Dict ApiKey → Dict ApiKey
replaced id k table = erase id table ++ (id, k) ∷ []

abbrev load : List ApiKey → ApiKeyRegistry → ApiKeyRegistry
load [] r = r
load (k ∷ stored) r = load stored (store_key k r)

-- One row for every key id, with the key of that id.
abbrev IsKeyed : (Dict ApiKey) → Type 0
IsKeyed [] = Unit
IsKeyed ((id, k) ∷ table) = (k.key_id ≡ id) × (lookup id table ≡ none) × IsKeyed table

lookup-replaced :
    (j id : String) (k : ApiKey) (table : (Dict ApiKey))
    → lookup j (replaced id k table) ≡ (if str_eq j id then some k else lookup j table)
unfolding erase
lookup-replaced j id k [] = refl
lookup-replaced j id k ((i, x) ∷ table) =
    ground (arith, lookup-replaced j id k table, eq_iff j id, eq_iff id i, eq_iff j i)

erase-IsKeyed : (id : String) (table : (Dict ApiKey)) → IsKeyed table → IsKeyed (erase id table)
unfolding erase
erase-IsKeyed id [] keyed = tt
erase-IsKeyed id ((i, x) ∷ table) keyed = elim (Bool-cases (str_eq id i)) [
  | inl e ↦ rw (e, erase) (erase-IsKeyed id table keyed.2)
  | inr e ↦
      rw (e, erase)
        (
          keyed.0,
          lookup-erase i id table ∙ ground (arith, e, keyed.1, eq_iff i id, eq_iff id i),
          erase-IsKeyed id table keyed.2,
        )
]

replaced-IsKeyed :
    (id : String) (k : ApiKey) (table : (Dict ApiKey))
    → k.key_id ≡ id
    → IsKeyed table
    → IsKeyed (replaced id k table)
unfolding erase
replaced-IsKeyed id k [] own keyed = (own, refl, tt)
replaced-IsKeyed id k ((i, x) ∷ table) own keyed = elim (Bool-cases (str_eq id i)) [
  | inl e ↦ rw (e, erase) (replaced-IsKeyed id k table own keyed.2)
  | inr e ↦
      rw (e, erase)
        (
          keyed.0,
          lookup-replaced i id k table ∙ ground (arith, e, keyed.1, eq_iff i id, eq_iff id i),
          replaced-IsKeyed id k table own keyed.2,
        )
]

lookup-load :
    (j : String) (table : (Dict ApiKey)) (r : ApiKeyRegistry)
    → IsKeyed table
    → lookup j (load (values table) r).keys_by_id
      ≡ (elim (lookup j table) [ none ↦ lookup j r.keys_by_id | some k ↦ some k ])
unfolding store_key
lookup-load j [] r keyed = refl
lookup-load j ((i, k) ∷ table) r keyed =
    lookup-load j table (store_key k r) keyed.2
    ∙ ground (
      arith,
      keyed.0,
      keyed.1,
      eq_iff j i,
      eq_iff j k.key_id,
      lookup-insert j k.key_id k r.keys_by_id,
    )

-- A secret that a loaded registry knows leads to a key of the table, or was known before.
lookup_secret-load :
    (secret : String) (k : ApiKey) (table : Dict ApiKey) (r : ApiKeyRegistry)
    → IsKeyed table
    → lookup secret (load (values table) r).keys_by_secret ≡ some k
    → (lookup secret r.keys_by_secret ≡ some k)
      ⊎ ((k.key ≡ secret) × (lookup k.key_id table ≡ some k))
unfolding store_key
lookup_secret-load secret k [] r keyed found = inl found
lookup_secret-load secret k ((i, x) ∷ table) r (own, new, keyed) found =
    elim (lookup_secret-load secret k table (store_key x r) keyed found) [
      | inr (key, there) ↦ inr (key, ground (arith, there, new, eq_iff k.key_id i))
      | inl before ↦ elim (Bool-cases (str_eq secret x.key)) [
        | inr other ↦
            inl (ground (arith, before, other, lookup-insert secret x.key x r.keys_by_secret))
        | inl same ↦
            let this : some x ≡ some k =
              ground (arith, before, same, lookup-insert secret x.key x r.keys_by_secret) in
            let this' : x ≡ k = ap (λ o. elim o [ none ↦ x | some y ↦ y ]) this in
            inr (
              subst (λ y. (y.key ≡ secret) × (lookup y.key_id ((i, x) ∷ table) ≡ some y)) this'
                (ground (arith, same, eq_iff secret x.key), ground (arith, own, eq_iff x.key_id i)))
      ]
    ]

-- A secret that is known stays known.
contains-load :
    (secret : String) (stored : List ApiKey) (r : ApiKeyRegistry)
    → contains secret r.keys_by_secret ≡ true
    → contains secret (load stored r).keys_by_secret ≡ true
unfolding store_key
contains-load secret [] r there = there
contains-load secret (k ∷ stored) r there =
    contains-load secret stored (store_key k r)
      (ground (arith, there, lookup-insert secret k.key k r.keys_by_secret))

-- The secret of a key of the table is known.
contains-load_key :
    (j : String) (k : ApiKey) (table : Dict ApiKey) (r : ApiKeyRegistry)
    → lookup j table ≡ some k
    → contains k.key (load (values table) r).keys_by_secret ≡ true
unfolding store_key
contains-load_key j k [] r found = absurd (cc)
contains-load_key j k ((i, x) ∷ table) r found = elim (Bool-cases (str_eq j i)) [
  | inr other ↦ contains-load_key j k table (store_key x r) (ground (arith, found, other))
  | inl same ↦
      let this : some x ≡ some k = ground (arith, found, same) in
      let key : x.key ≡ k.key = ap (λ o. elim o [ none ↦ "" | some y ↦ y.key ]) this in
      subst (λ s. contains s (load (values table) (store_key x r)).keys_by_secret ≡ true) key
        (contains-load x.key (values table) (store_key x r)
          (ground (arith, lookup-insert x.key x.key x r.keys_by_secret, str_eq_refl x.key)))
]

-- What a reopened registry knows of a running one: the same keys by their ids; by a secret only a
-- key that the running one has with that secret; and for each such key, its secret.
pub record Knows (reopened running : ApiKeyRegistry) : Type 0 where
  pub by_id : (j : String) → lookup j reopened.keys_by_id ≡ lookup j running.keys_by_id
  pub by_secret :
      (secret : String) (k : ApiKey)
      → lookup_secret secret reopened ≡ some k
      → (k.key ≡ secret) × (lookup k.key_id running.keys_by_id ≡ some k)
  pub every_secret :
      (j : String) (k : ApiKey)
      → lookup j running.keys_by_id ≡ some k
      → (x : ApiKey) × (lookup_secret k.key reopened ≡ some x)

module _ (json : JsonLibrary) where
  open json use {Printed, dumps, loads}

  -- The rows of a table of keys
  abbrev printed : Dict ApiKey → KeyTable json
  printed [] = []
  printed ((i, k) ∷ table) = (i, dumps (object (key_dict k))) ∷ printed table

  erase-printed :
      (id : String) (table : Dict ApiKey) → erase id (printed table) ≡ printed (erase id table)
  unfolding erase
  erase-printed id [] = refl
  erase-printed id ((i, k) ∷ table) = ground (arith, erase-printed id table)

  printed-append :
      (table : Dict ApiKey) (i : String) (k : ApiKey)
      → printed (table ++ (i, k) ∷ []) ≡ printed table ++ (i, dumps (object (key_dict k))) ∷ []
  printed-append [] i k = refl
  printed-append ((j, x) ∷ table) i k = ground (arith, printed-append table i k)

  save_key-printed :
      (id : String) (k : ApiKey) (table : Dict ApiKey)
      → save_key json id (key_dict k) (printed table) ≡ printed (replaced id k table)
  unfolding save_key
  save_key-printed id k table =
      ap (λ t. t ++ (id, dumps (object (key_dict k))) ∷ []) (erase-printed id table)
      ∙ sym (printed-append (erase id table) id k)

  abbrev dicts : List ApiKey → List Json
  dicts = map (λ k. object (key_dict k))

  load_keys-dicts :
      (stored : List ApiKey) (r : ApiKeyRegistry) → load_keys (dicts stored) r ≡ ok (load stored r)
  unfolding load_keys
  load_keys-dicts [] r = refl
  load_keys-dicts (k ∷ stored) r =
      rw (key_of_dict-key_dict k, load_keys) (load_keys-dicts stored (store_key k r))

  module _ (loads-dumps : (j : Json) → loads (dumps j) ≡ some j) where
    load_rows-printed :
        (table : Dict ApiKey) → load_rows json (values (printed table)) ≡ ok (dicts (values table))
    unfolding load_rows
    load_rows-printed [] = refl
    load_rows-printed ((i, k) ∷ table) =
        rw (loads-dumps (object (key_dict k)), load_rows) (rw (load_rows-printed table) refl)

    open_registry-printed :
        (table : Dict ApiKey)
        → open_registry json (printed table)
          ≡ ok (load (values table) (record { keys_by_id = []; keys_by_secret = [] }))
    unfolding open_registry
    open_registry-printed table =
        rw (load_rows-printed table, open_registry) (load_keys-dicts (values table) _)

  -- The table holds the keys of the registry.
  record IsSynced (s : StoredRegistry json) : Type 0 where
    rows : Dict ApiKey
    stored : s.table ≡ printed rows
    keyed : IsKeyed rows
    same : (j : String) → lookup j rows ≡ lookup j s.registry.keys_by_id

  stored-IsSynced :
      (k : ApiKey) (s : StoredRegistry json)
      → IsSynced s
      → IsSynced (record {
        registry = store_key k s.registry;
        table = save_key json k.key_id (key_dict k) s.table;
      })
  unfolding store_key
  stored-IsSynced k s synced = record {
    rows = replaced k.key_id k synced.rows;
    stored =
        ap (save_key json k.key_id (key_dict k)) synced.stored
        ∙ save_key-printed k.key_id k synced.rows;
    keyed = replaced-IsKeyed k.key_id k synced.rows refl synced.keyed;
    same = λ j.
        lookup-replaced j k.key_id k synced.rows
        ∙ rw (lookup-insert j k.key_id k s.registry.keys_by_id, synced.same j) refl;
  }

  issue_stored-IsSynced :
      (uuid token role description : String) (tenant_id key_id secret : Option String)
      (s : StoredRegistry json)
      → IsSynced s
      → IsSynced (run_call json (issuing uuid token role description tenant_id key_id secret) s)
  unfolding issue_stored issue
  issue_stored-IsSynced uuid token role description tenant_id key_id secret s synced =
      elim (Bool-cases (listed role all_roles)) [
        | inl e ↦
            rw (e, run_call, issue_stored, issue)
              (stored-IsSynced
                (record {
                  key_id = given_or key_id uuid;
                  key = given_or secret token;
                  role = role;
                  description = description;
                  tenant_id = tenant_id;
                })
                s synced)
        | inr e ↦ rw (e, run_call, issue_stored, issue) synced
      ]

  revoke_stored-IsSynced :
      (key_id : String) (s : StoredRegistry json)
      → IsSynced s
      → IsSynced (revoke_stored json key_id s).0
  unfolding revoke_stored revoke delete_key
  revoke_stored-IsSynced key_id s synced =
      elim (Option-cases (lookup key_id s.registry.keys_by_id)) [
        | inl gone ↦ rw (gone, revoke_stored, revoke) synced
        | inr (k, there) ↦
            rw (there, revoke_stored, revoke)
              (record {
                rows = erase key_id synced.rows;
                stored = ap (erase key_id) synced.stored ∙ erase-printed key_id synced.rows;
                keyed = erase-IsKeyed key_id synced.rows synced.keyed;
                same = λ j.
                    rw
                      (
                        lookup-erase j key_id synced.rows,
                        lookup-erase j key_id s.registry.keys_by_id,
                        synced.same j,
                      )
                      refl;
              })
      ]

  run_calls-IsSynced :
      (calls : List (KeyCall json)) (s : StoredRegistry json)
      → IsSynced s
      → IsSynced (run_calls json calls s)
  run_calls-IsSynced [] s synced = synced
  run_calls-IsSynced (issuing u t r d n i c ∷ calls) s synced =
      run_calls-IsSynced calls (run_call json (issuing u t r d n i c) s)
        (issue_stored-IsSynced u t r d n i c s synced)
  run_calls-IsSynced (revoking key_id ∷ calls) s synced =
      run_calls-IsSynced calls (revoke_stored json key_id s).0
        (revoke_stored-IsSynced key_id s synced)

  -- When `json.loads` gives back the values that `json.dumps` prints, then after any calls of `issue`
  -- and `revoke` from an empty table, refused ones included, a registry opens anew on the table: it
  -- knows exactly the keys of the running one by their ids, each secret of those leads to a key, and
  -- a secret leads to no other keys than those that have it. A secret that the running one kept of a
  -- key issued again under its id is thus not known any more.
  pub open_registry-run_calls :
      (calls : List (KeyCall json))
      → ((j : Json) → loads (dumps j) ≡ some j)
      → (r : ApiKeyRegistry) × (open_registry json (run_calls json calls (fresh json)).table ≡ ok r)
        × Knows r (run_calls json calls (fresh json)).registry
  unfolding lookup_secret
  open_registry-run_calls calls loads-dumps =
      let s = run_calls json calls (fresh json) in
      let start : IsSynced (fresh json) = record {
        rows = [];
        stored = refl;
        keyed = tt;
        same = λ j. refl;
      } in
      let synced = run_calls-IsSynced calls (fresh json) start in
      let empty : ApiKeyRegistry = record { keys_by_id = []; keys_by_secret = [] } in
      let r = load (values synced.rows) empty in
      let ids : (j : String) → lookup j r.keys_by_id ≡ lookup j synced.rows =
        λ j. lookup-load j synced.rows empty synced.keyed ∙ ground (arith) in
      (
        r,
        ap (open_registry json) synced.stored ∙ open_registry-printed loads-dumps synced.rows,
        record {
          by_id = λ j. ids j ∙ synced.same j;
          by_secret = λ secret k found.
              elim (lookup_secret-load secret k synced.rows empty synced.keyed found) [
                | inl before ↦ absurd (cc (before))
                | inr (key, there) ↦ (key, sym (synced.same k.key_id) ∙ there)
              ];
          every_secret = λ j k there.
              let known = contains-load_key j k synced.rows empty (synced.same j ∙ there) in
              need (lookup k.key r.keys_by_secret) (λ n. ground (arith, n, known));
        },
      )
