-- ===== src/Persistence/Transactions.antt =====
-- `SQLiteTransactionStore` of ecn/persistence.py, with `to_dict` of ecn/transaction.py, which it
-- stores, and `_save_tx_record` and `_load_tx_record` of ecn/api.py, which use it behind a cache.
use ecn.Common.{
  ℕ, String, ◌≡◌, refl, sym, ap, ◌∙◌, inl, inr, Bool, true, false, Option, none, some, List, [],
  ◌∷◌, arith, ltb, if◌then◌else◌, Option-cases, keep, All, Result, ok, ◌>>=◌, or_raise,
}
use ecn.Common.Text.{str_eq, eq_iff, str_eq_refl}
use ecn.Common.Dict.{Dict, lookup, insert}
use mathlib.Core.Path.{subst}
use ecn.Lifecycle.{
  TxState, initiated, executing, proposed, consensus_pending, finalized, billed, replicated,
  TransactionRecord,
}

-- `state.value`
unfoldable pub state_value : TxState → String
state_value initiated = "INITIATED"
state_value executing = "EXECUTING"
state_value proposed = "PROPOSED"
state_value consensus_pending = "CONSENSUS_PENDING"
state_value finalized = "FINALIZED"
state_value billed = "BILLED"
state_value replicated = "REPLICATED"

-- `TxState(text)`: none where it raises `ValueError`
unfoldable pub parse_state : String → Option TxState
parse_state text =
    if str_eq text "INITIATED"
    then some initiated
    else (if str_eq text "EXECUTING"
        then some executing
        else (if str_eq text "PROPOSED"
            then some proposed
            else (if str_eq text "CONSENSUS_PENDING"
                then some consensus_pending
                else (if str_eq text "FINALIZED"
                    then some finalized
                    else (if str_eq text "BILLED"
                        then some billed
                        else (if str_eq text "REPLICATED" then some replicated else none))))))

module _ (Money : Type 0) where
  -- A row of `transactions`
  pub record Row : Type 0 where
    pub tx_id : String
    pub tenant_id : String
    pub state : String
    pub consensus_reached : ℕ
    pub node_count : ℕ
    pub fault_count : ℕ
    pub duration_ms : ℕ
    pub billed_amount : Money
    pub created_at : String
    pub finalized_at : Option String

  -- The values that `save` takes from `to_dict`
  abbrev pub row_of : TransactionRecord Money → Row
  row_of r = record {
    tx_id = r.tx_id;
    tenant_id = r.tenant_id;
    state = state_value r.state;
    consensus_reached = if r.consensus_reached then 1 else 0;
    node_count = r.node_count;
    fault_count = r.fault_count;
    duration_ms = r.duration_ms;
    billed_amount = r.billed_amount;
    created_at = r.created_at;
    finalized_at = r.finalized_at;
  }

  -- `ON CONFLICT(tx_id) DO UPDATE SET ...`: the tenant and the time of creation stay.
  abbrev pub update_row : Row → Row → Row
  update_row excluded old = record excluded {
    tx_id = old.tx_id;
    tenant_id = old.tenant_id;
    created_at = old.created_at;
  }

  unfoldable pub upsert : Row → List Row → List Row
  upsert row [] = row ∷ []
  upsert row (old ∷ table) =
      if str_eq old.tx_id row.tx_id then update_row row old ∷ table else old ∷ upsert row table

  -- `save`
  unfoldable pub save : TransactionRecord Money → List Row → List Row
  save r table = upsert (row_of r) table

  -- `SELECT ... WHERE tx_id = ?` and `fetchone`
  unfoldable pub select_row : String → List Row → Option Row
  select_row tx_id [] = none
  select_row tx_id (row ∷ table) =
      if str_eq row.tx_id tx_id then some row else select_row tx_id table

  -- `load_all`, as rows
  unfoldable pub select_tenant : String → List Row → List Row
  select_tenant tenant_id table = keep (λ row. str_eq row.tenant_id tenant_id) table

  -- The record that `_load_tx_record` builds from a row, or the text of an unknown state.
  unfoldable pub record_of : Row → Result String (TransactionRecord Money)
  record_of row = do
    state ← or_raise (parse_state row.state) row.state
    ok (record {
      tx_id = row.tx_id;
      tenant_id = row.tenant_id;
      state = state;
      node_count = row.node_count;
      consensus_reached = ltb 0 row.consensus_reached;
      fault_count = row.fault_count;
      duration_ms = row.duration_ms;
      billed_amount = row.billed_amount;
      created_at = row.created_at;
      finalized_at = row.finalized_at;
    })

  -- `_tx_store` and `_tx_persistent_store`
  pub record TxStores : Type 0 where
    pub cache : Dict (TransactionRecord Money)
    pub durable : Option (List Row)

  -- `_save_tx_record`
  unfoldable pub save_tx_record : TransactionRecord Money → TxStores → TxStores
  save_tx_record r stores = record {
    cache = insert r.tx_id r stores.cache;
    durable = elim stores.durable [ none ↦ none | some table ↦ some (save r table) ];
  }

  -- `_load_tx_record`
  unfoldable pub load_tx_record :
      String → TxStores → Result String (TxStores × Option (TransactionRecord Money))
  load_tx_record tx_id stores = elim (lookup tx_id stores.cache) [
    | some r ↦ ok (stores, some r)
    | none ↦ elim stores.durable [
      | none ↦ ok (stores, none)
      | some table ↦ elim (select_row tx_id table) [
        | none ↦ ok (stores, none)
        | some row ↦ do
          r ← record_of row
          ok (record stores { cache = insert tx_id r stores.cache }, some r)
      ]
    ]
  ]

  -- `_tx_store` after a restart of the process
  abbrev pub restart : TxStores → TxStores
  restart stores = record stores { cache = [] }

  parse_state-state_value : (s : TxState) → parse_state (state_value s) ≡ some s
  unfolding parse_state state_value
  parse_state-state_value initiated = refl
  parse_state-state_value executing = refl
  parse_state-state_value proposed = refl
  parse_state-state_value consensus_pending = refl
  parse_state-state_value finalized = refl
  parse_state-state_value billed = refl
  parse_state-state_value replicated = refl

  -- A saved row replaces what an earlier one says, but for the tenant and the time of creation.
  select_row-upsert :
      (k : String) (row : Row) (table : List Row)
      → select_row k (upsert row table) ≡ (
          if str_eq k row.tx_id
          then some (elim (select_row k table) [ none ↦ row | some old ↦ update_row row old ])
          else select_row k table)
  unfolding select_row upsert
  select_row-upsert k row [] = ground (arith, eq_iff k row.tx_id, eq_iff row.tx_id k)
  select_row-upsert k row (old ∷ table) = ground (
    arith,
    select_row-upsert k row table,
    eq_iff k row.tx_id,
    eq_iff old.tx_id row.tx_id,
    eq_iff old.tx_id k,
  )

  flag : (b : Bool) → ltb 0 (if b then 1 else 0) ≡ b
  flag true = refl
  flag false = refl

  -- The row of a record gives back the record.
  record_of-row_of : (r : TransactionRecord Money) → record_of (row_of r) ≡ ok r
  unfolding record_of
  record_of-row_of r =
      rw (parse_state-state_value r.state, record_of)
        (ap (λ b. ok (record r { consensus_reached = b })) (flag r.consensus_reached))

  -- Two records of one transaction, at different times of its life.
  pub record IsSame (r s : TransactionRecord Money) : Type 0 where
    pub same_id : r.tx_id ≡ s.tx_id
    pub same_tenant : r.tenant_id ≡ s.tenant_id
    pub same_creation : r.created_at ≡ s.created_at

  -- What the table holds of a transaction, if anything, is of the record's tenant and time.
  abbrev FitsRow : TransactionRecord Money → Option Row → Type 0
  FitsRow r none = Unit
  FitsRow r (some old) =
      (old.tx_id ≡ r.tx_id) × (old.tenant_id ≡ r.tenant_id) × (old.created_at ≡ r.created_at)

  update_row-FitsRow :
      (r : TransactionRecord Money) (old : Row)
      → FitsRow r (some old)
      → update_row (row_of r) old ≡ row_of r
  update_row-FitsRow r old (id, tenant, creation) = rw (id, tenant, creation) refl

  select_row-save :
      (r : TransactionRecord Money) (table : List Row)
      → FitsRow r (select_row r.tx_id table)
      → select_row r.tx_id (save r table) ≡ some (row_of r)
  unfolding save
  select_row-save r table fits =
      select_row-upsert r.tx_id (row_of r) table
      ∙ rw (str_eq_refl r.tx_id) (elim (Option-cases (select_row r.tx_id table)) [
        | inl e ↦ rw e refl
        | inr (old, e) ↦ rw e (ap some (update_row-FitsRow r old (subst (FitsRow r) e fits)))
      ])

  -- `_save_tx_record` after each step of a transaction.
  abbrev pub save_all : List (TransactionRecord Money) → TxStores → TxStores
  save_all [] stores = stores
  save_all (r ∷ records) stores = save_all records (save_tx_record r stores)

  abbrev pub last_of :
      TransactionRecord Money → List (TransactionRecord Money) → TransactionRecord Money
  last_of r [] = r
  last_of r (s ∷ records) = last_of s records

  abbrev after : TransactionRecord Money → List (TransactionRecord Money) → List Row → List Row
  after r [] table = save r table
  after r (s ∷ records) table = after s records (save r table)

  save_all-durable :
      (r : TransactionRecord Money) (records : List (TransactionRecord Money)) (stores : TxStores)
      (table : List Row)
      → stores.durable ≡ some table
      → (save_all (r ∷ records) stores).durable ≡ some (after r records table)
  unfolding save_tx_record
  save_all-durable r [] stores table e = rw (e, save_tx_record) refl
  save_all-durable r (s ∷ records) stores table e =
      save_all-durable s records (save_tx_record r stores) (save r table)
        (rw (e, save_tx_record) refl)

  FitsRow-IsSame :
      (first r : TransactionRecord Money) (row : Option Row)
      → IsSame r first
      → FitsRow first row
      → FitsRow r row
  FitsRow-IsSame first r none same fits = tt
  FitsRow-IsSame first r (some old) same (id, tenant, creation) =
      (id ∙ sym same.same_id, tenant ∙ sym same.same_tenant, creation ∙ sym same.same_creation)

  select_row-saved :
      (first r : TransactionRecord Money) (table : List Row)
      → IsSame r first
      → FitsRow first (select_row first.tx_id table)
      → select_row first.tx_id (save r table) ≡ some (row_of r)
  select_row-saved first r table same fits =
      subst (λ k. select_row k (save r table) ≡ some (row_of r)) same.same_id
        (select_row-save r table (
          subst (λ k. FitsRow r (select_row k table)) (sym same.same_id)
            (FitsRow-IsSame first r (select_row first.tx_id table) same fits)))

  select_row-after :
      (first r : TransactionRecord Money) (records : List (TransactionRecord Money))
      (table : List Row)
      → IsSame r first
      → All (λ s. IsSame s first) records
      → FitsRow first (select_row first.tx_id table)
      → select_row first.tx_id (after r records table) ≡ some (row_of (last_of r records))
  select_row-after first r [] table same all fits = select_row-saved first r table same fits
  select_row-after first r (s ∷ records) table same all fits =
      select_row-after first s records (save r table) all.0 all.1 (
        subst (FitsRow first) (sym (select_row-saved first r table same fits))
          (same.same_id, same.same_tenant, same.same_creation))

  -- When a transaction new to the durable store is saved any number of times, with one tenant and
  -- one time of creation, then after a restart its record is loaded as it was saved last.
  pub load_tx_record-save_tx_record :
      (r : TransactionRecord Money) (records : List (TransactionRecord Money)) (stores : TxStores)
      (table : List Row)
      → stores.durable ≡ some table
      → select_row r.tx_id table ≡ none
      → All (λ s. IsSame s r) records
      → (stores' : TxStores) × (load_tx_record r.tx_id (restart (save_all (r ∷ records) stores))
          ≡ ok (stores', some (last_of r records)))
  unfolding load_tx_record
  load_tx_record-save_tx_record r records stores table there fresh same =
      let durable = save_all-durable r records stores table there in
      let found =
        select_row-after r r records table
          (record { same_id = refl; same_tenant = refl; same_creation = refl }) same
          (rw fresh tt) in
      (
        record {
          cache = insert r.tx_id (last_of r records) [];
          durable = some (after r records table);
        },
        rw (durable, load_tx_record)
            (rw found (rw (record_of-row_of (last_of r records), durable) refl)),
      )

  -- What is saved of one transaction shows at no other.
  pub load_tx_record-other :
      (k : String) (r : TransactionRecord Money) (table : List Row)
      → str_eq k r.tx_id ≡ false
      → select_row k (save r table) ≡ select_row k table
  unfolding save
  load_tx_record-other k r table other = select_row-upsert k (row_of r) table ∙ rw other refl
