-- ===== src/Persistence/Events.antt =====
-- `SQLiteAuditStore` of ecn/persistence.py, and the audit log of ecn/audit.py on it.
use ecn.Common.{
  String, ◌≡◌, refl, sym, ap, ◌∙◌, inl, inr, false, List, [], ◌∷◌, ◌++◌, map, arith, if◌then◌else◌,
  keep, Result, ok, raise, ◌>>=◌, some, Option-cases, Result-cases,
}
use ecn.Common.Text.{str_eq, str_eq_refl}
use mathlib.Core.Path.{subst}
use ecn.World.{Transaction}
use ecn.Consensus.{NodeResult, ConsensusResult}
use ecn.Audit.{AuditEvent, AuditLog, record_round}
use ecn.Persistence.Json.{Json, object, Fields, LoadError, load_rows, fields_of, JsonLibrary}
use ecn.Persistence.EventJson.{to_dict, event_of, event_of-to_dict}

module _ (json : JsonLibrary) where
  open json use {Printed, dumps, loads}

  -- A row of `audit_events`; the row ids grow with the position.
  pub record Row : Type 0 where
    pub tenant_id : String
    pub content : Printed

  -- `append`
  unfoldable pub append : Fields → String → List Row → List Row
  append event_dict tenant_id table =
      table ++ record { tenant_id = tenant_id; content = dumps (object event_dict) } ∷ []

  -- The `SELECT` of `load_all`: the rows of the tenant
  unfoldable pub select_rows : String → List Row → List Printed
  select_rows tenant_id table =
      map (λ row. row.content) (keep (λ row. str_eq row.tenant_id tenant_id) table)

  -- `load_all`
  abbrev pub load_all : String → List Row → Result LoadError (List Json)
  load_all tenant_id table = load_rows json (select_rows tenant_id table)

  -- The loop of `_load_from_store`
  unfoldable pub parse_events : List Json → Result LoadError (List AuditEvent)
  parse_events [] = ok []
  parse_events (v ∷ raw_events) = do
    d ← fields_of v
    e ← event_of d
    events ← parse_events raw_events
    ok (e ∷ events)

  -- `_load_from_store`
  unfoldable pub load_from_store : List Printed → Result LoadError (List AuditEvent)
  load_from_store rows = do raw_events ← load_rows json rows; parse_events raw_events

  -- `AuditLog` with a store, and the table that it shares with the logs of other tenants.
  pub record StoredLog : Type 0 where
    pub tenant_id : String
    pub events : AuditLog

  -- `AuditLog.__init__` on a table
  unfoldable pub open_log : String → List Row → Result LoadError StoredLog
  open_log tenant_id table = do
    events ← load_from_store (select_rows tenant_id table)
    ok (record { tenant_id = tenant_id; events = events })

  -- `AuditLog.record`, with the store
  unfoldable pub record_stored :
      String
      → Transaction
      → List NodeResult
      → ConsensusResult
      → StoredLog
      → List Row
      → StoredLog × List Row
  record_stored timestamp tx results c log table =
      let recorded = record_round log.events timestamp tx results c in
      (record log { events = recorded.0 }, append (to_dict recorded.1) log.tenant_id table)

  -- One call of `record`
  pub record RecordCall : Type 0 where
    pub timestamp : String
    pub tx : Transaction
    pub results : List NodeResult
    pub c : ConsensusResult

  abbrev pub record_calls : List RecordCall → StoredLog → List Row → StoredLog × List Row
  record_calls [] log table = (log, table)
  record_calls (r ∷ calls) log table =
      let recorded = record_stored r.timestamp r.tx r.results r.c log table in
      record_calls calls recorded.0 recorded.1

  module _ (loads-dumps : (j : Json) → loads (dumps j) ≡ some j) where
    -- A log that agrees with what its store holds of its tenant.
    abbrev pub IsStored : StoredLog → List Row → Type 0
    IsStored log table = load_from_store (select_rows log.tenant_id table) ≡ ok log.events

    load_rows-append :
        (rows : List Printed) (ds : List Json) (d : Json)
        → load_rows json rows ≡ ok ds
        → load_rows json (rows ++ dumps d ∷ []) ≡ ok (ds ++ d ∷ [])
    unfolding load_rows
    load_rows-append [] ds d h = rw (loads-dumps d, load_rows) (ground (arith, h))
    load_rows-append (row ∷ rows) ds d h = elim (Option-cases (loads row)) [
      | inl k ↦ absurd (ground (arith, h, k))
      | inr (a, k) ↦ elim (Result-cases (load_rows json rows)) [
        | inr (x, g) ↦ absurd (ground (arith, h, k, g))
        | inl (l, g) ↦
            let whole : ok (a ∷ l) ≡ ok ds = rw (k, g) at h in
            let ih = load_rows-append rows l d g in
            rw (k, load_rows) (rw ih (ap (λ r. do es ← r; ok (es ++ d ∷ [])) whole))
      ]
    ]

    -- One step of the loop on a value.
    abbrev read : Json → Result LoadError AuditEvent
    read v = do d ← fields_of v; event_of d

    parse_events-step :
        (v : Json) (raw_events : List Json) (e : AuditEvent)
        → read v ≡ ok e
        → parse_events (v ∷ raw_events) ≡ (do events ← parse_events raw_events; ok (e ∷ events))
    unfolding parse_events
    parse_events-step (object d) raw_events e h = rw h refl
    parse_events-step _ raw_events e h = absurd (ground (arith, h))

    parse_events-raise :
        (v : Json) (raw_events : List Json) (x : LoadError)
        → read v ≡ raise x
        → parse_events (v ∷ raw_events) ≡ raise x
    unfolding parse_events
    parse_events-raise (object d) raw_events x h = rw h refl
    parse_events-raise _ raw_events x h = ground (arith, h)

    parse_events-append :
        (ds : List Json) (events : List AuditEvent) (e : AuditEvent)
        → parse_events ds ≡ ok events
        → parse_events (ds ++ object (to_dict e) ∷ []) ≡ ok (events ++ e ∷ [])
    unfolding parse_events
    parse_events-append [] events e h = rw (event_of-to_dict e, parse_events) (ground (arith, h))
    parse_events-append (v ∷ ds) events e h = elim (Result-cases (read v)) [
      | inr (x, k) ↦ absurd (ground (arith, h, parse_events-raise v ds x k))
      | inl (a, k) ↦ elim (Result-cases (parse_events ds)) [
        | inr (x, g) ↦ absurd (ground (arith, h, parse_events-step v ds a k, g))
        | inl (l, g) ↦
            let whole : ok (a ∷ l) ≡ ok events = sym (parse_events-step v ds a k ∙ rw g refl) ∙ h in
            parse_events-step v (ds ++ object (to_dict e) ∷ []) a k
            ∙ rw (parse_events-append ds l e g) (ap (λ r. do es ← r; ok (es ++ e ∷ [])) whole)
      ]
    ]

    load_from_store-append :
        (rows : List Printed) (events : List AuditEvent) (e : AuditEvent)
        → load_from_store rows ≡ ok events
        → load_from_store (rows ++ dumps (object (to_dict e)) ∷ []) ≡ ok (events ++ e ∷ [])
    unfolding load_from_store
    load_from_store-append rows events e h = elim (Result-cases (load_rows json rows)) [
      | inr (x, k) ↦ absurd (ground (arith, h, k))
      | inl (ds, k) ↦
          rw (load_rows-append rows ds (object (to_dict e)) k, load_from_store)
            (parse_events-append ds events e (rw k at h))
    ]

    select_rows-append :
        (t s : String) (e : AuditEvent) (table : List Row)
        → select_rows t (append (to_dict e) s table) ≡ (
            if str_eq s t
            then select_rows t table ++ dumps (object (to_dict e)) ∷ []
            else select_rows t table)
    unfolding select_rows append
    select_rows-append t s e [] = ground arith
    select_rows-append t s e (row ∷ table) = ground (arith, select_rows-append t s e table)

    select_rows-append_same :
        (t : String) (e : AuditEvent) (table : List Row)
        → select_rows t (append (to_dict e) t table)
          ≡ select_rows t table ++ dumps (object (to_dict e)) ∷ []
    select_rows-append_same t e table = select_rows-append t t e table ∙ rw (str_eq_refl t) refl

    record_stored-IsStored :
        (timestamp : String) (tx : Transaction) (results : List NodeResult) (c : ConsensusResult)
        (log : StoredLog) (table : List Row)
        → IsStored log table
        → (let recorded = record_stored timestamp tx results c log table in
            IsStored recorded.0 recorded.1)
    unfolding record_stored record_round
    record_stored-IsStored timestamp tx results c log table stored =
        let e = (record_round log.events timestamp tx results c).1 in
        ap load_from_store (select_rows-append_same log.tenant_id e table)
        ∙ load_from_store-append (select_rows log.tenant_id table) log.events e stored

    record_calls-IsStored :
        (calls : List RecordCall) (log : StoredLog) (table : List Row)
        → IsStored log table
        → (let recorded = record_calls calls log table in IsStored recorded.0 recorded.1)
          × ((record_calls calls log table).0.tenant_id ≡ log.tenant_id)
    unfolding record_stored
    record_calls-IsStored [] log table stored = (stored, refl)
    record_calls-IsStored (r ∷ calls) log table stored =
        let recorded = record_stored r.timestamp r.tx r.results r.c log table in
        record_calls-IsStored calls recorded.0 recorded.1
          (record_stored-IsStored r.timestamp r.tx r.results r.c log table stored)

    others_rows :
        (u : String) (calls : List RecordCall) (log : StoredLog) (table : List Row)
        → str_eq log.tenant_id u ≡ false
        → select_rows u (record_calls calls log table).1 ≡ select_rows u table
    unfolding record_stored
    others_rows u [] log table other = refl
    others_rows u (r ∷ calls) log table other =
        let recorded = record_stored r.timestamp r.tx r.results r.c log table in
        others_rows u calls recorded.0 recorded.1 other
        ∙ select_rows-append u log.tenant_id
            (record_round log.events r.timestamp r.tx r.results r.c).1 table
        ∙ rw other refl

    IsStored-open_log :
        (t : String) (log : StoredLog) (table : List Row)
        → open_log t table ≡ ok log
        → (log.tenant_id ≡ t) × IsStored log table
    unfolding open_log
    IsStored-open_log t log table opened =
        elim (Result-cases (load_from_store (select_rows t table))) [
          | inr (x, e) ↦ absurd (ground (arith, opened, e))
          | inl (events, e) ↦
              let built : ok (record { tenant_id = t; events = events }) ≡ ok log =
                rw e at opened in
              let same : record { tenant_id = t; events = events } ≡ log =
                ap (λ r. elim r [ ok l ↦ l | raise x ↦ log ]) built in
              (
                sym (ap (λ l. l.tenant_id) same),
                rw (← ap (λ l. l.tenant_id) same) (e ∙ ap (λ l. ok l.events) same),
              )
        ]

    open_log-IsStored :
        (log : StoredLog) (table : List Row)
        → IsStored log table
        → open_log log.tenant_id table ≡ ok log
    unfolding open_log
    open_log-IsStored log table stored = rw (stored, open_log) refl

    -- When `json.loads` gives back the values that `json.dumps` prints, a log that was opened on a store and has recorded
    -- any rounds is found again, event by event, when it is opened anew after a restart; the log of
    -- another tenant on the same store opens as it did before.
    pub open_log-record_stored :
        (t u : String) (calls : List RecordCall) (log : StoredLog) (table : List Row)
        → open_log t table ≡ ok log
        → (let recorded = record_calls calls log table in
            (open_log t recorded.1 ≡ ok recorded.0)
            × (str_eq t u ≡ false → open_log u recorded.1 ≡ open_log u table))
    unfolding open_log
    open_log-record_stored t u calls log table opened =
        let (tenant, stored) = IsStored-open_log t log table opened in
        let recorded = record_calls calls log table in
        let (stored', same) = record_calls-IsStored calls log table stored in
        (
          subst (λ k. open_log k recorded.1 ≡ ok recorded.0) (same ∙ tenant)
              (open_log-IsStored recorded.0 recorded.1 stored'),
          λ other. rw (others_rows u calls log table (rw tenant other), open_log) refl,
        )
