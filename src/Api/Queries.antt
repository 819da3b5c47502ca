-- ===== src/Api/Queries.antt =====
-- The routes of ecn/api.py that read: the status of a transaction, audit events, polls of a topic, and
-- the usage, the ledger and the service level of a tenant. Amounts are not rounded.
use ecn.Common.{
  ℕ, ◌+◌, String, Bool, Option, none, some, List, [], ◌∷◌, map, length, Result, ok, raise, ◌>>=◌,
  ◌>>◌, guard, or_raise,
}
use ecn.StateManager.{Digest}
use ecn.Consensus.{Floats}
use ecn.Crypto.{Ed25519}
use ecn.Lifecycle.{TransactionRecord}
use ecn.Audit.{AuditEvent, AuditLog, get_event, get_events}
use ecn.Stream.{EventBus, consume}
use ecn.Billing.{
  BillingEnv, BillingTracker, Entry, UsageReport, SlaReport, get_usage, get_billing_ledger, get_sla,
}
use ecn.Billing.Totals.{total_billed}
use ecn.Persistence.Usage.{CounterStore}
use ecn.Persistence.Transactions.{load_tx_record}
use ecn.Api.{
  HttpError, not_found, billing_not_initialised, server_error, App, TransactionResponse,
  event_to_response,
}

module _ (Latency : Type 0) (leb_latency : Latency → Latency → Bool) (digest : Digest)
    (ed : Ed25519) (f : Floats) (store : CounterStore) where
  -- `get_transaction_status`; a text that is no state raises `ValueError`.
  unfoldable pub get_transaction_status :
      String
      → App Latency leb_latency digest ed f store
      → App Latency leb_latency digest ed f store × Result HttpError (TransactionRecord ℕ)
  get_transaction_status tx_id app = elim (load_tx_record ℕ tx_id app.tx_stores) [
    | raise e ↦ (app, raise server_error)
    | ok (stores, found) ↦ (record app { tx_stores = stores }, or_raise found not_found)
  ]

-- `get_audit_event`, for a round that is not negative
unfoldable pub get_audit_event : ℕ → AuditLog → Result HttpError TransactionResponse
get_audit_event round_id log = do
  event ← or_raise (get_event round_id log) not_found
  ok (event_to_response event none)

-- `get_audit_events`: the number of all events, and the page
unfoldable pub get_audit_events : ℕ → ℕ → AuditLog → ℕ × List TransactionResponse
get_audit_events offset limit log =
    (length log, map (λ e. event_to_response e none) (get_events (some limit) offset log))

-- `poll_topic`: the events, and the `next_offset` that goes with them
abbrev pub last_seq : List (ℕ × AuditEvent) → Option ℕ
last_seq [] = none
last_seq (e ∷ []) = some e.0
last_seq (e ∷ (x ∷ events)) = last_seq (x ∷ events)

unfoldable pub poll_topic :
    String → ℕ → ℕ → EventBus AuditEvent → Result HttpError (List (ℕ × AuditEvent) × ℕ)
poll_topic topic offset limit bus = elim (consume AuditEvent topic offset limit bus) [
  | raise e ↦ raise not_found
  | ok events ↦ ok (events, elim (last_seq events) [ none ↦ offset | some seq ↦ seq + 1 ])
]

-- What `tenant_billing_ledger` returns
pub record LedgerReport : Type 0 where
  pub tenant_id : String
  pub entries : List Entry
  pub total_entries : ℕ
  pub total_billed : ℕ

module _ (f : Floats) (store : CounterStore) where
  -- The start of the three routes, on whether the registry has the tenant, and then the tracker.
  unfoldable pub require_tracker :
      Bool → Option (BillingTracker f store) → Result HttpError (BillingTracker f store)
  require_tracker is_tenant tracker = do
    guard is_tenant not_found
    or_raise tracker billing_not_initialised

  unfoldable pub tenant_usage :
      BillingEnv → String → Bool → Option (BillingTracker f store) → Result HttpError UsageReport
  tenant_usage env tenant_id is_tenant tracker = do
    b ← require_tracker is_tenant tracker
    ok (get_usage f store env tenant_id b)

  unfoldable pub tenant_billing_ledger :
      String → Bool → Option (BillingTracker f store) → Result HttpError LedgerReport
  tenant_billing_ledger tenant_id is_tenant tracker = do
    b ← require_tracker is_tenant tracker
    let entries = get_billing_ledger f store tenant_id b
    ok (record {
      tenant_id = tenant_id;
      entries = entries;
      total_entries = length entries;
      total_billed = total_billed entries;
    })

  -- `tenant_sla`, where a `KeyError` of the tracker is not caught
  unfoldable pub tenant_sla :
      BillingEnv → String → Bool → Option (BillingTracker f store) → Result HttpError SlaReport
  tenant_sla env tenant_id is_tenant tracker = do
    b ← require_tracker is_tenant tracker
    elim (get_sla f store env tenant_id b) [ raise e ↦ raise server_error | ok sla ↦ ok sla ]
