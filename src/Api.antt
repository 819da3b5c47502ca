-- ===== src/Api.antt =====
-- ecn/api.py: the route that submits a transaction. A request that fails leaves
-- behind what the route has done up to there. `_audit_log` is the log that the network records in,
-- as `lifespan` sets it up; logging and the JSON of the responses are left out.
pub mod Queries
pub mod Submit
pub mod Replicated
mod Tests
use ecn.Common.{
  ℕ, ◌+◌, String, Bool, Option, none, some, List, [], ◌∷◌, ◌++◌, ◌==◌, if◌then◌else◌, length,
  Result, ok, raise, ◌>>=◌,
}
use ecn.World.{Transaction}
use ecn.StateManager.{Digest}
use ecn.Consensus.{Floats, NodeResult, ConsensusResult}
use ecn.Crypto.{Ed25519}
use ecn.Lifecycle.{
  TxState, executing, proposed, consensus_pending, finalized, billed, replicated, InvalidTransition,
  TransactionRecord, new_record, transition,
}
use ecn.Lifecycle as Lifecycle
use ecn.Audit.{AuditEvent, AuditLog, has_fault, get_event}
use ecn.Stream.{EventBus, publish}
use ecn.Billing.{BillingEnv, BillingTracker, record_round}
use ecn.Persistence.Usage.{CounterStore}
use ecn.Persistence.Transactions.{TxStores, save_tx_record}
use ecn.Webhooks.{WebhookRegistry, Delivery, dispatch}
use ecn.P2p.{Attempt, Json, InsufficientQuorum, P2pNetwork, node_count, broadcast}
use ecn.Health as Health

-- `HTTPException`, by its cause; `server_error` is an exception that no handler catches.
pub data HttpError : Type 0 where
  network_not_initialised : HttpError
  audit_not_initialised : HttpError
  billing_not_initialised : HttpError
  insufficient_quorum : InsufficientQuorum → HttpError
  all_rejected : HttpError
  not_recorded : HttpError
  not_found : HttpError
  server_error : HttpError

abbrev pub status_code : HttpError → ℕ
status_code network_not_initialised = 503
status_code audit_not_initialised = 503
status_code billing_not_initialised = 503
status_code (insufficient_quorum e) = 422
status_code all_rejected = 422
status_code not_recorded = 500
status_code not_found = 404
status_code server_error = 500

-- The body of `POST /transactions`, from which the tests of `to_ecn_tx` take the fields that are there.
abbrev pub to_ecn_tx : Transaction → Transaction
to_ecn_tx body = body

-- The fields of a response that are not those of the event.
pub record TransactionResponse : Type 0 where
  pub tx_id : String
  pub lifecycle_state : TxState
  pub event : AuditEvent
  pub billed_amount : ℕ
  pub duration_ms : ℕ

-- `_event_to_response`
unfoldable pub event_to_response : AuditEvent → Option (TransactionRecord ℕ) → TransactionResponse
event_to_response event none = record {
  tx_id = "";
  lifecycle_state = replicated;
  event = event;
  billed_amount = 0;
  duration_ms = 0;
}
event_to_response event (some r) = record {
  tx_id = r.tx_id;
  lifecycle_state = r.state;
  event = event;
  billed_amount = r.billed_amount;
  duration_ms = r.duration_ms;
}

-- The loop of transitions, each of which is saved: where one is refused the saves before it stay.
unfoldable pub advance_all :
    Lifecycle.Clock
    → List TxState
    → TransactionRecord ℕ
    → TxStores ℕ
    → TxStores ℕ × Result InvalidTransition (TransactionRecord ℕ)
advance_all clock [] r stores = (stores, ok r)
advance_all clock (state ∷ states) r stores = elim (transition ℕ clock r state) [
  | raise e ↦ (stores, raise e)
  | ok next ↦ advance_all clock states next (save_tx_record ℕ next stores)
]

-- What a request meets outside: fresh identifiers, clocks, and the network.
pub record RequestEnv (Latency : Type 0) : Type 0 where
  pub uuid : String
  pub created_at : String
  pub clock : Lifecycle.Clock
  pub round_clock : Health.Clock
  pub timestamp : String
  pub json : Json
  pub link : String → ℕ → Attempt Latency
  pub billing : BillingEnv

module _ (f : Floats) (store : CounterStore) where
  -- `tracker.record_round(...)`, where a missing tracker is passed over: the amount that is billed.
  unfoldable pub bill :
      BillingEnv
      → TransactionRecord ℕ
      → Option (BillingTracker f store)
      → Result String (Option (BillingTracker f store) × TransactionRecord ℕ)
  bill env r none = ok (none, r)
  bill env r (some tracker) = do
    recorded ← record_round f store env r.tenant_id r.tx_id r.node_count r.consensus_reached tracker
    ok (some recorded.0, record r { billed_amount = recorded.1 })

-- `_event_bus.publish` of an event, and of one with a fault a second time: none where it raises.
unfoldable pub publish_round : AuditEvent → EventBus AuditEvent → Option (EventBus AuditEvent)
publish_round event bus = elim (publish AuditEvent "transactions" event bus) [
  | raise e ↦ none
  | ok published ↦
      if has_fault event
      then (elim (publish AuditEvent "faults" event published.0) [
        | raise e ↦ none
        | ok again ↦ some again.0
      ])
      else some published.0
]

-- The event that the round has left in the audit log: `audit.get_event(len(audit))`
abbrev pub latest_event : Option AuditLog → Option AuditEvent
latest_event none = none
latest_event (some log) = get_event (length log) log

module _ (Latency : Type 0) (leb_latency : Latency → Latency → Bool) (digest : Digest)
    (ed : Ed25519) (f : Floats) (store : CounterStore) where
  -- The global variables of the module, and the webhooks that have been sent.
  pub record App : Type 0 where
    pub network : Option (P2pNetwork Latency leb_latency digest ed f)
    pub tx_stores : TxStores ℕ
    pub tracker : Option (BillingTracker f store)
    pub webhooks : WebhookRegistry
    pub deliveries : List Delivery
    pub event_bus : Option (EventBus AuditEvent)

  -- The record with the outcome of the round.
  abbrev pub with_outcome :
      List NodeResult → ConsensusResult → TransactionRecord ℕ → TransactionRecord ℕ
  with_outcome results c r = record r {
    consensus_reached = c.consensus_reached;
    fault_count = length c.faulty_nodes;
    node_count = length results + length c.faulty_nodes;
  }

  -- `submit_transaction` once the transaction is billed: REPLICATED, webhooks and events.
  unfoldable pub replicate :
      RequestEnv Latency
      → AuditEvent
      → TransactionRecord ℕ
      → App
      → App × Result HttpError TransactionResponse
  replicate env event r app =
      let advanced = advance_all env.clock (replicated ∷ []) r app.tx_stores in
      let app' = record app { tx_stores = advanced.0 } in
      elim advanced.1 [
        | raise e ↦ (app', raise server_error)
        | ok done ↦
            let sent = record app' { deliveries = app.deliveries ++ dispatch event app.webhooks } in
            elim app.event_bus [
              | none ↦ (sent, ok (event_to_response event (some done)))
              | some bus ↦ elim (publish_round event bus) [
                | none ↦ (sent, raise server_error)
                | some bus' ↦ (
                  record sent { event_bus = some bus' },
                  ok (event_to_response event (some done)),
                )
              ]
            ]
      ]

  -- The billing of a record that is due; the record is saved with its amount.
  unfoldable pub charge :
      RequestEnv Latency
      → AuditEvent
      → TransactionRecord ℕ
      → App
      → App × Result HttpError TransactionResponse
  charge env event due app = elim (bill f store env.billing due app.tracker) [
    | raise e ↦ (app, raise server_error)
    | ok paid ↦
        replicate env event paid.1
          (record app { tracker = paid.0; tx_stores = save_tx_record ℕ paid.1 app.tx_stores })
  ]

  -- `submit_transaction` from FINALIZED on.
  unfoldable pub settle :
      RequestEnv Latency
      → AuditEvent
      → TransactionRecord ℕ
      → App
      → App × Result HttpError TransactionResponse
  settle env event r app =
      let advanced = advance_all env.clock (finalized ∷ []) r app.tx_stores in
      let app' = record app { tx_stores = advanced.0 } in
      elim advanced.1 [
        | raise e ↦ (app', raise server_error)
        | ok final ↦ elim (transition ℕ env.clock final billed) [
          | raise e ↦ (app', raise server_error)
          | ok due ↦ charge env event due app'
        ]
      ]

  -- `submit_transaction` from the broadcast on.
  unfoldable pub run_round :
      RequestEnv Latency
      → Transaction
      → P2pNetwork Latency leb_latency digest ed f
      → TransactionRecord ℕ
      → App
      → App × Result HttpError TransactionResponse
  run_round env tx net r app =
      let sent =
        broadcast Latency leb_latency digest ed f env.json env.link env.round_clock env.timestamp
          net tx in
      let app' = record app { network = some sent.0 } in
      elim sent.1 [
        | raise e ↦ (app', raise (insufficient_quorum e))
        | ok (results, c) ↦
            if length results == 0
            then (app', raise all_rejected)
            else (elim (latest_event sent.0.audit_log) [
              | none ↦ (app', raise not_recorded)
              | some event ↦ settle env event (with_outcome results c r) app'
            ])
      ]

  -- `submit_transaction` once the network is there: the record is made and goes to
  -- CONSENSUS_PENDING. A refused transition would answer 422 or 500.
  unfoldable pub propose :
      RequestEnv Latency
      → Transaction
      → P2pNetwork Latency leb_latency digest ed f
      → App
      → App × Result HttpError TransactionResponse
  propose env body net app =
      let r =
        new_record ℕ 0 env.created_at env.uuid "" none
          (node_count Latency leb_latency digest ed f net) in
      let advanced =
        advance_all env.clock (executing ∷ proposed ∷ consensus_pending ∷ []) r
          (save_tx_record ℕ r app.tx_stores) in
      let app' = record app { tx_stores = advanced.0 } in
      elim advanced.1 [
        | raise e ↦ (app', raise server_error)
        | ok pending ↦ run_round env (to_ecn_tx body) net pending app'
      ]

  -- `submit_transaction`
  unfoldable pub submit_transaction :
      RequestEnv Latency → Transaction → App → App × Result HttpError TransactionResponse
  submit_transaction env body app = elim app.network [
    | none ↦ (app, raise network_not_initialised)
    | some net ↦ elim net.audit_log [
      | none ↦ (app, raise audit_not_initialised)
      | some log ↦ propose env body net app
    ]
  ]
