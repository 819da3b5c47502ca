-- ===== src/Api/Replicated.antt =====
-- A submitted transaction whose round is held goes to REPLICATED, is billed, and is made known.
use ecn.Common.{
  ℕ, suc, ◌+◌, ◌*◌, ◌<◌, String, ◌≡◌, refl, ap, ◌∙◌, inl, inr, Bool, false, none, some, List, [],
  ◌∷◌, ◌++◌, arith, ltb, ◌==◌, Bool-cases, length, get_elem?, length-append, Result, ok, raise,
}
use ecn.Common.Text.{str_eq_refl}
use ecn.Common.Dict.{lookup}
use ecn.World.{Transaction}
use ecn.StateManager.{Digest}
use ecn.Consensus.{Floats, NodeResult, ConsensusResult}
use ecn.Crypto.{Ed25519}
use ecn.Lifecycle.{
  TxState-discrete, consensus_pending, finalized, billed, replicated, valid_transitions, allows,
  TransactionRecord, new_record, finalize, transition,
}
use ecn.Audit.{AuditEvent, AuditLog, get_event, new_event, record_round}
use ecn.Stream.{EventBus}
use ecn.Billing.{BillingTracker}
use ecn.Billing as Billing
use ecn.Billing.Totals.{price, compute_billed_amount-ok}
use ecn.Persistence.Usage.{CounterStore}
use ecn.Persistence.Transactions.{save_tx_record}
use ecn.Webhooks.{dispatch}
use ecn.Consensus.{run_consensus}
use ecn.Crypto.{verifier}
use ecn.P2p.{record_in, P2pNetwork, InsufficientQuorum, conclude, broadcast}
use ecn.Api.{
  HttpError, TransactionResponse, event_to_response, advance_all, RequestEnv, bill, publish_round,
  App, with_outcome, replicate, charge, settle, latest_event, run_round, submit_transaction,
}
use ecn.Api.Submit.{at, pending, stores, lookup-save_tx_record, submit_transaction-run_round}

get_elem?-append :
    {A : Type 0} (xs : List A) (x : A) → get_elem? (xs ++ x ∷ []) (length xs) ≡ some x
get_elem?-append [] x = refl
get_elem?-append (y ∷ xs) x = get_elem?-append xs x

-- What is recorded last is the latest event.
latest_event-append :
    (log : AuditLog) (e : AuditEvent) → latest_event (some (log ++ e ∷ [])) ≡ some e
unfolding get_event
latest_event-append log e =
    let count : length (log ++ e ∷ []) ≡ suc (length log) =
      omega (arith, length-append log (e ∷ [])) in
    rw (count, get_event) (ground (arith, get_elem?-append log e, count))

module _ (Latency : Type 0) (leb_latency : Latency → Latency → Bool) (digest : Digest)
    (ed : Ed25519) (f : Floats) (store : CounterStore) (env : RequestEnv Latency) where
  abbrev Site : Type 0
  Site = App Latency leb_latency digest ed f store

  abbrev Net : Type 0
  Net = P2pNetwork Latency leb_latency digest ed f

  module _ (event : AuditEvent) (bus bus' : EventBus AuditEvent)
      (published : publish_round event bus ≡ some bus') where
    replicate-ok :
        (r : TransactionRecord ℕ) (app : Site)
        → app.event_bus ≡ some bus
        → replicate Latency leb_latency digest ed f store env event (at billed r) app ≡ (
          record app {
            tx_stores = save_tx_record ℕ (at replicated r) app.tx_stores;
            deliveries = app.deliveries ++ dispatch event app.webhooks;
            event_bus = some bus';
          },
          ok (event_to_response event (some (at replicated r))),
        )
    unfolding TxState-discrete advance_all transition valid_transitions allows replicate
    replicate-ok r app has_bus = rw (has_bus, replicate) (rw published refl)

  -- A record with what its nodes cost.
  abbrev pub paid : TransactionRecord ℕ → TransactionRecord ℕ
  paid r = record r { billed_amount = r.node_count * price f env.billing }

  charge-ok :
      (event : AuditEvent) (r : TransactionRecord ℕ) (app : Site)
      (tracker tracker' : BillingTracker f store)
      → app.tracker ≡ some tracker
      → Billing.record_round f store env.billing r.tenant_id r.tx_id r.node_count
          r.consensus_reached tracker
        ≡ ok (tracker', r.node_count * price f env.billing)
      → charge Latency leb_latency digest ed f store env event r app
        ≡ replicate Latency leb_latency digest ed f store env event (paid r) (record app {
          tracker = some tracker';
          tx_stores = save_tx_record ℕ (paid r) app.tx_stores;
        })
  unfolding bill charge
  charge-ok event r app tracker tracker' has_tracker recorded =
      let billed_so : bill f store env.billing r app.tracker ≡ ok (some tracker', paid r) =
        ap (bill f store env.billing r) has_tracker ∙ rw (recorded, bill) refl in
      rw (billed_so, charge) refl

  settle-charge :
      (event : AuditEvent) (r : TransactionRecord ℕ) (app : Site)
      → (let fin = finalize ℕ env.clock r in
          settle Latency leb_latency digest ed f store env event (at consensus_pending r) app
          ≡ charge Latency leb_latency digest ed f store env event
              (at billed fin)
              (record app { tx_stores = save_tx_record ℕ (at finalized fin) app.tx_stores }))
  unfolding TxState-discrete advance_all transition valid_transitions allows settle finalize
  settle-charge event r app = refl

  conclude-audit :
      (timestamp : String) (net : Net) (tx : Transaction) (came results : List NodeResult)
      (c : ConsensusResult)
      → (conclude Latency leb_latency digest ed f timestamp net tx came).1 ≡ ok (results, c)
      → (conclude Latency leb_latency digest ed f timestamp net tx came).0.audit_log
        ≡ record_in Latency leb_latency digest ed f net.audit_log timestamp tx results c
  unfolding conclude
  conclude-audit timestamp net tx came results c held =
      elim (Bool-cases (ltb (length came) net.min_responses)) [
        | inl e ↦ absurd (ground (arith, held, e))
        | inr e ↦
            let same : ok (
              came,
              run_consensus f (verifier ed) came (some net.public_keys) net.quorum_threshold,
            )
                ≡ ok (results, c) =
              rw e at held in
            rw (e, conclude)
              (ap
                (λ x. elim x [
                  | ok p ↦
                      record_in Latency leb_latency digest ed f net.audit_log timestamp tx p.0 p.1
                  | raise y ↦ none
                ])
                same)
      ]

  record_round-ok :
      (t tx_id : String) (n : ℕ) (reached : Bool) (b : BillingTracker f store)
      → (b' : BillingTracker f store) × (Billing.record_round f store env.billing t tx_id n reached
            b
          ≡ ok (b', n * price f env.billing))
  unfolding Billing.record_round
  record_round-ok t tx_id n reached b =
      let period = Billing.current_period env.billing.granularity env.billing.now in
      (
        record {
          counters = store.count_up t period b.counters;
          ledger =
              Billing.append_entry env.billing.now.isoformat tx_id t period n
                (n * price f env.billing) reached b.ledger;
          sla = Billing.record_sla t reached b.sla;
        },
        rw (compute_billed_amount-ok f env.billing n, Billing.record_round) refl,
      )

  module _ (tx : Transaction) (app : Site) (net : Net) (log : AuditLog) where
    abbrev submitted : Site × Result HttpError TransactionResponse
    submitted = submit_transaction Latency leb_latency digest ed f store env tx app

    abbrev sent : Net × Result InsufficientQuorum (List NodeResult × ConsensusResult)
    sent =
        broadcast Latency leb_latency digest ed f env.json env.link env.round_clock env.timestamp
          net tx

    -- The record of a transaction that went all the way.
    abbrev pub final : List NodeResult → ConsensusResult → TransactionRecord ℕ
    final results c = at replicated (
        paid (
          finalize ℕ env.clock (
            with_outcome Latency leb_latency digest ed f store results c
              (pending Latency leb_latency digest ed f store env tx app net log))))

    module _ (results : List NodeResult) (c : ConsensusResult) (held : sent.1 ≡ ok (results, c))
        (some_result : 0 < length results) (has_log : net.audit_log ≡ some log) where
      abbrev event : AuditEvent
      event = new_event log env.timestamp tx results c

      latest : latest_event sent.0.audit_log ≡ some event
      unfolding broadcast record_round
      latest =
          ap latest_event (
            conclude-audit env.timestamp _ tx _ results c held
            ∙ ap (λ l. record_in Latency leb_latency digest ed f l env.timestamp tx results c)
                has_log)
          ∙ latest_event-append log event

      run_round-settle :
          (r : TransactionRecord ℕ) (site : Site)
          → run_round Latency leb_latency digest ed f store env tx net r site
            ≡ settle Latency leb_latency digest ed f store env event
                (with_outcome Latency leb_latency digest ed f store results c r)
                (record site { network = some sent.0 })
      unfolding run_round
      run_round-settle r site =
          let nonzero : (length results == 0) ≡ false = ground (arith, some_result) in
          rw (held, run_round) (rw nonzero (rw latest refl))

      -- When there are a network with an audit log, a tracker and an event bus with its topics, and the
      -- round of a submitted transaction is held and brings a result, the answer is the event of the
      -- round with a record at REPLICATED: that record is the one that can be looked up, its amount is
      -- the price of as many nodes as there are results and faulty nodes, the webhooks have been sent
      -- the event, and it is published.
      pub submit_transaction-ok :
          (tracker : BillingTracker f store) (bus bus' : EventBus AuditEvent)
          → app.network ≡ some net
          → app.tracker ≡ some tracker
          → app.event_bus ≡ some bus
          → publish_round event bus ≡ some bus'
          → (r : TransactionRecord ℕ) × (submitted.1 ≡ ok (event_to_response event (some r)))
            × (r.tx_id ≡ env.uuid)
            × (r.state ≡ replicated)
            × (r.billed_amount ≡ (length results + length c.faulty_nodes) * price f env.billing)
            × (lookup env.uuid submitted.0.tx_stores.cache ≡ some r)
            × (submitted.0.deliveries ≡ app.deliveries ++ dispatch event app.webhooks)
            × (submitted.0.event_bus ≡ some bus')
      unfolding finalize new_record
      submit_transaction-ok tracker bus bus' has_net has_tracker has_bus published =
          let r0 =
            with_outcome Latency leb_latency digest ed f store results c
              (pending Latency leb_latency digest ed f store env tx app net log) in
          let fin = finalize ℕ env.clock r0 in
          let (tracker', recorded) =
            record_round-ok fin.tenant_id fin.tx_id fin.node_count fin.consensus_reached tracker in
          let site : Site = record app {
            network = some sent.0;
            tx_stores = stores Latency leb_latency digest ed f store env tx app net log;
          } in
          let settled : Site = record site {
            tx_stores = save_tx_record ℕ (at finalized fin) site.tx_stores;
          } in
          let charged : Site = record settled {
            tracker = some tracker';
            tx_stores = save_tx_record ℕ (at billed (paid fin)) settled.tx_stores;
          } in
          let whole =
            submit_transaction-run_round Latency leb_latency digest ed f store env tx app net log
              has_net has_log
            ∙ run_round-settle _ _
            ∙ settle-charge event r0 site
            ∙ charge-ok event (at billed fin) settled tracker tracker' has_tracker recorded
            ∙ replicate-ok event bus bus' published (paid fin) charged has_bus in
          (
            at replicated (paid fin),
            ap (λ x. x.1) whole,
            refl,
            refl,
            refl,
            ap (λ x. lookup env.uuid x.0.tx_stores.cache) whole
                ∙ lookup-save_tx_record env.uuid (at replicated (paid fin)) charged.tx_stores
                ∙ rw (str_eq_refl env.uuid) refl,
            ap (λ x. x.0.deliveries) whole,
            ap (λ x. x.0.event_bus) whole,
          )
