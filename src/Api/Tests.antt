-- ===== src/Api/Tests.antt =====
-- A submission to the sample network, and one whose round finds no server.
use ecn.Common.{
  ℕ, ◌+◌, ◌*◌, ◌≡◌, refl, ap, inl, inr, none, some, List, [], arith, leb, Bool-cases, need, length,
  ok, raise,
}
use ecn.Common.Dict.{lookup, insert}
use ecn.Consensus.{ConsensusResult, NodeResult}
use ecn.Lifecycle.{TransactionRecord, replicated}
use ecn.Audit.{AuditEvent, has_fault, new_event}
use ecn.Stream.{EventBus, new_bus, append_event, fan_out, publish}
use ecn.Billing.{BillingTracker}
use ecn.Billing.Totals.{price}
use ecn.Persistence.Usage.{sqlite_counters}
use ecn.Samples.{minting, digest, ed25519, fractions}
use ecn.P2p.{
  unreachable, register_all, register, keys_of, send_to_server, visit, collect, conclude, broadcast,
}
use ecn.P2p as P2p
use ecn.P2p.Samples.{clock, only, net, link, heard}
use ecn.Health.{get_or_create}
use ecn.NodeServer.{new_server}
use ecn.Webhooks.{dispatch}
use ecn.Api.{
  insufficient_quorum, event_to_response, RequestEnv, publish_round, App, submit_transaction,
}
use ecn.Api.Submit.{pending, submit_transaction-raise}
use ecn.Api.Replicated.{submit_transaction-ok}

program : Unit {0}
unfolding new_bus append_event fan_out publish publish_round P2p.new_network register_all register
    keys_of send_to_server visit collect conclude broadcast get_or_create new_server insert dispatch
program = tt

abbrev env : RequestEnv ℕ
env = record {
  uuid = "tx1";
  created_at = "now";
  clock = record { utcnow = "later"; milliseconds_since = λ t. none };
  round_clock = clock;
  timestamp = "now";
  json = only minting;
  link = link;
  billing = record {
    granularity = "monthly";
    pricing_tier = "basic";
    now = record { strftime = λ format. "2026-01"; isoformat = "now" };
  };
}

abbrev tracker : BillingTracker fractions sqlite_counters
tracker = record {
  counters = [];
  ledger = record { seq = 0; entries = [] };
  sla = record { total = []; faults = [] };
}

abbrev app : App ℕ leb digest ed25519 fractions sqlite_counters
app = record {
  network = some net;
  tx_stores = record { cache = []; durable = some [] };
  tracker = some tracker;
  webhooks = [];
  deliveries = [];
  event_bus = some (new_bus AuditEvent 10);
}

-- No server is reached.
abbrev dead : RequestEnv ℕ
dead = record env { link = λ host port. unreachable }

submit_transaction-raise_example :
    (let submitted =
        submit_transaction ℕ leb digest ed25519 fractions sqlite_counters dead minting app in
      (submitted.1
        ≡ raise (insufficient_quorum (record { responded = 0; servers = 4; min_responses = 2 })))
      × (submitted.0.network
          ≡ some
              (broadcast ℕ leb digest ed25519 fractions
                (only minting)
                (λ host port. unreachable)
                clock
                "now"
                net
                minting).0)
      × (lookup "tx1" submitted.0.tx_stores.cache
          ≡ some (pending ℕ leb digest ed25519 fractions sqlite_counters dead minting app net []))
      × (submitted.0.tracker ≡ some tracker)
      × (submitted.0.deliveries ≡ [])
      × (submitted.0.event_bus ≡ some (new_bus AuditEvent 10)))
unfolding program
submit_transaction-raise_example =
    submit_transaction-raise ℕ leb digest ed25519 fractions sqlite_counters dead minting app net []
      (record { responded = 0; servers = 4; min_responses = 2 }) refl refl refl

-- A new bus takes every event.
published :
    (e : AuditEvent)
    → (bus : EventBus AuditEvent) × (publish_round e (new_bus AuditEvent 10) ≡ some bus)
unfolding program
published e = need (publish_round e (new_bus AuditEvent 10)) (λ gone.
    elim (Bool-cases (has_fault e)) [
      | inl g ↦ absurd (ground (arith, gone, g))
      | inr g ↦ absurd (ground (arith, gone, g))
    ])

submit_transaction-ok_example :
    (results : List NodeResult) × (c : ConsensusResult) × (r : TransactionRecord ℕ)
    × (let submitted =
          submit_transaction ℕ leb digest ed25519 fractions sqlite_counters env minting app in
        (submitted.1 ≡ ok (event_to_response (new_event [] "now" minting results c) (some r)))
        × (r.tx_id ≡ "tx1")
        × (r.state ≡ replicated)
        × (r.billed_amount ≡ (length results + length c.faulty_nodes) * price fractions env.billing)
        × (lookup "tx1" submitted.0.tx_stores.cache ≡ some r)
        × (submitted.0.deliveries ≡ []))
unfolding program
submit_transaction-ok_example =
    let (net', results, c, ran, three, _, _, _) = heard in
    let (bus', taken) = published (new_event [] "now" minting results c) in
    let (r, answer, id, state, amount, saved, sent, _) =
      submit_transaction-ok ℕ leb digest ed25519 fractions sqlite_counters env minting app net []
        results c (ap (λ x. x.1) ran) (omega (arith, three)) refl tracker (new_bus AuditEvent 10)
        bus' refl refl refl taken in
    (results, c, r, (answer, id, state, amount, saved, sent))
