-- ===== src/Api/Submit.antt =====
-- The life of a submitted transaction: all the way to REPLICATED when the round is held, and where it
-- stops when the round is not.
use ecn.Common.{
  ℕ, String, ◌≡◌, refl, ap, ◌∙◌, Bool, none, some, List, [], ◌∷◌, if◌then◌else◌, Result, ok, raise,
}
use ecn.Common.Text.{str_eq, str_eq_refl}
use ecn.Common.Dict.{lookup, lookup-insert}
use ecn.World.{Transaction}
use ecn.StateManager.{Digest}
use ecn.Consensus.{Floats, NodeResult, ConsensusResult}
use ecn.Crypto.{Ed25519}
use ecn.Lifecycle.{
  TxState, TxState-discrete, initiated, executing, proposed, consensus_pending, finalized, billed,
  replicated, valid_transitions, allows, TransactionRecord, new_record, finalize, transition,
}
use ecn.Lifecycle as Lifecycle
use ecn.Audit.{AuditLog}
use ecn.Persistence.Usage.{CounterStore}
use ecn.Persistence.Transactions.{TxStores, save_tx_record}
use ecn.P2p.{P2pNetwork, InsufficientQuorum, node_count, broadcast}
use ecn.Api.{
  HttpError, insufficient_quorum, TransactionResponse, advance_all, RequestEnv, App, propose,
  network_not_initialised, audit_not_initialised, run_round, submit_transaction,
}

-- A record at a state.
abbrev pub at : TxState → TransactionRecord ℕ → TransactionRecord ℕ
at s r = record r { state = s }

-- The states up to the broadcast, one by one.
start :
    (clock : Lifecycle.Clock) (r : TransactionRecord ℕ) (stores : TxStores ℕ)
    → advance_all clock (executing ∷ proposed ∷ consensus_pending ∷ []) (at initiated r) stores ≡ (
      save_tx_record ℕ
          (at consensus_pending r)
          (save_tx_record ℕ (at proposed r) (save_tx_record ℕ (at executing r) stores)),
      ok (at consensus_pending r),
    )
unfolding TxState-discrete advance_all transition valid_transitions allows
start clock r stores = refl

finish :
    (clock : Lifecycle.Clock) (r : TransactionRecord ℕ) (stores : TxStores ℕ)
    → advance_all clock (finalized ∷ []) (at consensus_pending r) stores ≡ (
      save_tx_record ℕ (at finalized (finalize ℕ clock r)) stores,
      ok (at finalized (finalize ℕ clock r)),
    )
unfolding TxState-discrete advance_all transition valid_transitions allows finalize
finish clock r stores = refl

due :
    (clock : Lifecycle.Clock) (r : TransactionRecord ℕ)
    → transition ℕ clock (at finalized r) billed ≡ ok (at billed r)
unfolding TxState-discrete transition valid_transitions allows
due clock r = refl

close :
    (clock : Lifecycle.Clock) (r : TransactionRecord ℕ) (stores : TxStores ℕ)
    → advance_all clock (replicated ∷ []) (at billed r) stores
      ≡ (save_tx_record ℕ (at replicated r) stores, ok (at replicated r))
unfolding TxState-discrete advance_all transition valid_transitions allows
close clock r stores = refl

-- A saved record is in the cache.
pub lookup-save_tx_record :
    (k : String) (r : TransactionRecord ℕ) (stores : TxStores ℕ)
    → lookup k (save_tx_record ℕ r stores).cache
      ≡ (if str_eq k r.tx_id then some r else lookup k stores.cache)
unfolding save_tx_record
lookup-save_tx_record k r stores = lookup-insert k r.tx_id r stores.cache

module _ (Latency : Type 0) (leb_latency : Latency → Latency → Bool) (digest : Digest)
    (ed : Ed25519) (f : Floats) (store : CounterStore) (env : RequestEnv Latency) (tx : Transaction)
    (app : App Latency leb_latency digest ed f store)
    (net : P2pNetwork Latency leb_latency digest ed f) (log : AuditLog) where
  abbrev submitted :
      App Latency leb_latency digest ed f store × Result HttpError TransactionResponse
  submitted = submit_transaction Latency leb_latency digest ed f store env tx app

  abbrev sent :
      P2pNetwork Latency leb_latency digest ed f
      × Result InsufficientQuorum (List NodeResult × ConsensusResult)
  sent =
      broadcast Latency leb_latency digest ed f env.json env.link env.round_clock env.timestamp net
        tx

  -- The record before the round.
  abbrev pub pending : TransactionRecord ℕ
  pending = at consensus_pending (
      new_record ℕ 0 env.created_at env.uuid "" none
        (node_count Latency leb_latency digest ed f net))

  -- What is saved before the round.
  abbrev pub stores : TxStores ℕ
  stores = save_tx_record ℕ pending (
      save_tx_record ℕ (at proposed pending) (
        save_tx_record ℕ (at executing pending)
          (save_tx_record ℕ (at initiated pending) app.tx_stores)))

  pub submit_transaction-run_round :
      app.network ≡ some net
      → net.audit_log ≡ some log
      → submitted
        ≡ run_round Latency leb_latency digest ed f store env tx net pending
            (record app { tx_stores = stores })
  unfolding TxState-discrete advance_all transition valid_transitions allows new_record
      submit_transaction propose
  submit_transaction-run_round has_net has_log =
      ap
        (λ n. elim n [
          | none ↦ (app, raise network_not_initialised)
          | some m ↦ elim m.audit_log [
            | none ↦ (app, raise audit_not_initialised)
            | some l ↦ propose Latency leb_latency digest ed f store env tx m app
          ]
        ])
        has_net
      ∙ ap
          (λ l. elim l [
            | none ↦ (app, raise audit_not_initialised)
            | some x ↦ propose Latency leb_latency digest ed f store env tx net app
          ])
          has_log

  lookup-pending : lookup env.uuid stores.cache ≡ some pending
  unfolding new_record
  lookup-pending = lookup-save_tx_record env.uuid pending _ ∙ rw (str_eq_refl env.uuid) refl

  -- When the round of a submitted transaction is not held, the answer is 422 with what was missing,
  -- the network is as the round has left it, and nothing is billed, sent to webhooks or published; the
  -- record stays at CONSENSUS_PENDING.
  pub submit_transaction-raise :
      (e : InsufficientQuorum)
      → app.network ≡ some net
      → net.audit_log ≡ some log
      → sent.1 ≡ raise e
      → (submitted.1 ≡ raise (insufficient_quorum e))
        × (submitted.0.network ≡ some sent.0)
        × (lookup env.uuid submitted.0.tx_stores.cache ≡ some pending)
        × (submitted.0.tracker ≡ app.tracker)
        × (submitted.0.deliveries ≡ app.deliveries)
        × (submitted.0.event_bus ≡ app.event_bus)
  unfolding run_round
  submit_transaction-raise e has_net has_log failed =
      rw (submit_transaction-run_round has_net has_log, failed, run_round)
        (refl, refl, lookup-pending, refl, refl, refl)
