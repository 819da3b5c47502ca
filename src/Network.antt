-- ===== src/Network.antt =====
-- ecn/network.py: a transaction is executed by every node in turn, and one consensus round runs on
-- the results. A node that raises ends the broadcast; the nodes before it keep their new state.
-- What `_print_round` prints is left out (`verbose=False`).
pub mod Rounds
pub mod Agreement
mod Tests
use ecn.Common.{String, Option, none, some, List, [], ◌∷◌, ◌++◌, map, Result, ok, raise, ◌>>=◌}
use ecn.Common.Dict.{Dict, keys}
use ecn.World.{Transaction, Error}
use ecn.StateManager.{Digest}
use ecn.Consensus.{NodeResult, ConsensusResult, Floats, run_consensus}
use ecn.Crypto.{Ed25519, verifier}
use ecn.Audit.{AuditLog, record_round}
use ecn.Node.{Node, Report, execute_transaction}

abbrev pub results_of : List Report → List NodeResult
results_of = map (λ r. r.result)

module _ (digest : Digest) (ed : Ed25519) where
  pub record Network : Type 0 where
    pub nodes : List (Node digest ed)
    pub public_keys : Dict ed.PublicKey
    pub audit_log : Option AuditLog
    pub history : List (Transaction × List Report × ConsensusResult)

  -- `Network.__init__`, where `public_keys or {}` is the dictionary.
  unfoldable pub new_network :
      List (Node digest ed) → Option (Dict ed.PublicKey) → Option AuditLog → Network
  new_network nodes public_keys audit_log = record {
    nodes = nodes;
    public_keys = elim public_keys [ none ↦ [] | some keys ↦ keys ];
    audit_log = audit_log;
    history = [];
  }

  unfoldable pub add_node : Node digest ed → Network → Network
  add_node n net = record net { nodes = net.nodes ++ n ∷ [] }

  -- The loop over the nodes.
  unfoldable pub execute_all :
      List (Node digest ed) → Transaction → List (Node digest ed) × Result Error (List Report)
  execute_all [] tx = ([], ok [])
  execute_all (n ∷ nodes) tx =
      let rest = execute_all nodes tx in
      elim (execute_transaction digest ed n tx) [
        | raise e ↦ (n ∷ nodes, raise e)
        | ok executed ↦ (executed.0 ∷ rest.0, do reports ← rest.1; ok (executed.1 ∷ reports))
      ]

  -- `self._public_keys if self._public_keys else None`
  abbrev pub keys_or_none : Dict ed.PublicKey → Option (Dict ed.PublicKey)
  keys_or_none [] = none
  keys_or_none (k ∷ keys) = some (k ∷ keys)

  -- `if self._audit_log is not None: self._audit_log.record(...)`
  abbrev pub record_in :
      Option AuditLog → String → Transaction → List Report → ConsensusResult → Option AuditLog
  record_in none timestamp tx reports c = none
  record_in (some log) timestamp tx reports c =
      some (record_round log timestamp tx (results_of reports) c).0

  module _ (f : Floats) where
    -- With the default threshold of `run_consensus` and the time of the audit event.
    unfoldable pub broadcast :
        f.Float
        → String
        → Network
        → Transaction
        → Network × Result Error (List Report × ConsensusResult)
    broadcast threshold timestamp net tx =
        let executed = execute_all net.nodes tx in
        elim executed.1 [
          | raise e ↦ (record net { nodes = executed.0 }, raise e)
          | ok reports ↦
              let c =
                run_consensus f (verifier ed) (results_of reports) (keys_or_none net.public_keys)
                  threshold in
              (
                record net {
                  nodes = executed.0;
                  history = net.history ++ (tx, reports, c) ∷ [];
                  audit_log = record_in net.audit_log timestamp tx reports c;
                },
                ok (reports, c),
              )
        ]
