-- ===== src/P2p.antt =====
-- ecn/p2p_network.py: a transaction is sent to the server of every node that is not excluded, the
-- health of each is recorded, and one consensus round runs on the results that came back. The
-- network between them, the clocks, the latencies and JSON are parameters.
pub mod Exclusion
pub mod Rounds
pub mod Outage
pub mod Blackout
pub mod Samples
mod Tests
use ecn.Common.{
  ℕ, ◌+◌, String, Bool, false, Option, none, some, List, [], ◌∷◌, ◌++◌, map, ltb, if◌then◌else◌,
  length, Result, ok, raise,
}
use ecn.Common.Text.{str_eq}
use ecn.Common.Dict.{Dict, contains, insert}
use ecn.World.{State, Transaction}
use ecn.StateManager.{Digest}
use ecn.Consensus.{NodeResult, ConsensusResult, Floats, run_consensus}
use ecn.Crypto.{Ed25519, verifier}
use ecn.Audit.{AuditLog, record_round}
use ecn.NodeServer.{
  NodeServer, Response, answer, malformed_request, execution_error, new_server, start, stop,
  handle_client,
}
use ecn.Health.{Registry, new_health, is_excluded, get_or_create, record_success, record_failure}
use ecn.Health as Health

-- What becomes of one connection: refused or too slow, cut after the server has read the request,
-- or answered after some time.
pub data Attempt (Latency : Type 0) : Type 0 where
  unreachable : Attempt Latency
  lost : Attempt Latency
  answered : Latency → Attempt Latency

-- The exceptions of `_send_to_server`: of the connection, and `RuntimeError` on an error response.
pub data SendError : Type 0 where
  connection_failed : SendError
  node_error : Response → SendError

-- `InsufficientQuorumError`, with the numbers of its text.
pub record InsufficientQuorum : Type 0 where
  pub responded : ℕ
  pub servers : ℕ
  pub min_responses : ℕ

-- One of the `node_configs` of `create`
pub record NodeConfig : Type 0 where
  pub node_id : String
  pub port : Option ℕ
  pub malicious : Option Bool
  pub host : Option String

-- `json.dumps(tx) + "\n"` and `json.loads`
pub record Json : Type 0 where
  pub dumps : Transaction → String
  pub loads : String → Option Transaction

-- `_get_quorum_threshold`, with the text of the variable stripped, `float`, and the test
-- `0 < val <= 1.0`.
unfoldable pub get_quorum_threshold :
    {Float : Type 0} → (String → Option Float) → (Float → Bool) → Float → String → Float
get_quorum_threshold float in_range default raw =
    if str_eq raw ""
    then default
    else elim (float raw) [ none ↦ default | some val ↦ if in_range val then val else default ]

module _ (Latency : Type 0) (leb_latency : Latency → Latency → Bool) where
  -- `NodeHealthRegistry.get`, as far as it changes the registry
  unfoldable pub register : String → Registry Latency leb_latency → Registry Latency leb_latency
  register node_id health =
      if contains node_id health
      then health
      else insert node_id (new_health Latency leb_latency node_id) health

  -- `self._health.get(node_id).state == NodeState.EXCLUDED`
  abbrev pub is_out : Registry Latency leb_latency → String → Bool
  is_out health node_id = is_excluded (get_or_create Latency leb_latency node_id health).state

  module _ (digest : Digest) (ed : Ed25519) where
    unfoldable pub register_all :
        List (NodeServer digest ed) → Registry Latency leb_latency → Registry Latency leb_latency
    register_all [] health = health
    register_all (s ∷ servers) health = register_all servers (register s.node_id health)

    -- `{s.node_id: s.public_key for s in servers}`, entered from the first server to the last
    unfoldable pub keys_of : List (NodeServer digest ed) → Dict ed.PublicKey → Dict ed.PublicKey
    keys_of [] d = d
    keys_of (s ∷ servers) d = keys_of servers (insert s.node_id s.public_key d)

    -- The loop of `create` from place `i` on, with the key that each server draws and the port that the
    -- system assigns to it.
    unfoldable pub create_servers :
        String
        → (ℕ → ed.PrivateKey)
        → (ℕ → ℕ)
        → State
        → ℕ
        → ℕ
        → List NodeConfig
        → List (NodeServer digest ed)
    create_servers node_host private_key assigned initial_state base_port i [] = []
    create_servers node_host private_key assigned initial_state base_port i (cfg ∷ configs) =
        start digest ed (assigned i) (
          new_server digest ed node_host (private_key i) cfg.node_id initial_state
            (elim cfg.port [ none ↦ base_port + i | some port ↦ port ])
            (elim cfg.host [ none ↦ node_host | some host ↦ host ])
            (elim cfg.malicious [ none ↦ false | some malicious ↦ malicious ]) none)
        ∷ create_servers node_host private_key assigned initial_state base_port (i + 1) configs

    -- `_send_to_server`: what is lost on the way back has been executed all the same.
    unfoldable pub send_to_server :
        Json
        → Attempt Latency
        → Transaction
        → NodeServer digest ed
        → NodeServer digest ed × Result SendError (NodeResult × Latency)
    send_to_server json unreachable tx s = (s, raise connection_failed)
    send_to_server json lost tx s =
        ((handle_client digest ed json.loads (json.dumps tx) s).0, raise connection_failed)
    send_to_server json (answered latency) tx s =
        let handled = handle_client digest ed json.loads (json.dumps tx) s in
        (
          handled.0,
          elim handled.1 [
            | none ↦ raise connection_failed
            | some (answer r) ↦ ok (r, latency)
            | some (malformed_request) ↦ raise (node_error malformed_request)
            | some (execution_error e) ↦ raise (node_error (execution_error e))
          ],
        )

    -- One server of the first loop with its response, which is none for an excluded node.
    pub record Visit : Type 0 where
      pub server : NodeServer digest ed
      pub response : Option (Result SendError (NodeResult × Latency))

    unfoldable pub visit :
        Json
        → (String → ℕ → Attempt Latency)
        → Registry Latency leb_latency
        → Transaction
        → NodeServer digest ed
        → Visit
    visit json link health tx s =
        if is_out health s.node_id
        then record { server = s; response = none }
        else (let sent = send_to_server json (link s.host s.port) tx s in
            record { server = sent.0; response = some sent.1 })

    -- The loop over the responses.
    unfoldable pub collect :
        Health.Clock
        → List Visit
        → Registry Latency leb_latency
        → Registry Latency leb_latency × List NodeResult
    collect clock [] health = (health, [])
    collect clock (v ∷ visits) health = elim v.response [
      | none ↦ collect clock visits health
      | some (raise e) ↦
          collect clock visits (record_failure Latency leb_latency clock v.server.node_id health)
      | some (ok (r, latency)) ↦
          let rest =
            collect clock visits
              (record_success Latency leb_latency clock v.server.node_id latency health) in
          (rest.0, r ∷ rest.1)
    ]

    module _ (f : Floats) where
      pub record P2pNetwork : Type 0 where
        pub servers : List (NodeServer digest ed)
        pub audit_log : Option AuditLog
        pub quorum_threshold : f.Float
        pub min_responses : ℕ
        pub public_keys : Dict ed.PublicKey
        pub history : List (Transaction × List NodeResult × ConsensusResult)
        pub health : Registry Latency leb_latency

      -- `P2PNetwork.__init__`, with the threshold of the environment.
      unfoldable pub new_network :
          f.Float
          → List (NodeServer digest ed)
          → Option AuditLog
          → Option f.Float
          → Option ℕ
          → Option (Registry Latency leb_latency)
          → P2pNetwork
      new_network default servers audit_log quorum_threshold min_responses health_registry =
          record {
            servers = servers;
            audit_log = audit_log;
            quorum_threshold = elim quorum_threshold [ none ↦ default | some t ↦ t ];
            min_responses = elim min_responses [ none ↦ 1 | some n ↦ n ];
            public_keys = keys_of servers [];
            history = [];
            health =
                register_all servers (elim health_registry [ none ↦ [] | some health ↦ health ]);
          }

      -- `create`: a server for every configuration, started one after the other.
      unfoldable pub create :
          f.Float
          → String
          → (ℕ → ed.PrivateKey)
          → (ℕ → ℕ)
          → State
          → ℕ
          → List NodeConfig
          → Option AuditLog
          → Option f.Float
          → Option ℕ
          → Option (Registry Latency leb_latency)
          → P2pNetwork
      create default node_host private_key assigned initial_state base_port configs audit_log
            quorum_threshold min_responses health_registry =
          new_network default
            (create_servers node_host private_key assigned initial_state base_port 0 configs)
            audit_log quorum_threshold min_responses health_registry

      -- `shutdown`
      unfoldable pub shutdown : P2pNetwork → P2pNetwork
      shutdown net = record net { servers = map (stop digest ed) net.servers }

      abbrev pub node_count : P2pNetwork → ℕ
      node_count net = length net.servers

      -- `if self._audit_log is not None: self._audit_log.record(...)`
      abbrev pub record_in :
          Option AuditLog
          → String
          → Transaction
          → List NodeResult
          → ConsensusResult
          → Option AuditLog
      record_in none timestamp tx results c = none
      record_in (some log) timestamp tx results c = some (record_round log timestamp tx results c).0

      -- The end of `broadcast`, on the results that came back.
      unfoldable pub conclude :
          String
          → P2pNetwork
          → Transaction
          → List NodeResult
          → P2pNetwork × Result InsufficientQuorum (List NodeResult × ConsensusResult)
      conclude timestamp net tx results =
          if ltb (length results) net.min_responses
          then (
            net,
            raise (record {
              responded = length results;
              servers = length net.servers;
              min_responses = net.min_responses;
            }),
          )
          else (let c =
                run_consensus f (verifier ed) results (some net.public_keys) net.quorum_threshold in
              (
                record net {
                  history = net.history ++ (tx, results, c) ∷ [];
                  audit_log = record_in net.audit_log timestamp tx results c;
                },
                ok (results, c),
              ))

      -- `broadcast`, at a time of the health records and of the audit event.
      unfoldable pub broadcast :
          Json
          → (String → ℕ → Attempt Latency)
          → Health.Clock
          → String
          → P2pNetwork
          → Transaction
          → P2pNetwork × Result InsufficientQuorum (List NodeResult × ConsensusResult)
      broadcast json link clock timestamp net tx =
          let registered = register_all net.servers net.health in
          let visits = map (visit json link registered tx) net.servers in
          let collected = collect clock visits registered in
          conclude timestamp
            (record net { servers = map (λ v. v.server) visits; health = collected.0 }) tx
            collected.1
