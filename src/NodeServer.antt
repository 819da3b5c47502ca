-- ===== src/NodeServer.antt =====
-- ecn/node_server.py: one node behind a TCP server. The sockets, the key generator and JSON are
-- parameters: a request is a line, and a response is what the line sent back holds.
use ecn.Common.{ℕ, String, Bool, true, false, Option, none, some, ◌==◌, if◌then◌else◌, ok, raise}
use ecn.Common.Text.{str_eq}
use ecn.World.{State, Transaction, Error}
use ecn.StateManager.{Digest}
use ecn.Consensus.{NodeResult}
use ecn.Crypto.{Ed25519}
use ecn.Node.{Node, new_node, execute_transaction}

-- The fields of the response to a client, or the exception that is printed in `error`.
pub data Response : Type 0 where
  answer : NodeResult → Response
  malformed_request : Response
  execution_error : Error → Response

module _ (digest : Digest) (ed : Ed25519) where
  pub record NodeServer : Type 0 where
    pub node_id : String
    pub host : String
    pub port : ℕ
    pub health_port : Option ℕ
    pub public_key : ed.PublicKey
    pub node : Node digest ed
    pub is_listening : Bool
    pub is_health_listening : Bool

  -- `NodeServer.__init__`, with the default host and the private key that is drawn. The public key
  -- in hexadecimal, which is shown only, is left out.
  unfoldable pub new_server :
      String → ed.PrivateKey → String → State → ℕ → String → Bool → Option ℕ → NodeServer
  new_server default_host private_key node_id initial_state port host malicious health_port =
      record {
        node_id = node_id;
        host = if str_eq host "" then default_host else host;
        port = port;
        health_port = health_port;
        public_key = ed.public_key private_key;
        node = new_node digest ed node_id initial_state malicious false (some private_key);
        is_listening = false;
        is_health_listening = false;
      }

  -- `start`, with the port that the system assigns when 0 is asked for.
  unfoldable pub start : ℕ → NodeServer → NodeServer
  start assigned server = record server {
    port = if server.port == 0 then assigned else server.port;
    is_listening = true;
    is_health_listening = elim server.health_port [
      | none ↦ server.is_health_listening
      | some _ ↦ true
    ];
  }

  unfoldable pub stop : NodeServer → NodeServer
  stop server = record server { is_listening = false; is_health_listening = false }

  -- `_handle_client` on the line that is read, with `json.loads` of it: an empty line gets no
  -- response, and a transaction that raises leaves the node as it was.
  unfoldable pub handle_client :
      (String → Option Transaction) → String → NodeServer → NodeServer × Option Response
  handle_client loads line server = if str_eq line "" then (server, none) else elim (loads line) [
    | none ↦ (server, some malformed_request)
    | some tx ↦ elim (execute_transaction digest ed server.node tx) [
      | raise e ↦ (server, some (execution_error e))
      | ok executed ↦ (record server { node = executed.0 }, some (answer executed.1.result))
    ]
  ]
