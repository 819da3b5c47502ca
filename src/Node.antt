-- ===== src/Node.antt =====
-- ecn/node.py: a node executes a transaction, hashes its state, corrupts the hash if it is malicious,
-- and signs it if it has a key. The digests and the signatures are parameters.
use ecn.Common.{
  ℕ, ◌-◌, String, Bool, Option, none, some, List, [], ◌∷◌, if◌then◌else◌, length, take, Result, ok,
  ◌>>=◌,
}
use Prim.Native.String.{◌++◌ as ◌⁀◌}
use text.Mathlib.TextBridge.{to_list, of_list}
use ecn.World.{State, Transaction, Error}
use ecn.StateManager.{
  Digest, StateManager, TraceEntry, init, reset, apply_transaction, compute_state_hash,
}
use ecn.Consensus.{NodeResult}
use ecn.Crypto.{Ed25519, sign_result}

-- `text[:-n]`
abbrev pub drop_last : ℕ → String → String
drop_last n text = of_list (take (length (to_list text) - n) (to_list text))

unfoldable pub corrupt_hash : String → String
corrupt_hash true_hash = drop_last 8 true_hash ⁀ "DEADBEEF"

-- `NodeResult` with the parts that consensus does not read. The entry is the last one of the trace:
-- none where `[-1]` would raise `IndexError`.
pub record Report : Type 0 where
  pub result : NodeResult
  pub result_state : State
  pub trace_entry : Option TraceEntry

-- `get_trace()[-1]`
abbrev pub last_entry : List TraceEntry → Option TraceEntry
last_entry [] = none
last_entry (e ∷ []) = some e
last_entry (e ∷ (f ∷ trace)) = last_entry (f ∷ trace)

module _ (digest : Digest) (ed : Ed25519) where
  pub record Node : Type 0 where
    pub node_id : String
    pub malicious : Bool
    pub signing_key : Option ed.PrivateKey
    pub manager : StateManager

  -- `Node.__init__`
  unfoldable pub new_node : String → State → Bool → Bool → Option ed.PrivateKey → Node
  new_node node_id initial_state malicious use_merkle signing_key = record {
    node_id = node_id;
    malicious = malicious;
    signing_key = signing_key;
    manager = init (some initial_state) use_merkle;
  }

  -- `Node.reset`
  abbrev pub reset_node : Option State → Node → Node
  reset_node new_state n = record n { manager = reset new_state n.manager }

  -- What a node reports, once its manager has applied the transaction.
  unfoldable pub reported_hash : Node → String → String
  reported_hash n true_hash = if n.malicious then corrupt_hash true_hash else true_hash

  unfoldable pub signature_of : Node → String → Option String
  signature_of n hash = elim n.signing_key [
    | none ↦ none
    | some key ↦ some (sign_result ed n.node_id hash key)
  ]

  unfoldable pub execute_transaction : Node → Transaction → Result Error (Node × Report)
  execute_transaction n tx = do
    applied ← apply_transaction digest n.manager tx
    let manager = applied.0
    let hash = reported_hash n (compute_state_hash digest manager)
    ok (
      record n { manager = manager },
      record {
        result = record { node_id = n.node_id; state_hash = hash; signature = signature_of n hash };
        result_state = applied.1;
        trace_entry = last_entry manager.trace;
      },
    )
