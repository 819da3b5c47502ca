-- ===== src/Network/Agreement.antt =====
-- What a broadcast over nodes in sync achieves: the honest majority is agreed with, the malicious
-- nodes are named, and the nodes stay in sync.
use ecn.Common.{
  suc, ◌*◌, ◌<◌, String, ◌≡◌, refl, ap, ◌∙◌, ◌≢◌, Bool, some, List, [], ◌∷◌, ◌++◌, map, arith,
  length, keep, All, ok, raise,
}
use Prim.Native.String.{◌++◌ as ◌⁀◌}
use ecn.World.{State, Transaction, Error}
use ecn.Execution.{run_transaction}
use ecn.StateManager.{Digest, apply_transaction, state_hash}
use ecn.Consensus.{ConsensusResult, Floats, run_consensus}
use ecn.Consensus.Quorum.{agreed_hash-majority}
use ecn.Crypto.{Ed25519, verifier}
use ecn.Crypto.Signatures.{IsEd25519}
use ecn.Node.{Node, Report, execute_transaction}
use ecn.Network.{Network, results_of, execute_all, keys_or_none, record_in, broadcast}
use ecn.Network.Rounds.{
  InSync, vote, is_honest, ids, IsRegistered, execute_all-InSync, votes_for-vote, honest_ids,
  verified_votes,
}

module _ (digest : Digest) (ed : Ed25519) (f : Floats) where
  length-votes :
      (h : String) (nodes : List (Node digest ed))
      → length (map (vote digest ed h) nodes) ≡ length nodes
  length-votes h [] = refl
  length-votes h (n ∷ nodes) = ap suc (length-votes h nodes)

  module _ (law : IsEd25519 ed) (threshold : f.Float) (timestamp : String) (net : Network digest ed)
      (s : State) (use_merkle : Bool) (tx : Transaction)
      (sync : All (InSync digest ed s use_merkle) net.nodes) where
    execute_all-raise :
        (e : Error)
        → run_transaction s tx ≡ raise e
        → (nodes : List (Node digest ed)) → All (InSync digest ed s use_merkle) nodes
        → nodes ≢ []
        → execute_all digest ed nodes tx ≡ (nodes, raise e)
    unfolding execute_all execute_transaction apply_transaction
    execute_all-raise e ran [] all ne = absurd (ne refl)
    execute_all-raise e ran (n ∷ nodes) all ne =
        let here : run_transaction n.manager.state tx ≡ raise e = rw (all.0.same_state) ran in
        rw (here, execute_all, execute_transaction, apply_transaction) refl

    -- A consensus on the votes of nodes in sync is on the true hash.
    consensus_on_votes :
        (h : String)
        → ((x : String) → h ≢ x ⁀ "DEADBEEF")
        → IsRegistered digest ed net.public_keys net.nodes
        → length net.nodes < 2 * length (keep (is_honest digest ed) net.nodes)
        → (let c =
              run_consensus f
                (verifier ed)
                (map (vote digest ed h) net.nodes)
                (keys_or_none digest ed net.public_keys)
                threshold in
            (c.agreed_hash ≡ some h)
            × (c.honest_nodes ≡ ids digest ed (keep (is_honest digest ed) net.nodes)))
    consensus_on_votes h regular registered majority =
        let verified = verified_votes digest ed f law h net.public_keys net.nodes registered in
        let (agreed, honest) =
          agreed_hash-majority f (verifier ed) (keys_or_none digest ed net.public_keys) threshold
            (map (vote digest ed h) net.nodes) h
            (rw verified (
              omega (
                arith,
                majority,
                length-votes h net.nodes,
                votes_for-vote digest ed h regular net.nodes,
              ))) in
        (agreed, honest ∙ rw verified (honest_ids digest ed h regular net.nodes))

    -- When the nodes stand at one state, more than half of them are honest, every node signs with its
    -- registered key (or no key is registered), and the transaction is valid there, a broadcast
    -- succeeds: it agrees on the hash of the state that the transaction leads to, the honest nodes are
    -- those that are not malicious, every node stands at that state afterwards, and the round is in the
    -- history. The digest is one that does not end in DEADBEEF, as one of lower-case digits.
    pub broadcast-agreement :
        (s' : State)
        → run_transaction s tx ≡ ok s'
        → ((x : String) → state_hash digest use_merkle s' ≢ x ⁀ "DEADBEEF")
        → IsRegistered digest ed net.public_keys net.nodes
        → length net.nodes < 2 * length (keep (is_honest digest ed) net.nodes)
        → (net' : Network digest ed) × (reports : List Report) × (c : ConsensusResult) × (broadcast
              digest ed f threshold timestamp net tx
            ≡ (net', ok (reports, c)))
          × (c.agreed_hash ≡ some (state_hash digest use_merkle s'))
          × (c.honest_nodes ≡ ids digest ed (keep (is_honest digest ed) net.nodes))
          × All (InSync digest ed s' use_merkle) net'.nodes
          × (net'.history ≡ net.history ++ (tx, reports, c) ∷ [])
    unfolding broadcast
    broadcast-agreement s' ran regular registered majority =
        let (nodes', reports, ran_all, sync', voted) =
          execute_all-InSync digest ed s s' use_merkle tx ran net.nodes sync in
        let (agreed, honest) =
          consensus_on_votes (state_hash digest use_merkle s') regular registered majority in
        let c =
          run_consensus f (verifier ed) (results_of reports)
            (keys_or_none digest ed net.public_keys) threshold in
        (
          record net {
            nodes = nodes';
            history = net.history ++ (tx, reports, c) ∷ [];
            audit_log = record_in digest ed net.audit_log timestamp tx reports c;
          },
          reports,
          c,
          rw (ran_all, broadcast) (rw ran_all refl),
          rw voted agreed,
          rw voted honest,
          sync',
          refl,
        )

    -- When the nodes stand at one state and the transaction is not valid there, a broadcast to one
    -- node at least raises what the execution raises and leaves the network as it was.
    pub broadcast-raise :
        (e : Error)
        → run_transaction s tx ≡ raise e
        → net.nodes ≢ []
        → broadcast digest ed f threshold timestamp net tx ≡ (net, raise e)
    unfolding broadcast
    broadcast-raise e ran some_node =
        let stopped = execute_all-raise e ran net.nodes sync some_node in
        rw (stopped, broadcast) (rw stopped refl)
