-- ===== src/Network/Rounds.antt =====
-- Rounds of a network whose nodes start from one state: what they report, and what they agree on.
use ecn.Common.{
  String, ◌≡◌, refl, sym, ◌≢◌, ◌⊎◌, inl, inr, Bool, true, not, some, List, [], ◌∷◌, map, arith,
  length, keep, All, ok,
}
use ecn.Common.Dict.{Dict, lookup, keys}
use ecn.Common.Text.{str_eq_refl, str_ne}
use Prim.Native.String.{◌++◌ as ◌⁀◌}
use ecn.World.{State, Transaction}
use ecn.Execution.{run_transaction}
use ecn.StateManager.{Digest, apply_transaction, state_hash}
use ecn.Consensus.{NodeResult, Floats, has_hash, node_ids, is_verified, verified_results}
use ecn.Consensus.Votes.{votes_for}
use ecn.Crypto.{Ed25519, verifier}
use ecn.Crypto.Signatures.{IsEd25519, verify_result-sign_result}
use ecn.Node.{
  Node, Report, corrupt_hash, drop_last, reported_hash, signature_of, execute_transaction,
}
use ecn.Network.{results_of, execute_all, keys_or_none}

module _ (digest : Digest) (ed : Ed25519) where
  -- A node that stands at a state, and hashes in a given mode.
  pub record InSync (s : State) (use_merkle : Bool) (n : Node digest ed) : Type 0 where
    pub same_state : n.manager.state ≡ s
    pub same_mode : n.manager.use_merkle ≡ use_merkle

  -- What a node reports when the true hash is `h`.
  abbrev pub vote : String → Node digest ed → NodeResult
  vote h n = record {
    node_id = n.node_id;
    state_hash = reported_hash digest ed n h;
    signature = signature_of digest ed n (reported_hash digest ed n h);
  }

  abbrev pub is_honest : Node digest ed → Bool
  is_honest n = not n.malicious

  abbrev pub ids : List (Node digest ed) → List String
  ids = map (λ n. n.node_id)

  module _ (s s' : State) (use_merkle : Bool) (tx : Transaction)
      (ran : run_transaction s tx ≡ ok s') where
    abbrev h : String
    h = state_hash digest use_merkle s'

    pub execute_transaction-InSync :
        (n : Node digest ed)
        → InSync s use_merkle n
        → (n' : Node digest ed) × (r : Report) × (execute_transaction digest ed n tx ≡ ok (n', r))
          × InSync s' use_merkle n'
          × (r.result ≡ vote h n)
    unfolding execute_transaction apply_transaction
    execute_transaction-InSync n sync =
        let here : run_transaction n.manager.state tx ≡ ok s' = rw sync.same_state ran in
        rw (here, execute_transaction, apply_transaction)
          (
            _,
            _,
            refl,
            record { same_state = refl; same_mode = sync.same_mode },
            rw sync.same_mode refl,
          )

    pub execute_all-InSync :
        (nodes : List (Node digest ed))
        → All (InSync s use_merkle) nodes
        → (nodes' : List (Node digest ed)) × (reports : List Report) × (execute_all digest ed nodes
              tx
            ≡ (nodes', ok reports))
          × All (InSync s' use_merkle) nodes'
          × (results_of reports ≡ map (vote h) nodes)
    unfolding execute_all
    execute_all-InSync [] sync = ([], [], refl, tt, refl)
    execute_all-InSync (n ∷ nodes) sync =
        let (n', r, ran_one, sync', voted) = execute_transaction-InSync n sync.0 in
        let (nodes', reports, ran_all, sync_all, voted_all) = execute_all-InSync nodes sync.1 in
        (
          n' ∷ nodes',
          r ∷ reports,
          rw (ran_one, ran_all, execute_all) refl,
          (sync', sync_all),
          rw (voted, voted_all) refl,
        )

  -- The hash of a corrupted report is another one.
  corrupt_hash-ne : (h : String) → ((x : String) → h ≢ x ⁀ "DEADBEEF") → corrupt_hash h ≢ h
  unfolding corrupt_hash
  corrupt_hash-ne h regular e = regular (drop_last 8 h) (sym e)

  module _ (h : String) (regular : (x : String) → h ≢ x ⁀ "DEADBEEF") where
    has_hash-vote : (n : Node digest ed) → has_hash h (vote h n) ≡ is_honest n
    unfolding reported_hash
    has_hash-vote n =
        ground (arith, str_eq_refl h, str_ne (corrupt_hash h) h (corrupt_hash-ne h regular))

    pub votes_for-vote :
        (nodes : List (Node digest ed))
        → votes_for h (map (vote h) nodes) ≡ length (keep is_honest nodes)
    votes_for-vote [] = refl
    votes_for-vote (n ∷ nodes) = ground (arith, has_hash-vote n, votes_for-vote nodes)

    pub honest_ids :
        (nodes : List (Node digest ed))
        → node_ids (keep (has_hash h) (map (vote h) nodes)) ≡ ids (keep is_honest nodes)
    honest_ids [] = refl
    honest_ids (n ∷ nodes) = ground (arith, has_hash-vote n, honest_ids nodes)

  -- Every node signs with the key that is registered for its name, or no key is registered at all.
  abbrev pub IsRegistered : Dict ed.PublicKey → List (Node digest ed) → Type 0
  IsRegistered keys nodes =
      (keys ≡ [])
      ⊎ All
          (λ n.
            (k : ed.PrivateKey) × (n.signing_key ≡ some k)
            × (lookup n.node_id keys ≡ some (ed.public_key k)))
          nodes

  module _ (f : Floats) (law : IsEd25519 ed) (h : String) where
    keep_verified :
        (keys : Dict ed.PublicKey) (nodes : List (Node digest ed))
        → All
            (λ n.
              (k : ed.PrivateKey) × (n.signing_key ≡ some k)
              × (lookup n.node_id keys ≡ some (ed.public_key k)))
            nodes
        → keep (is_verified f (verifier ed) keys) (map (vote h) nodes) ≡ map (vote h) nodes
    unfolding is_verified signature_of
    keep_verified keys [] all = refl
    keep_verified keys (n ∷ nodes) all =
        let (k, key, known) = all.0 in
        let hash = reported_hash digest ed n h in
        let genuine : is_verified f (verifier ed) keys (vote h n) ≡ true =
          rw (known, key, is_verified, signature_of)
            (verify_result-sign_result ed law n.node_id hash k) in
        rw (genuine, keep_verified keys nodes all.1) refl

    pub verified_votes :
        (keys : Dict ed.PublicKey) (nodes : List (Node digest ed))
        → IsRegistered keys nodes
        → verified_results f (verifier ed) (keys_or_none digest ed keys) (map (vote h) nodes)
          ≡ map (vote h) nodes
    unfolding verified_results
    verified_votes [] nodes registered = refl
    verified_votes (k ∷ keys) nodes (inl none_there) = absurd (ground (arith, none_there))
    verified_votes (k ∷ keys) nodes (inr all) = keep_verified (k ∷ keys) nodes all
