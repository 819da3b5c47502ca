-- ===== src/P2p/Rounds.antt =====
-- A round over TCP: the results that come back are the votes of the nodes that answer, and an honest
-- majority of these is agreed with.
use ecn.Common.{
  ℕ, suc, ◌*◌, ◌≤◌, ◌<◌, String, ◌≡◌, refl, ap, ◌∙◌, ◌≢◌, ◌⊎◌, inl, inr, Bool, true, false, none,
  some, List, [], ◌∷◌, ◌++◌, map, arith, ltb, if◌then◌else◌, Bool-cases, length, keep, All, ok,
  raise,
}
use ecn.Common.Text.{str_eq, eq_iff}
use ecn.Common.Dict.{Dict, keys, lookup-insert}
use mathlib.Core.Path.{subst}
use Prim.Native.String.{◌++◌ as ◌⁀◌}
use ecn.World.{State, Transaction}
use ecn.Execution.{run_transaction}
use ecn.StateManager.{Digest, state_hash}
use ecn.Consensus.{NodeResult, ConsensusResult, Floats, verified_results, run_consensus}
use ecn.Consensus.Quorum.{agreed_hash-majority}
use ecn.Crypto.{Ed25519, verifier}
use ecn.Crypto.Signatures.{IsEd25519}
use ecn.Node.{Node}
use ecn.Network.{keys_or_none}
use ecn.Network.Rounds.{
  InSync, vote, is_honest, ids, IsRegistered, execute_transaction-InSync, votes_for-vote,
  honest_ids, verified_votes,
}
use ecn.NodeServer.{NodeServer, answer, handle_client}
use ecn.Health.{Registry, get_or_create, new_health}
use ecn.Health as Health
use ecn.P2p.{
  Attempt, unreachable, lost, answered, Json, SendError, connection_failed, Visit, register, is_out,
  register_all, send_to_server, visit, collect, P2pNetwork, conclude, record_in, broadcast,
}

-- `json.loads` undoes `json.dumps` on a transaction, for which it prints something.
pub record IsJson (json : Json) (tx : Transaction) : Type 0 where
  pub loads-dumps : json.loads (json.dumps tx) ≡ some tx
  pub not_empty : str_eq (json.dumps tx) "" ≡ false

abbrev pub is_answered : {Latency : Type 0} → Attempt Latency → Bool
is_answered unreachable = false
is_answered lost = false
is_answered (answered latency) = true

pub Attempt-cases :
    {Latency : Type 0} (a : Attempt Latency)
    → (a ≡ unreachable) ⊎ (a ≡ lost) ⊎ ((latency : Latency) × (a ≡ answered latency))
Attempt-cases unreachable = inl refl
Attempt-cases lost = inr (inl refl)
Attempt-cases (answered latency) = inr (inr (latency, refl))

module _ (Latency : Type 0) (leb_latency : Latency → Latency → Bool) where
  -- To register a node excludes none and lets none in.
  is_out-register :
      (id k : String) (health : Registry Latency leb_latency)
      → is_out Latency leb_latency (register Latency leb_latency k health) id
        ≡ is_out Latency leb_latency health id
  unfolding register get_or_create
  is_out-register id k health =
      ground (arith, eq_iff id k, lookup-insert id k (new_health Latency leb_latency k) health)

  module _ (digest : Digest) (ed : Ed25519) where
    pub is_out-register_all :
        (id : String) (servers : List (NodeServer digest ed))
        (health : Registry Latency leb_latency)
        → is_out Latency leb_latency (register_all Latency leb_latency digest ed servers health) id
          ≡ is_out Latency leb_latency health id
    unfolding register_all
    is_out-register_all id [] health = refl
    is_out-register_all id (s ∷ servers) health =
        is_out-register_all id servers (register Latency leb_latency s.node_id health)
        ∙ is_out-register id s.node_id health

    module _ (link : String → ℕ → Attempt Latency) where
      -- A server that is asked, and whose answer arrives.
      abbrev pub answers : Registry Latency leb_latency → NodeServer digest ed → Bool
      answers health s =
          if is_out Latency leb_latency health s.node_id
          then false
          else is_answered (link s.host s.port)

      abbrev pub answering :
          Registry Latency leb_latency → List (NodeServer digest ed) → List (Node digest ed)
      answering health [] = []
      answering health (s ∷ servers) =
          if answers health s then s.node ∷ answering health servers else answering health servers

      pub answering-register_all :
          (all : List (NodeServer digest ed)) (health : Registry Latency leb_latency)
          (servers : List (NodeServer digest ed))
          → answering (register_all Latency leb_latency digest ed all health) servers
            ≡ answering health servers
      answering-register_all all health [] = refl
      answering-register_all all health (s ∷ servers) =
          rw (is_out-register_all s.node_id all health, answering-register_all all health servers)
            refl

      module _ (json : Json) (tx : Transaction) (law : IsJson json tx) (s s' : State)
          (use_merkle : Bool) (ran : run_transaction s tx ≡ ok s') where
        abbrev h : String
        h = state_hash digest use_merkle s'

        handle_client-InSync :
            (server : NodeServer digest ed)
            → InSync digest ed s use_merkle server.node
            → (handle_client digest ed json.loads (json.dumps tx) server).1
              ≡ some (answer (vote digest ed h server.node))
        unfolding handle_client
        handle_client-InSync server sync =
            let (n', r, executed, _, voted) =
              execute_transaction-InSync digest ed s s' use_merkle tx ran server.node sync in
            rw (law.not_empty, law.loads-dumps, handle_client)
              (rw executed (ap (λ x. some (answer x)) voted))

        module _ (reg : Registry Latency leb_latency) where
          abbrev visited : NodeServer digest ed → Visit Latency leb_latency digest ed
          visited = visit Latency leb_latency digest ed json link reg tx

          visit-answers :
              (x : NodeServer digest ed)
              → answers reg x ≡ true
              → InSync digest ed s use_merkle x.node
              → (latency : Latency) × ((visited x).response
                  ≡ some (ok (vote digest ed h x.node, latency)))
          unfolding visit send_to_server
          visit-answers x heard sync =
              elim (Bool-cases (is_out Latency leb_latency reg x.node_id)) [
                | inl out ↦ absurd (ground (arith, heard, out))
                | inr there ↦ elim (Attempt-cases (link x.host x.port)) [
                  | inl e ↦ absurd (ground (arith, heard, there, e))
                  | inr (inl e) ↦ absurd (ground (arith, heard, there, e))
                  | inr (inr (latency, e)) ↦ (
                    latency,
                    rw (there, visit)
                        (rw (e, send_to_server) (rw (handle_client-InSync x sync) refl)),
                  )
                ]
              ]

          visit-silent :
              (x : NodeServer digest ed)
              → answers reg x ≡ false
              → ((visited x).response ≡ none)
                ⊎ ((e : SendError) × ((visited x).response ≡ some (raise e)))
          unfolding visit send_to_server
          visit-silent x silent = elim (Bool-cases (is_out Latency leb_latency reg x.node_id)) [
            | inl out ↦ inl (rw (out, visit) refl)
            | inr there ↦ elim (Attempt-cases (link x.host x.port)) [
              | inl e ↦ inr (connection_failed, rw (there, visit) (rw (e, send_to_server) refl))
              | inr (inl e) ↦
                  inr (connection_failed, rw (there, visit) (rw (e, send_to_server) refl))
              | inr (inr (latency, e)) ↦ absurd (ground (arith, silent, there, e))
            ]
          ]

          -- The results that are collected are the votes of the nodes that answer.
          pub collect-vote :
              (clock : Health.Clock) (servers : List (NodeServer digest ed))
              (health : Registry Latency leb_latency)
              → All (InSync digest ed s use_merkle) (answering reg servers)
              → (collect Latency leb_latency digest ed clock (map visited servers) health).1
                ≡ map (vote digest ed h) (answering reg servers)
          unfolding collect
          collect-vote clock [] health sync = refl
          collect-vote clock (x ∷ servers) health sync = elim (Bool-cases (answers reg x)) [
            | inl heard ↦
                let sync' : InSync digest ed s use_merkle x.node
                    × All (InSync digest ed s use_merkle) (answering reg servers) =
                  subst
                    (λ b.
                      All (InSync digest ed s use_merkle)
                        (if b then x.node ∷ answering reg servers else answering reg servers))
                    heard sync in
                let (latency, e) = visit-answers x heard sync'.0 in
                rw (e, collect)
                  (rw heard
                    (ap (λ l. vote digest ed h x.node ∷ l) (collect-vote clock servers _ sync'.1)))
            | inr silent ↦
                let sync' : All (InSync digest ed s use_merkle) (answering reg servers) =
                  subst
                    (λ b.
                      All (InSync digest ed s use_merkle)
                        (if b then x.node ∷ answering reg servers else answering reg servers))
                    silent sync in
                elim (visit-silent x silent) [
                  | inl e ↦ rw (e, collect) (rw silent (collect-vote clock servers health sync'))
                  | inr (error, e) ↦
                      rw (e, collect) (rw silent (collect-vote clock servers _ sync'))
                ]
          ]

    module _ (f : Floats) (law : IsEd25519 ed) (json : Json) (tx : Transaction)
        (json_law : IsJson json tx) (link : String → ℕ → Attempt Latency)
        (net : P2pNetwork Latency leb_latency digest ed f) (s : State) (use_merkle : Bool) where
      abbrev pub heard_from : List (Node digest ed)
      heard_from = answering link net.health net.servers

      -- An empty dictionary of keys counts as none.
      verified_results-keys_or_none :
          (keys : Dict ed.PublicKey) (results : List NodeResult)
          → verified_results f (verifier ed) (some keys) results
            ≡ verified_results f (verifier ed) (keys_or_none digest ed keys) results
      unfolding verified_results
      verified_results-keys_or_none [] results = refl
      verified_results-keys_or_none (k ∷ keys) results = refl

      length-vote :
          (h : String) (nodes : List (Node digest ed))
          → length (map (vote digest ed h) nodes) ≡ length nodes
      length-vote h [] = refl
      length-vote h (n ∷ nodes) = ap suc (length-vote h nodes)

      -- When the nodes that answer stand at one state, more than half of them are honest, they are at
      -- least as many as are required, each signs with its registered key (or no key is registered),
      -- and the transaction is valid there, a broadcast succeeds whatever the other servers do: its
      -- results are one per answer, it agrees on the hash of the state that the transaction leads to,
      -- its honest nodes are those that answer and are not malicious, and the round is in the history.
      -- The digest is one that does not end in DEADBEEF, and JSON gives back what it prints.
      pub broadcast-heard :
          (clock : Health.Clock) (timestamp : String) (s' : State)
          → run_transaction s tx ≡ ok s'
          → ((x : String) → state_hash digest use_merkle s' ≢ x ⁀ "DEADBEEF")
          → All (InSync digest ed s use_merkle) heard_from
          → IsRegistered digest ed net.public_keys heard_from
          → length heard_from < 2 * length (keep (is_honest digest ed) heard_from)
          → net.min_responses ≤ length heard_from
          → (net' : P2pNetwork Latency leb_latency digest ed f) × (results : List NodeResult)
            × (c : ConsensusResult) × (broadcast Latency leb_latency digest ed f json link clock
                  timestamp net tx
                ≡ (net', ok (results, c)))
            × (length results ≡ length heard_from)
            × (c.agreed_hash ≡ some (state_hash digest use_merkle s'))
            × (c.honest_nodes ≡ ids digest ed (keep (is_honest digest ed) heard_from))
            × (net'.history ≡ net.history ++ (tx, results, c) ∷ [])
      unfolding broadcast conclude
      broadcast-heard clock timestamp s' ran regular sync registered majority enough =
          let h = state_hash digest use_merkle s' in
          let reg = register_all Latency leb_latency digest ed net.servers net.health in
          let visits = map (visit Latency leb_latency digest ed json link reg tx) net.servers in
          let collected = collect Latency leb_latency digest ed clock visits reg in
          let same : answering link reg net.servers ≡ heard_from =
            answering-register_all link net.servers net.health net.servers in
          let voted : collected.1 ≡ map (vote digest ed h) heard_from =
            collect-vote link json tx json_law s s' use_merkle ran reg clock net.servers reg
              (rw same sync)
            ∙ ap (map (vote digest ed h)) same in
          let c =
            run_consensus f (verifier ed) collected.1 (some net.public_keys) net.quorum_threshold in
          let verified =
            verified_results-keys_or_none net.public_keys (map (vote digest ed h) heard_from)
            ∙ verified_votes digest ed f law h net.public_keys heard_from registered in
          let (agreed, honest) =
            agreed_hash-majority f (verifier ed) (some net.public_keys) net.quorum_threshold
              (map (vote digest ed h) heard_from) h
              (rw verified (
                omega (
                  arith,
                  majority,
                  length-vote h heard_from,
                  votes_for-vote digest ed h regular heard_from,
                ))) in
          let met : ltb (length collected.1) net.min_responses ≡ false =
            ground (arith, voted, enough, length-vote h heard_from) in
          (
            record net {
              servers = map (λ v. v.server) visits;
              health = collected.0;
              history = net.history ++ (tx, collected.1, c) ∷ [];
              audit_log =
                  record_in Latency leb_latency digest ed f net.audit_log timestamp tx collected.1
                    c;
            },
            collected.1,
            c,
            rw (met, broadcast, conclude) refl,
            ap length voted ∙ length-vote h heard_from,
            rw voted agreed,
            rw voted (honest ∙ rw verified (honest_ids digest ed h regular heard_from)),
            refl,
          )
