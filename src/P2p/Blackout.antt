-- ===== src/P2p/Blackout.antt =====
-- Five refused transactions: every node is excluded, and no later round can be held.
use ecn.Common.{
  ℕ, suc, ◌+◌, ◌≤◌, ◌<◌, String, ◌≡◌, refl, sym, ap, ◌∙◌, Bool, true, List, [], ◌∷◌, map, arith,
  ltb, length, All, All-map, raise,
}
use ecn.Common.Text.{eq_iff}
use ecn.Common.Dict.{lookup-insert}
use mathlib.Core.Path.{subst}
use ecn.World.{Transaction}
use ecn.StateManager.{Digest}
use ecn.Consensus.{Floats}
use ecn.Crypto.{Ed25519}
use ecn.NodeServer.{NodeServer}
use ecn.Health.{Registry, new_health, get_or_create}
use ecn.Health as Health
use ecn.P2p.{
  Attempt, Json, register, is_out, register_all, visit, collect, P2pNetwork, conclude, broadcast,
}
use ecn.P2p.Exclusion.{Round, run_round, run_rounds, conclude-kept}
use ecn.P2p.Rounds.{IsJson, is_out-register_all}
use ecn.P2p.Outage.{
  IsFailing, IsFailing-out, Refuses, servers-visit, Fails-visit, collect-IsFailing,
}

module _ {A B : Type 0} (P : B → Type 0) (f : A → B) where
  All-of_map : (xs : List A) → All P (map f xs) → All (λ x. P (f x)) xs
  All-of_map [] all = tt
  All-of_map (x ∷ xs) all = (all.0, All-of_map xs all.1)

  All-to_map : (xs : List A) → All (λ x. P (f x)) xs → All P (map f xs)
  All-to_map [] all = tt
  All-to_map (x ∷ xs) all = (all.0, All-to_map xs all.1)

module _ (Latency : Type 0) (leb_latency : Latency → Latency → Bool) (digest : Digest)
    (ed : Ed25519) where
  abbrev Servers : Type 0
  Servers = List (NodeServer digest ed)

  get-register :
      (i k : String) (health : Registry Latency leb_latency)
      → get_or_create Latency leb_latency i (register Latency leb_latency k health)
        ≡ get_or_create Latency leb_latency i health
  unfolding register get_or_create
  get-register i k health =
      ground (arith, eq_iff i k, lookup-insert i k (new_health Latency leb_latency k) health)

  get-register_all :
      (i : String) (servers : Servers) (health : Registry Latency leb_latency)
      → get_or_create Latency leb_latency i
          (register_all Latency leb_latency digest ed servers health)
        ≡ get_or_create Latency leb_latency i health
  unfolding register_all
  get-register_all i [] health = refl
  get-register_all i (s ∷ servers) health =
      get-register_all i servers (register Latency leb_latency s.node_id health)
      ∙ get-register i s.node_id health

  -- The nodes behind the servers are excluded, or have so many failures in a row.
  abbrev pub AreFailing : ℕ → Servers → Registry Latency leb_latency → Type 0
  AreFailing k servers health =
      All
        (λ s. IsFailing Latency leb_latency k (get_or_create Latency leb_latency s.node_id health))
        servers

  module _ (f : Floats) where
    abbrev Net : Type 0
    Net = P2pNetwork Latency leb_latency digest ed f

    abbrev OneRound : Type 0
    OneRound = Round Latency leb_latency digest ed f

    -- A round of a transaction that the nodes refuse.
    pub record IsRefused (servers : Servers) (r : OneRound) : Type 0 where
      pub json : IsJson r.json r.tx
      pub refused : All (Refuses Latency leb_latency digest ed r.tx) servers

    abbrev run : OneRound → Net → Net
    run = run_round Latency leb_latency digest ed f

    abbrev run_all : List OneRound → Net → Net
    run_all = run_rounds Latency leb_latency digest ed f

    run_round-IsRefused :
        (k : ℕ) (r : OneRound) (net : Net)
        → IsRefused net.servers r
        → AreFailing k net.servers net.health
        → ((run r net).servers ≡ net.servers)
          × ((run r net).min_responses ≡ net.min_responses)
          × AreFailing (k + 1) net.servers (run r net).health
    unfolding broadcast
    run_round-IsRefused k r net bad failing =
        let reg = register_all Latency leb_latency digest ed net.servers net.health in
        let visited = visit Latency leb_latency digest ed r.json r.link reg r.tx in
        let visits = map visited net.servers in
        let collected = collect Latency leb_latency digest ed r.clock visits reg in
        let (health, servers, min_responses) =
          conclude-kept Latency leb_latency digest ed f r.timestamp
            (record net { servers = map (λ v. v.server) visits; health = collected.0 }) r.tx
            collected.1 in
        let same : map (λ v. v.server) visits ≡ net.servers =
          servers-visit Latency leb_latency digest ed r.json r.tx bad.json r.link reg net.servers
            bad.refused in
        let before : AreFailing k net.servers reg =
          All-map _ _
            (λ s h.
              subst (IsFailing Latency leb_latency k)
                (sym (get-register_all s.node_id net.servers net.health)) h)
            net.servers failing in
        let after =
          collect-IsFailing Latency leb_latency digest ed reg r.clock k visits reg
            (Fails-visit Latency leb_latency digest ed r.json r.tx bad.json r.link reg net.servers
              bad.refused)
            (λ i out. out)
            (All-of_map
              (λ s.
                IsFailing Latency leb_latency k (get_or_create Latency leb_latency s.node_id reg))
              (λ v. v.server) visits (subst (λ l. AreFailing k l reg) (sym same) before)) in
        (
          servers ∙ same,
          min_responses,
          subst (AreFailing (k + 1) net.servers) (sym health) (
              subst (λ l. AreFailing (k + 1) l collected.0) same
                (All-to_map
                  (λ s.
                    IsFailing Latency leb_latency (k + 1)
                      (get_or_create Latency leb_latency s.node_id collected.0))
                  (λ v. v.server) visits after)),
        )

    -- Rounds of transactions that the nodes refuse leave the servers as they are, and each of them
    -- brings every node one failure nearer to its exclusion, whether its answer arrives or not.
    pub run_rounds-IsRefused :
        (k : ℕ) (rounds : List OneRound) (servers : Servers) (net : Net)
        → net.servers ≡ servers
        → All (IsRefused servers) rounds
        → AreFailing k servers net.health
        → ((run_all rounds net).servers ≡ servers)
          × ((run_all rounds net).min_responses ≡ net.min_responses)
          × AreFailing (k + length rounds) servers (run_all rounds net).health
    run_rounds-IsRefused k [] servers net same bad failing =
        (same, refl, subst (λ n. AreFailing n servers net.health) (omega arith) failing)
    run_rounds-IsRefused k (r ∷ rounds) servers net same bad failing =
        let (kept, min_kept, failed) =
          run_round-IsRefused k r net (subst (λ l. IsRefused l r) (sym same) bad.0)
            (subst (λ l. AreFailing k l net.health) (sym same) failing) in
        let (later, min_later, failed_later) =
          run_rounds-IsRefused (k + 1) rounds servers (run r net) (kept ∙ same) bad.1
            (subst (λ l. AreFailing (k + 1) l (run r net).health) same failed) in
        (
          later,
          min_later ∙ min_kept,
          subst (λ n. AreFailing n servers (run_all rounds (run r net)).health) (omega arith)
              failed_later,
        )

    module _ (json : Json) (link : String → ℕ → Attempt Latency) (clock : Health.Clock) where
      -- The servers of excluded nodes are visited in vain.
      visits-out :
          (reg : Registry Latency leb_latency) (t : Transaction) (servers : Servers)
          (health : Registry Latency leb_latency)
          → All (λ s. is_out Latency leb_latency reg s.node_id ≡ true) servers
          → (let visits = map (visit Latency leb_latency digest ed json link reg t) servers in
              ((collect Latency leb_latency digest ed clock visits health).1 ≡ [])
              × (length (map (λ v. v.server) visits) ≡ length servers))
      unfolding collect visit
      visits-out reg t [] health all = (refl, refl)
      visits-out reg t (s ∷ servers) health all =
          let (none_came, as_many) = visits-out reg t servers health all.1 in
          rw (all.0, visit, collect) (none_came, ap suc as_many)

      broadcast-out :
          (timestamp : String) (net : Net) (t : Transaction)
          → All (λ s. is_out Latency leb_latency net.health s.node_id ≡ true) net.servers
          → 0 < net.min_responses
          → (broadcast Latency leb_latency digest ed f json link clock timestamp net t).1
            ≡ raise (record {
              responded = 0;
              servers = length net.servers;
              min_responses = net.min_responses;
            })
      unfolding broadcast conclude
      broadcast-out timestamp net t all some_needed =
          let reg = register_all Latency leb_latency digest ed net.servers net.health in
          let (none_came, as_many) = visits-out reg t net.servers reg (
            All-map _ _
              (λ s e.
                is_out-register_all Latency leb_latency digest ed s.node_id net.servers net.health
                ∙ e)
              net.servers all) in
          let short : ltb 0 net.min_responses ≡ true = ground (arith, some_needed) in
          rw (none_came, broadcast, conclude) (rw (short, as_many) refl)

      -- After five rounds or more of transactions that the nodes refuse, whether their answers arrive
      -- or not, no broadcast of any transaction finds a node to ask, as long as one response is
      -- required: it raises `InsufficientQuorumError` with no response. The nodes have less than five
      -- failures in a row, or are excluded, to begin with.
      pub broadcast-IsRefused :
          (timestamp : String) (rounds : List OneRound) (net : Net) (t : Transaction)
          → 5 ≤ length rounds
          → All (IsRefused net.servers) rounds
          → AreFailing 0 net.servers net.health
          → 0 < net.min_responses
          → (broadcast Latency leb_latency digest ed f json link clock timestamp
              (run_all rounds net)
              t).1
            ≡ raise (record {
              responded = 0;
              servers = length net.servers;
              min_responses = net.min_responses;
            })
      broadcast-IsRefused timestamp rounds net t five bad failing some_needed =
          let (servers, min_same, failed) =
            run_rounds-IsRefused 0 rounds net.servers net refl bad failing in
          let after = run_all rounds net in
          let out : All (λ s. is_out Latency leb_latency after.health s.node_id ≡ true)
              after.servers =
            subst (All (λ s. is_out Latency leb_latency after.health s.node_id ≡ true))
              (sym servers)
              (All-map _ _
                (λ s.
                  IsFailing-out Latency leb_latency (0 + length rounds)
                    (get_or_create Latency leb_latency s.node_id after.health)
                    (omega (arith, five)))
                net.servers failed) in
          let raised =
            broadcast-out timestamp after t out (subst (λ n. 0 < n) (sym min_same) some_needed) in
          raised ∙ rw (servers, min_same) refl
