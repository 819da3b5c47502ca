-- ===== src/P2p/Exclusion.antt =====
-- Excluded nodes: no round contacts them, so no success can lead them into rehabilitation.
use ecn.Common.{
  ℕ, String, ◌≡◌, refl, ap, ◌∙◌, ◌⊎◌, inl, inr, Bool, true, false, Option, none, some, List, [],
  ◌∷◌, map, arith, ltb, Bool-cases, Option-cases, length, keep, All, ok, raise, Result-cases,
}
use ecn.Common.Text.{str_eq, eq_iff}
use ecn.Common.Dict.{lookup, lookup-insert, lookup-insert_ne}
use ecn.World.{Transaction}
use ecn.StateManager.{Digest}
use ecn.Consensus.{NodeResult, Floats}
use ecn.Crypto.{Ed25519}
use ecn.Node.{execute_transaction}
use ecn.NodeServer.{NodeServer, handle_client}
use ecn.Health.{
  Registry, NodeHealth, new_health, is_excluded, get_or_create, record_success, record_failure,
}
use ecn.Health as Health
use ecn.P2p.{
  Attempt, unreachable, lost, answered, Json, register, is_out, register_all, send_to_server, Visit,
  visit, collect, P2pNetwork, conclude, broadcast,
}

module _ (Latency : Type 0) (leb_latency : Latency → Latency → Bool) (digest : Digest)
    (ed : Ed25519) where
  abbrev Servers : Type 0
  Servers = List (NodeServer digest ed)

  -- The servers of one name.
  abbrev pub named : String → Servers → Servers
  named id = keep (λ s. str_eq s.node_id id)

  register-kept :
      (id k : String) (h : NodeHealth Latency leb_latency) (health : Registry Latency leb_latency)
      → lookup id health ≡ some h
      → lookup id (register Latency leb_latency k health) ≡ some h
  unfolding register
  register-kept id k h health e =
      ground (arith, e, eq_iff id k, lookup-insert id k (new_health Latency leb_latency k) health)

  register_all-kept :
      (id : String) (h : NodeHealth Latency leb_latency) (servers : Servers)
      (health : Registry Latency leb_latency)
      → lookup id health ≡ some h
      → lookup id (register_all Latency leb_latency digest ed servers health) ≡ some h
  unfolding register_all
  register_all-kept id h [] health e = e
  register_all-kept id h (s ∷ servers) health e =
      register_all-kept id h servers (register Latency leb_latency s.node_id health)
        (register-kept id s.node_id h health e)

  handle_client-node_id :
      (loads : String → Option Transaction) (line : String) (s : NodeServer digest ed)
      → (handle_client digest ed loads line s).0.node_id ≡ s.node_id
  unfolding handle_client
  handle_client-node_id loads line s = elim (Bool-cases (str_eq line "")) [
    | inl e ↦ rw e refl
    | inr e ↦ rw e (elim (Option-cases (loads line)) [
      | inl g ↦ rw g refl
      | inr (tx, g) ↦ rw g (elim (Result-cases (execute_transaction digest ed s.node tx)) [
        | inl (x, k) ↦ rw k refl
        | inr (x, k) ↦ rw k refl
      ])
    ])
  ]

  -- A visit that leaves the health of a node as it is.
  abbrev Passes : String → Visit Latency leb_latency digest ed → Type 0
  Passes id v = (v.response ≡ none) ⊎ (str_eq id v.server.node_id ≡ false)

  collect-other :
      (id : String) (clock : Health.Clock) (visits : List (Visit Latency leb_latency digest ed))
      (health : Registry Latency leb_latency)
      → All (Passes id) visits
      → lookup id (collect Latency leb_latency digest ed clock visits health).0 ≡ lookup id health
  unfolding collect record_failure record_success
  collect-other id clock [] health all = refl
  collect-other id clock (v ∷ visits) health (inl e, all) =
      rw (e, collect) (collect-other id clock visits health all)
  collect-other id clock (v ∷ visits) health (inr e, all) = elim (Option-cases v.response) [
    | inl g ↦ rw (g, collect) (collect-other id clock visits health all)
    | inr (raise x, g) ↦
        rw (g, collect)
          (collect-other id clock visits
              (record_failure Latency leb_latency clock v.server.node_id health) all
            ∙ lookup-insert_ne id v.server.node_id _ health e)
    | inr (ok (r, latency), g) ↦
        rw (g, collect)
          (collect-other id clock visits
              (record_success Latency leb_latency clock v.server.node_id latency health) all
            ∙ lookup-insert_ne id v.server.node_id _ health e)
  ]

  module _ (json : Json) (link : String → ℕ → Attempt Latency) (tx : Transaction) where
    send_to_server-node_id :
        (a : Attempt Latency) (s : NodeServer digest ed)
        → (send_to_server Latency leb_latency digest ed json a tx s).0.node_id ≡ s.node_id
    unfolding send_to_server
    send_to_server-node_id unreachable s = refl
    send_to_server-node_id lost s = handle_client-node_id json.loads (json.dumps tx) s
    send_to_server-node_id (answered latency) s = handle_client-node_id json.loads (json.dumps tx) s

    module _ (reg : Registry Latency leb_latency) where
      abbrev visited : NodeServer digest ed → Visit Latency leb_latency digest ed
      visited = visit Latency leb_latency digest ed json link reg tx

      visit-node_id : (s : NodeServer digest ed) → (visited s).server.node_id ≡ s.node_id
      unfolding visit
      visit-node_id s = elim (Bool-cases (is_out Latency leb_latency reg s.node_id)) [
        | inl e ↦ rw e refl
        | inr e ↦ rw e (send_to_server-node_id (link s.host s.port) s)
      ]

      named-visit :
          (id : String)
          → is_out Latency leb_latency reg id ≡ true
          → (servers : Servers)
          → named id (map (λ v. v.server) (map visited servers)) ≡ named id servers
      unfolding visit
      named-visit id out [] = refl
      named-visit id out (s ∷ servers) = elim (Bool-cases (str_eq s.node_id id)) [
        | inl e ↦
            let same : s.node_id ≡ id = (eq_iff s.node_id id).0 e in
            let here : is_out Latency leb_latency reg s.node_id ≡ true = rw same out in
            rw (here, visit) (rw e (ap (λ l. s ∷ l) (named-visit id out servers)))
        | inr e ↦ rw (visit-node_id s) (rw e (named-visit id out servers))
      ]

      visit-Passes :
          (id : String)
          → is_out Latency leb_latency reg id ≡ true
          → (servers : Servers) → All (Passes id) (map visited servers)
      unfolding visit
      visit-Passes id out [] = tt
      visit-Passes id out (s ∷ servers) = (
        elim (Bool-cases (is_out Latency leb_latency reg s.node_id)) [
          | inl e ↦ inl (rw (e, visit) refl)
          | inr e ↦ inr (rw (visit-node_id s) (ground (arith, out, e, eq_iff id s.node_id)))
        ],
        visit-Passes id out servers,
      )

  module _ (f : Floats) where
    abbrev Net : Type 0
    Net = P2pNetwork Latency leb_latency digest ed f

    -- One call of `broadcast`, with what becomes of its connections.
    pub record Round : Type 0 where
      pub json : Json
      pub link : String → ℕ → Attempt Latency
      pub clock : Health.Clock
      pub timestamp : String
      pub tx : Transaction

    abbrev pub run_round : Round → Net → Net
    run_round r net =
        (broadcast Latency leb_latency digest ed f r.json r.link r.clock r.timestamp net r.tx).0

    abbrev pub run_rounds : List Round → Net → Net
    run_rounds [] net = net
    run_rounds (r ∷ rounds) net = run_rounds rounds (run_round r net)

    pub conclude-kept :
        (timestamp : String) (net : Net) (tx : Transaction) (results : List NodeResult)
        → (let net' = (conclude Latency leb_latency digest ed f timestamp net tx results).0 in
            (net'.health ≡ net.health)
            × (net'.servers ≡ net.servers)
            × (net'.min_responses ≡ net.min_responses))
    unfolding conclude
    conclude-kept timestamp net tx results =
        elim (Bool-cases (ltb (length results) net.min_responses)) [
          | inl e ↦ rw (e, conclude) (refl, refl, refl)
          | inr e ↦ rw (e, conclude) (refl, refl, refl)
        ]

    run_round-excluded :
        (r : Round) (net : Net) (id : String) (h : NodeHealth Latency leb_latency)
        → is_excluded h.state ≡ true
        → lookup id net.health ≡ some h
        → (lookup id (run_round r net).health ≡ some h)
          × (named id (run_round r net).servers ≡ named id net.servers)
    unfolding broadcast get_or_create
    run_round-excluded r net id h out there =
        let reg = register_all Latency leb_latency digest ed net.servers net.health in
        let known : lookup id reg ≡ some h = register_all-kept id h net.servers net.health there in
        let excluded : is_out Latency leb_latency reg id ≡ true = rw (known, get_or_create) out in
        let visits = map (visited r.json r.link r.tx reg) net.servers in
        let collected = collect Latency leb_latency digest ed r.clock visits reg in
        let kept =
          conclude-kept r.timestamp
            (record net { servers = map (λ v. v.server) visits; health = collected.0 }) r.tx
            collected.1 in
        (
          ap (lookup id) kept.0
              ∙ collect-other id r.clock visits reg
                  (visit-Passes r.json r.link r.tx reg id excluded net.servers)
              ∙ known,
          ap (named id) kept.1 ∙ named-visit r.json r.link r.tx reg id excluded net.servers,
        )

    -- Once the health record of a node says that it is excluded, no sequence of rounds changes that
    -- record or sends anything to the servers of that name, whatever becomes of the connections and
    -- however much time passes.
    pub run_rounds-excluded :
        (rounds : List Round) (net : Net) (id : String) (h : NodeHealth Latency leb_latency)
        → is_excluded h.state ≡ true
        → lookup id net.health ≡ some h
        → (lookup id (run_rounds rounds net).health ≡ some h)
          × (named id (run_rounds rounds net).servers ≡ named id net.servers)
    run_rounds-excluded [] net id h out there = (there, refl)
    run_rounds-excluded (r ∷ rounds) net id h out there =
        let first = run_round-excluded r net id h out there in
        let later = run_rounds-excluded rounds (run_round r net) id h out first.0 in
        (later.0, later.1 ∙ first.1)
