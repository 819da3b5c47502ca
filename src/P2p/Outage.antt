-- ===== src/P2p/Outage.antt =====
-- Transactions that the nodes refuse: an error response counts as a failure of the node.
use ecn.Common.{
  ℕ, ◌+◌, ◌≤◌, ◌<◌, String, ◌≡◌, refl, sym, ap, ◌⊎◌, inl, inr, Bool, true, Option, none, some, List,
  [], ◌∷◌, map, arith, if◌then◌else◌, Bool-cases, Option-cases, All, All-map, raise,
}
use ecn.Common.Text.{str_eq, eq_iff, str_eq_refl}
use ecn.Common.Dict.{insert, lookup-insert}
use mathlib.Core.Path.{subst}
use ecn.World.{Transaction, Error}
use ecn.Execution.{run_transaction}
use ecn.StateManager.{Digest, apply_transaction}
use ecn.Crypto.{Ed25519}
use ecn.Node.{execute_transaction}
use ecn.NodeServer.{NodeServer, malformed_request, execution_error, handle_client}
use ecn.Health.{Registry, NodeHealth, is_excluded, get_or_create, record_failure, fail, demote}
use ecn.Health.Thresholds.{NodeState-cases}
use ecn.Health as Health
use ecn.P2p.{
  Attempt, Json, SendError, connection_failed, node_error, is_out, send_to_server, Visit, visit,
  collect,
}
use ecn.P2p.Rounds.{IsJson, Attempt-cases}

module _ (Latency : Type 0) (leb_latency : Latency → Latency → Bool) where
  abbrev Record : Type 0
  Record = NodeHealth Latency leb_latency

  abbrev pub get : String → Registry Latency leb_latency → Record
  get = get_or_create Latency leb_latency

  -- Excluded, or short of exclusion with so many failures in a row.
  abbrev pub IsFailing : ℕ → Record → Type 0
  IsFailing k h =
      (is_excluded h.state ≡ true) ⊎ ((k ≤ h.consecutive_failures) × (h.consecutive_failures < 5))

  fail-IsFailing :
      (k : ℕ) (clock : Health.Clock) (h : Record)
      → IsFailing k h
      → IsFailing (k + 1) (fail Latency leb_latency clock h)
  unfolding fail demote
  fail-IsFailing k clock h failing = ground (arith, failing, NodeState-cases h.state)

  IsFailing-less : (k : ℕ) (h : Record) → IsFailing (k + 1) h → IsFailing k h
  IsFailing-less k h (inl out) = inl out
  IsFailing-less k h (inr (more, less)) = inr (omega (arith, more), less)

  pub IsFailing-out : (k : ℕ) (h : Record) → 5 ≤ k → IsFailing k h → is_excluded h.state ≡ true
  IsFailing-out k h enough (inl out) = out
  IsFailing-out k h enough (inr (more, less)) = absurd (omega (arith, enough, more, less))

  get-insert :
      (i k : String) (h : Record) (health : Registry Latency leb_latency)
      → get i (insert k h health) ≡ (if str_eq i k then h else get i health)
  unfolding get_or_create
  get-insert i k h health = ground (arith, lookup-insert i k h health)

  record_failure-IsFailing :
      (k : ℕ) (clock : Health.Clock) (i j : String) (health : Registry Latency leb_latency)
      → IsFailing k (get i health)
      → IsFailing k (get i (record_failure Latency leb_latency clock j health))
  unfolding record_failure
  record_failure-IsFailing k clock i j health failing = elim (Bool-cases (str_eq i j)) [
    | inl e ↦
        let same : i ≡ j = (eq_iff i j).0 e in
        rw (record_failure, get-insert i j (fail Latency leb_latency clock (get j health)) health)
          (rw e (
            IsFailing-less k (fail Latency leb_latency clock (get j health))
              (fail-IsFailing k clock (get j health) (rw (sym same) failing))))
    | inr e ↦
        rw (record_failure, get-insert i j (fail Latency leb_latency clock (get j health)) health)
          (rw e failing)
  ]

  record_failure-IsFailing_same :
      (k : ℕ) (clock : Health.Clock) (i : String) (health : Registry Latency leb_latency)
      → IsFailing k (get i health)
      → IsFailing (k + 1) (get i (record_failure Latency leb_latency clock i health))
  unfolding record_failure
  record_failure-IsFailing_same k clock i health failing =
      rw
        (
          record_failure,
          get-insert i i (fail Latency leb_latency clock (get i health)) health,
          str_eq_refl i,
        )
        (fail-IsFailing k clock (get i health) failing)

  module _ (digest : Digest) (ed : Ed25519) where
    -- A transaction that the node behind a server refuses.
    abbrev pub Refuses : Transaction → NodeServer digest ed → Type 0
    Refuses tx s = (e : Error) × (run_transaction s.node.manager.state tx ≡ raise e)

    -- A visit without a result.
    abbrev Fails : Registry Latency leb_latency → Visit Latency leb_latency digest ed → Type 0
    Fails reg v =
        ((is_out Latency leb_latency reg v.server.node_id ≡ true) × (v.response ≡ none))
        ⊎ ((e : SendError) × (v.response ≡ some (raise e)))

    handle_client-Refuses :
        (loads : String → Option Transaction) (line : String) (tx : Transaction)
        (s : NodeServer digest ed)
        → ((t : Transaction) → loads line ≡ some t → t ≡ tx)
        → Refuses tx s
        → ((handle_client digest ed loads line s).0 ≡ s)
          × (((handle_client digest ed loads line s).1 ≡ none)
              ⊎ ((handle_client digest ed loads line s).1 ≡ some malformed_request)
              ⊎ ((e : Error) × ((handle_client digest ed loads line s).1
                    ≡ some (execution_error e))))
    unfolding handle_client execute_transaction apply_transaction
    handle_client-Refuses loads line tx s reads (e, refused) = elim (Bool-cases (str_eq line "")) [
      | inl g ↦ rw (g, handle_client) (refl, inl refl)
      | inr g ↦
          rw (g, handle_client)
            (elim (Option-cases (loads line)) [
              | inl k ↦ rw k (refl, inr (inl refl))
              | inr (t, k) ↦
                  let same : t ≡ tx = reads t k in
                  let here : run_transaction s.node.manager.state t ≡ raise e = rw same refused in
                  rw k
                    (rw (here, execute_transaction, apply_transaction) (refl, inr (inr (e, refl))))
            ])
    ]

    module _ (json : Json) (tx : Transaction) (law : IsJson json tx)
        (link : String → ℕ → Attempt Latency) (reg : Registry Latency leb_latency) where
      abbrev visited : NodeServer digest ed → Visit Latency leb_latency digest ed
      visited = visit Latency leb_latency digest ed json link reg tx

      send_to_server-Refuses :
          (a : Attempt Latency) (s : NodeServer digest ed)
          → Refuses tx s
          → (let sent = send_to_server Latency leb_latency digest ed json a tx s in
              (sent.0 ≡ s) × ((e : SendError) × (sent.1 ≡ raise e)))
      unfolding send_to_server
      send_to_server-Refuses a s refused =
          let (same, response) =
            handle_client-Refuses json.loads (json.dumps tx) tx s
              (λ t e. ground (arith, e, law.loads-dumps)) refused in
          elim (Attempt-cases a) [
            | inl e ↦ rw (e, send_to_server) (refl, (connection_failed, refl))
            | inr (inl e) ↦ rw (e, send_to_server) (same, (connection_failed, refl))
            | inr (inr (latency, e)) ↦ elim response [
              | inl g ↦ rw (e, send_to_server) (same, rw g (connection_failed, refl))
              | inr (inl g) ↦
                  rw (e, send_to_server) (same, rw g (node_error malformed_request, refl))
              | inr (inr (x, g)) ↦
                  rw (e, send_to_server) (same, rw g (node_error (execution_error x), refl))
            ]
          ]

      visit-Refuses :
          (s : NodeServer digest ed)
          → Refuses tx s
          → ((visited s).server ≡ s) × Fails reg (visited s)
      unfolding visit
      visit-Refuses s refused = elim (Bool-cases (is_out Latency leb_latency reg s.node_id)) [
        | inl out ↦ rw (out, visit) (refl, inl (out, refl))
        | inr there ↦
            let (same, (e, raised)) = send_to_server-Refuses (link s.host s.port) s refused in
            rw (there, visit) (same, inr (e, ap some raised))
      ]

      pub servers-visit :
          (servers : List (NodeServer digest ed))
          → All (Refuses tx) servers
          → map (λ v. v.server) (map visited servers) ≡ servers
      servers-visit [] all = refl
      servers-visit (s ∷ servers) all =
          rw ((visit-Refuses s all.0).0, servers-visit servers all.1) refl

      pub Fails-visit :
          (servers : List (NodeServer digest ed))
          → All (Refuses tx) servers
          → All (Fails reg) (map visited servers)
      Fails-visit [] all = tt
      Fails-visit (s ∷ servers) all = ((visit-Refuses s all.0).1, Fails-visit servers all.1)

    module _ (reg : Registry Latency leb_latency) (clock : Health.Clock) where
      abbrev collected :
          List (Visit Latency leb_latency digest ed)
          → Registry Latency leb_latency
          → Registry Latency leb_latency
      collected visits health = (collect Latency leb_latency digest ed clock visits health).0

      collect-none :
          (v : Visit Latency leb_latency digest ed)
          (visits : List (Visit Latency leb_latency digest ed))
          (health : Registry Latency leb_latency)
          → v.response ≡ none
          → collected (v ∷ visits) health ≡ collected visits health
      unfolding collect
      collect-none v visits health e = rw (e, collect) refl

      collect-raise :
          (v : Visit Latency leb_latency digest ed)
          (visits : List (Visit Latency leb_latency digest ed))
          (health : Registry Latency leb_latency) (x : SendError)
          → v.response ≡ some (raise x)
          → collected (v ∷ visits) health
            ≡ collected visits (record_failure Latency leb_latency clock v.server.node_id health)
      unfolding collect
      collect-raise v visits health x e = rw (e, collect) refl

      collect-keeps :
          (k : ℕ) (i : String) (visits : List (Visit Latency leb_latency digest ed))
          (health : Registry Latency leb_latency)
          → All (Fails reg) visits
          → IsFailing k (get i health)
          → IsFailing k (get i (collected visits health))
      unfolding collect
      collect-keeps k i [] health all failing = failing
      collect-keeps k i (v ∷ visits) health (inl (_, e), all) failing =
          rw (collect-none v visits health e) (collect-keeps k i visits health all failing)
      collect-keeps k i (v ∷ visits) health (inr (x, e), all) failing =
          rw (collect-raise v visits health x e) (
            collect-keeps k i visits _ all
              (record_failure-IsFailing k clock i v.server.node_id health failing))

      -- The nodes of a list of visits have failed so many times, or are excluded.
      abbrev pub AllFailing :
          ℕ → List (Visit Latency leb_latency digest ed) → Registry Latency leb_latency → Type 0
      AllFailing k visits health = All (λ v. IsFailing k (get v.server.node_id health)) visits

      -- Every node of a round without results has one more failure, or is excluded.
      pub collect-IsFailing :
          (k : ℕ) (visits : List (Visit Latency leb_latency digest ed))
          (health : Registry Latency leb_latency)
          → All (Fails reg) visits
          → ((i : String)
              → is_out Latency leb_latency reg i ≡ true
              → is_out Latency leb_latency health i ≡ true)
          → AllFailing k visits health
          → AllFailing (k + 1) visits (collected visits health)
      collect-IsFailing k [] health all kept failing = tt
      collect-IsFailing k (v ∷ visits) health (inl (out, e), all) kept failing =
          subst (AllFailing (k + 1) (v ∷ visits)) (sym (collect-none v visits health e)) (
            collect-keeps (k + 1) v.server.node_id visits health all
                (inl (kept v.server.node_id out)),
            collect-IsFailing k visits health all kept failing.1,
          )
      collect-IsFailing k (v ∷ visits) health (inr (x, e), all) kept failing =
          let health' = record_failure Latency leb_latency clock v.server.node_id health in
          subst (AllFailing (k + 1) (v ∷ visits)) (sym (collect-raise v visits health x e)) (
            collect-keeps (k + 1) v.server.node_id visits health' all
                (record_failure-IsFailing_same k clock v.server.node_id health failing.0),
            collect-IsFailing k visits health' all
                (λ i out.
                  IsFailing-out 5 (get i health') (omega arith)
                    (record_failure-IsFailing 5 clock i v.server.node_id health (inl (kept i out))))
                (All-map _ _
                  (λ w. record_failure-IsFailing k clock w.server.node_id v.server.node_id health)
                  visits failing.1),
          )
