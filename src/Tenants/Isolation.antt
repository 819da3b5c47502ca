-- ===== src/Tenants/Isolation.antt =====
-- What tenants cannot do to each other, and how many nodes one can ask for.
use ecn.Common.{
  ℕ, zero, suc, ◌+◌, ◌*◌, ◌≤◌, ◌<◌, String, ◌≡◌, refl, sym, ap, ◌∙◌, inl, inr, Bool, false, Option,
  none, some, List, [], ◌∷◌, map, arith, ◌==◌, Bool-cases, Option-cases, length, All, ok, raise,
  Result-cases,
}
use ecn.Common.Text.{str_eq, eq_iff}
use ecn.Common.Dict.{lookup, contains, lookup-insert_ne}
use ecn.Common.Int.{ℤ, pos}
use ecn.World.{State, Transaction}
use ecn.StateManager.{Digest}
use ecn.Consensus.{Floats}
use ecn.Crypto.{Ed25519}
use ecn.Billing.{Entry, BillingTracker, load_entries, record_round}
use ecn.Billing.Totals.{price, compute_billed_amount-ok, load_entries-append_entry}
use ecn.Billing as Billing
use ecn.Persistence.Usage.{CounterStore}
use ecn.P2p.{NodeConfig, create_servers, create, new_network, node_count, broadcast}
use ecn.Api.{RequestEnv, latest_event}
use ecn.Auth.{given_or}
use ecn.Tenants.{
  default_tenant_products, list_or, default_tenant_nodes, tenant_config, HostEnv, clamp_nodes,
  node_names, Tenant, TenantRegistry, create_tenant, create_tenant_route, Site, bill_tenant,
  run_tenant, submit_transaction,
}

length-map : {A B : Type 0} (f : A → B) (xs : List A) → length (map f xs) ≡ length xs
length-map f [] = refl
length-map f (x ∷ xs) = ap suc (length-map f xs)

length-node_names : (str : ℕ → String) (i n : ℕ) → length (node_names str i n) ≡ n
unfolding node_names
length-node_names str i zero = refl
length-node_names str i (suc n) = ap suc (length-node_names str (i + 1) n)

list_or-given : (xs default : List String) → 0 < length xs → list_or (some xs) default ≡ xs
list_or-given [] default some_there = absurd (omega (arith, some_there))
list_or-given (x ∷ xs) default some_there = refl

module _ (Latency : Type 0) (leb_latency : Latency → Latency → Bool) (digest : Digest)
    (ed : Ed25519) (f : Floats) where
  length-create_servers :
      (host : String) (key : ℕ → ed.PrivateKey) (assigned : ℕ → ℕ) (s : State) (base i : ℕ)
      (configs : List NodeConfig)
      → length (create_servers Latency leb_latency digest ed host key assigned s base i configs)
        ≡ length configs
  unfolding create_servers
  length-create_servers host key assigned s base i [] = refl
  length-create_servers host key assigned s base i (c ∷ configs) =
      ap suc (length-create_servers host key assigned s base (i + 1) configs)

  node_count-create_tenant :
      (env : HostEnv ed.PrivateKey f.Float) (name : String) (nodes : List String)
      (products : Option (List String)) (tenant_id : Option String)
      (registry registry' : TenantRegistry Latency leb_latency digest ed f)
      (tenant : Tenant Latency leb_latency digest ed f)
      → 0 < length nodes
      → create_tenant Latency leb_latency digest ed f env name
          (some nodes)
          products
          tenant_id
          registry
        ≡ ok (registry', tenant)
      → node_count Latency leb_latency digest ed f tenant.network ≡ length nodes
  unfolding create_tenant create new_network
  node_count-create_tenant env name nodes products tenant_id registry registry' tenant some_node
        made =
      let tid = given_or tenant_id env.uuid in
      elim (Bool-cases (contains tid registry)) [
        | inl e ↦ absurd (ground (arith, made, e))
        | inr e ↦
            let built = rw e at made in
            sym (
              ap
                (λ r. elim r [
                  | ok p ↦ node_count Latency leb_latency digest ed f p.1.network
                  | raise x ↦ 0
                ])
                built)
            ∙ length-create_servers _ _ _ _ _ _ _
            ∙ length-map (tenant_config tid) _
            ∙ ap length (list_or-given nodes default_tenant_nodes some_node)
      ]

  -- What another tenant has to pay.
  abbrev pub entries_of :
      {store : CounterStore} → String → Option (BillingTracker f store) → List Entry
  entries_of u none = []
  entries_of u (some b) = load_entries u b.ledger

  module _ (store : CounterStore) where
    entries_of-bill_tenant :
        (env : RequestEnv Latency) (t u : String) (n : ℕ) (reached : Bool)
        (tracker tracker' : Option (BillingTracker f store))
        → str_eq t u ≡ false
        → bill_tenant Latency leb_latency digest ed f store env t n reached tracker ≡ ok tracker'
        → entries_of u tracker' ≡ entries_of u tracker
    unfolding bill_tenant record_round
    entries_of-bill_tenant env t u n reached none tracker' other billed =
        ap (λ r. elim r [ ok x ↦ entries_of u x | raise e ↦ [] ]) (sym billed)
    entries_of-bill_tenant env t u n reached (some b) tracker' other billed =
        let period = Billing.current_period env.billing.granularity env.billing.now in
        let entry : Entry = record {
          ledger_id = b.ledger.seq + 1;
          tx_id = env.uuid;
          tenant_id = t;
          period = period;
          node_round_count = n;
          billed_amount = n * price f env.billing;
          consensus_reached = reached;
          recorded_at = env.billing.now.isoformat;
        } in
        let done = rw (compute_billed_amount-ok f env.billing n) at billed in
        sym (ap (λ r. elim r [ ok x ↦ entries_of u x | raise e ↦ [] ]) done)
        ∙ load_entries-append_entry entry b.ledger u
        ∙ rw other refl

    entries_of-run_tenant :
        (env : RequestEnv Latency) (t u : String) (tx : Transaction)
        (tenant : Tenant Latency leb_latency digest ed f)
        (tracker : Option (BillingTracker f store))
        → str_eq t u ≡ false
        → entries_of u
            (run_tenant Latency leb_latency digest ed f store env t tx tenant tracker).0.1
          ≡ entries_of u tracker
    unfolding run_tenant
    entries_of-run_tenant env t u tx tenant tracker other =
        let sent =
          broadcast Latency leb_latency digest ed f env.json env.link env.round_clock env.timestamp
            tenant.network tx in
        elim (Result-cases sent.1) [
          | inr (e, k) ↦ rw (k, run_tenant) refl
          | inl ((results, c), k) ↦
              rw (k, run_tenant)
                (elim (Bool-cases (length results == 0)) [
                  | inl g ↦ rw g refl
                  | inr g ↦ rw g (elim (Option-cases (latest_event sent.0.audit_log)) [
                    | inl h ↦ rw h refl
                    | inr (event, h) ↦
                        rw h
                          (elim (Result-cases (
                            bill_tenant Latency leb_latency digest ed f store env t
                              (node_count Latency leb_latency digest ed f sent.0)
                              c.consensus_reached tracker)) [
                                | inr (x, b) ↦ rw b refl
                                | inl (tracker', b) ↦ rw b (
                                    entries_of-bill_tenant env t u _ c.consensus_reached tracker
                                      tracker' other b)
                              ])
                  ])
                ])
        ]

    -- One call of `tenant_submit_transaction`
    pub record Submission : Type 0 where
      pub env : RequestEnv Latency
      pub tenant_id : String
      pub tx : Transaction

    abbrev pub submit_all :
        List Submission
        → Site Latency leb_latency digest ed f store
        → Site Latency leb_latency digest ed f store
    submit_all [] site = site
    submit_all (s ∷ calls) site =
        submit_all calls
          (submit_transaction Latency leb_latency digest ed f store s.env s.tenant_id s.tx site).0

    submit_transaction-isolated :
        (env : RequestEnv Latency) (t u : String) (tx : Transaction)
        (site : Site Latency leb_latency digest ed f store)
        → str_eq t u ≡ false
        → (let site' = (submit_transaction Latency leb_latency digest ed f store env t tx site).0 in
            (lookup u site'.tenants ≡ lookup u site.tenants)
            × (entries_of u site'.tracker ≡ entries_of u site.tracker))
    unfolding submit_transaction
    submit_transaction-isolated env t u tx site other =
        elim (Option-cases (lookup t site.tenants)) [
          | inl e ↦ rw (e, submit_transaction) (refl, refl)
          | inr (tenant, e) ↦
              rw (e, submit_transaction)
                (
                  lookup-insert_ne u t _ site.tenants
                      (ground (arith, other, eq_iff t u, eq_iff u t)),
                  entries_of-run_tenant env t u tx tenant site.tracker other,
                )
        ]

    -- Whatever is submitted to other tenants, refused or not, a tenant keeps its network, its audit
    -- log, its webhooks and its deliveries, and the ledger holds the same entries of it as before.
    pub submit_all-isolated :
        (u : String) (calls : List Submission) (site : Site Latency leb_latency digest ed f store)
        → All (λ s. str_eq s.tenant_id u ≡ false) calls
        → (lookup u (submit_all calls site).tenants ≡ lookup u site.tenants)
          × (entries_of u (submit_all calls site).tracker ≡ entries_of u site.tracker)
    submit_all-isolated u [] site others = (refl, refl)
    submit_all-isolated u (s ∷ calls) site others =
        let first = submit_transaction-isolated s.env s.tenant_id u s.tx site others.0 in
        let later =
          submit_all-isolated u calls
            (submit_transaction Latency leb_latency digest ed f store s.env s.tenant_id s.tx site).0
            others.1 in
        (later.0 ∙ first.0, later.1 ∙ first.1)

  clamp_nodes-bounds : (n : ℤ) → (1 ≤ clamp_nodes n) × (clamp_nodes n ≤ 10)
  unfolding clamp_nodes
  clamp_nodes-bounds n = (omega arith, omega arith)

  clamp_nodes_given :
      (requested : ℤ) (n : ℕ) → requested ≡ pos n → 1 ≤ n → n ≤ 10 → clamp_nodes requested ≡ n
  unfolding clamp_nodes
  clamp_nodes_given requested n asked low high = rw asked (omega (arith, low, high))

  -- A tenant that the route creates has at least one node and at most ten, whatever number is asked
  -- for, negative ones included, and that number when it lies between.
  pub create_tenant_route-bounds :
      (env : HostEnv ed.PrivateKey f.Float) (name : String) (requested : ℤ) (products : List String)
      (registry registry' : TenantRegistry Latency leb_latency digest ed f)
      (info : String × String × ℕ)
      → create_tenant_route Latency leb_latency digest ed f env name requested products registry
        ≡ ok (registry', info)
      → (1 ≤ info.2) × (info.2 ≤ 10) × ((n : ℕ) → requested ≡ pos n → 1 ≤ n → n ≤ 10 → info.2 ≡ n)
  unfolding create_tenant_route
  create_tenant_route-bounds env name requested products registry registry' info made =
      let names = node_names env.str 0 (clamp_nodes requested) in
      let count : length names ≡ clamp_nodes requested =
        length-node_names env.str 0 (clamp_nodes requested) in
      let (least, most) = clamp_nodes-bounds requested in
      let chosen = some (list_or (some products) default_tenant_products) in
      elim (Result-cases (
        create_tenant Latency leb_latency digest ed f env name (some names) chosen none registry)) [
          | inr (e, k) ↦ absurd (ground (arith, made, k))
          | inl ((r, tenant), k) ↦
              let built = rw (k, create_tenant_route) at made in
              let same : info.2 ≡ clamp_nodes requested =
                sym (ap (λ x. elim x [ ok p ↦ p.1.2 | raise e ↦ 0 ]) built)
                ∙ node_count-create_tenant env name names chosen none registry r tenant
                    (omega (arith, count, least)) k
                ∙ count in
              (
                omega (arith, same, least),
                omega (arith, same, most),
                λ n asked low high. same ∙ clamp_nodes_given requested n asked low high,
              )
        ]
