-- ===== src/Tenants.antt =====
-- ecn/tenant.py: a network of its own for every tenant, and the routes on it. The audit log of a tenant
-- is the one that its network records in. Fresh identifiers, keys, ports and the decimal digits of
-- Python's `str` are parameters.
pub mod Isolation
mod Tests
use ecn.Common.{
  ℕ, zero, suc, ◌+◌, min, max, String, Bool, Option, none, some, List, [], ◌∷◌, ◌++◌, map, ◌==◌,
  if◌then◌else◌, length, Result, ok, raise, ◌>>=◌,
}
use ecn.Common.Dict.{Dict, lookup, contains, insert, erase, values}
use ecn.Common.Int.{ℤ, pos_part}
use Prim.Native.String.{◌++◌ as ◌⁀◌}
use ecn.World.{Transaction}
use ecn.SupplyChain.{make_initial_state}
use ecn.StateManager.{Digest}
use ecn.Consensus.{Floats}
use ecn.Crypto.{Ed25519}
use ecn.Audit.{AuditEvent}
use ecn.Billing.{BillingTracker, record_round}
use ecn.Persistence.Usage.{CounterStore}
use ecn.Webhooks.{WebhookRegistry, Delivery, dispatch}
use ecn.Auth.{given_or}
use ecn.P2p.{NodeConfig, P2pNetwork, create, shutdown, node_count, broadcast}
use ecn.Api.{
  HttpError, insufficient_quorum, all_rejected, not_recorded, not_found, server_error, RequestEnv,
  latest_event,
}

-- `_DEFAULT_TENANT_NODES`
abbrev pub default_tenant_nodes : List String
default_tenant_nodes = "Validator-1" ∷ "Validator-2" ∷ "Validator-3" ∷ []

abbrev pub default_tenant_products : List String
default_tenant_products = "ITEM-001" ∷ "ITEM-002" ∷ []

-- `given or default` on lists
abbrev pub list_or : Option (List String) → List String → List String
list_or none default = default
list_or (some []) default = default
list_or (some (x ∷ xs)) default = x ∷ xs

-- `f"{tid}-{c['node_id']}"`, with port 0
abbrev pub tenant_config : String → String → NodeConfig
tenant_config tid node_id = record {
  node_id = tid ⁀ ("-" ⁀ node_id);
  port = some 0;
  malicious = none;
  host = none;
}

-- `ValueError(f"Tenant {tid!r} already exists")`
pub record TenantExists : Type 0 where
  pub tenant_id : String

-- What the creation of a network meets outside.
pub record HostEnv (PrivateKey : Type 0) (Float : Type 0) : Type 0 where
  pub uuid : String
  pub default_threshold : Float
  pub node_host : String
  pub private_key : ℕ → PrivateKey
  pub assigned : ℕ → ℕ
  pub str : ℕ → String

-- `max(1, min(body.node_count, 10))`
unfoldable pub clamp_nodes : ℤ → ℕ
clamp_nodes n = max 1 (min (pos_part n) 10)

-- `[{"node_id": f"Node-{i + 1}"} for i in range(node_count)]`, from place `i` on
unfoldable pub node_names : (ℕ → String) → ℕ → ℕ → List String
node_names str i zero = []
node_names str i (suc n) = ("Node-" ⁀ str (i + 1)) ∷ node_names str (i + 1) n

module _ (Latency : Type 0) (leb_latency : Latency → Latency → Bool) (digest : Digest)
    (ed : Ed25519) (f : Floats) where
  pub record Tenant : Type 0 where
    pub tenant_id : String
    pub name : String
    pub network : P2pNetwork Latency leb_latency digest ed f
    pub webhooks : WebhookRegistry
    pub deliveries : List Delivery

  -- `TenantRegistry._tenants`
  abbrev pub TenantRegistry : Type 0
  TenantRegistry = Dict Tenant

  -- `TenantRegistry.create_tenant`
  unfoldable pub create_tenant :
      HostEnv ed.PrivateKey f.Float
      → String
      → Option (List String)
      → Option (List String)
      → Option String
      → TenantRegistry
      → Result TenantExists (TenantRegistry × Tenant)
  create_tenant env name node_ids product_ids tenant_id registry =
      let tid = given_or tenant_id env.uuid in
      if contains tid registry
      then raise (record { tenant_id = tid })
      else (let tenant : Tenant = record {
        tenant_id = tid;
        name = name;
        network =
            create Latency leb_latency digest ed f env.default_threshold env.node_host
              env.private_key env.assigned
              (make_initial_state (list_or product_ids default_tenant_products)) 0
              (map (tenant_config tid) (list_or node_ids default_tenant_nodes)) (some []) none none
              none;
        webhooks = [];
        deliveries = [];
      } in
          ok (insert tid tenant registry, tenant))

  -- `TenantRegistry.delete_tenant`: the tenant is gone, and its network is shut down.
  unfoldable pub delete_tenant :
      String → TenantRegistry → TenantRegistry × Option (P2pNetwork Latency leb_latency digest ed f)
  delete_tenant tenant_id registry = elim (lookup tenant_id registry) [
    | none ↦ (registry, none)
    | some tenant ↦
        (erase tenant_id registry, some (shutdown Latency leb_latency digest ed f tenant.network))
  ]

  -- `list_tenants`: the names with the numbers of nodes
  abbrev pub tenant_info : Tenant → String × String × ℕ
  tenant_info t = (t.tenant_id, t.name, node_count Latency leb_latency digest ed f t.network)

  unfoldable pub list_tenants : TenantRegistry → List (String × String × ℕ)
  list_tenants registry = map tenant_info (values registry)

  -- The route `create_tenant`, with the `node_count` and the products of its body; the error is the
  -- 500 of a tenant that exists.
  unfoldable pub create_tenant_route :
      HostEnv ed.PrivateKey f.Float
      → String
      → ℤ
      → List String
      → TenantRegistry
      → Result HttpError (TenantRegistry × (String × String × ℕ))
  create_tenant_route env name requested products registry =
      elim (create_tenant env name (some (node_names env.str 0 (clamp_nodes requested)))
        (some (list_or (some products) default_tenant_products)) none registry) [
          | raise e ↦ raise server_error
          | ok created ↦ ok (created.0, tenant_info created.1)
        ]

  module _ (store : CounterStore) where
    -- The registry of the tenants and the billing tracker, if it is there.
    pub record Site : Type 0 where
      pub tenants : TenantRegistry
      pub tracker : Option (BillingTracker f store)

    -- `record_round` of the tracker, passed over when there is none: none where it raises `KeyError`
    unfoldable pub bill_tenant :
        RequestEnv Latency
        → String
        → ℕ
        → Bool
        → Option (BillingTracker f store)
        → Result String (Option (BillingTracker f store))
    bill_tenant env tenant_id nodes reached none = ok none
    bill_tenant env tenant_id nodes reached (some tracker) = do
      recorded ← record_round f store env.billing tenant_id env.uuid nodes reached tracker
      ok (some recorded.0)

    -- `tenant_submit_transaction` on the tenant that was found; what it leaves of the tenant and the
    -- tracker, and its answer.
    unfoldable pub run_tenant :
        RequestEnv Latency
        → String
        → Transaction
        → Tenant
        → Option (BillingTracker f store)
        → (Tenant × Option (BillingTracker f store)) × Result HttpError AuditEvent
    run_tenant env tenant_id tx tenant tracker =
        let sent =
          broadcast Latency leb_latency digest ed f env.json env.link env.round_clock env.timestamp
            tenant.network tx in
        let tenant' = record tenant { network = sent.0 } in
        elim sent.1 [
          | raise e ↦ ((tenant', tracker), raise (insufficient_quorum e))
          | ok (results, c) ↦
              if length results == 0
              then ((tenant', tracker), raise all_rejected)
              else (elim (latest_event sent.0.audit_log) [
                | none ↦ ((tenant', tracker), raise not_recorded)
                | some event ↦
                    elim (bill_tenant env tenant_id
                      (node_count Latency leb_latency digest ed f sent.0) c.consensus_reached
                      tracker) [
                        | raise e ↦ ((tenant', tracker), raise server_error)
                        | ok tracker' ↦ (
                          (
                            record tenant' {
                              deliveries = tenant.deliveries ++ dispatch event tenant.webhooks;
                            },
                            tracker',
                          ),
                          ok event,
                        )
                      ]
              ])
        ]

    -- `tenant_submit_transaction`
    unfoldable pub submit_transaction :
        RequestEnv Latency → String → Transaction → Site → Site × Result HttpError AuditEvent
    submit_transaction env tenant_id tx site = elim (lookup tenant_id site.tenants) [
      | none ↦ (site, raise not_found)
      | some tenant ↦
          let ran = run_tenant env tenant_id tx tenant site.tracker in
          (record { tenants = insert tenant_id ran.0.0 site.tenants; tracker = ran.0.1 }, ran.1)
    ]
