-- ===== src/Tenants/Tests.antt =====
-- Two tenants.
use ecn.Common.{ℕ, ◌+◌, ◌≤◌, String, ◌≡◌, refl, none, some, List, [], ◌∷◌, leb, ok, raise}
use ecn.Common.Dict.{lookup, insert}
use ecn.Common.Int.{pos}
use ecn.Billing.{BillingTracker}
use ecn.Persistence.Usage.{sqlite_counters}
use ecn.Samples.{minting, digest, ed25519, fractions, majority}
use ecn.P2p.{new_network, create, create_servers}
use ecn.P2p.Samples.{clock, only, net, link}
use ecn.Api.{RequestEnv}
use ecn.Tenants.{
  HostEnv, Tenant, TenantRegistry, clamp_nodes, node_names, create_tenant, create_tenant_route,
  Site,
}
use ecn.Tenants.Isolation.{
  entries_of, Submission, submit_all, submit_all-isolated, create_tenant_route-bounds,
}

program : Unit {0}
unfolding clamp_nodes node_names create_tenant create_tenant_route insert create create_servers
    new_network
program = tt

abbrev env : RequestEnv ℕ
env = record {
  uuid = "tx1";
  created_at = "now";
  clock = record { utcnow = "later"; milliseconds_since = λ t. none };
  round_clock = clock;
  timestamp = "now";
  json = only minting;
  link = link;
  billing = record {
    granularity = "monthly";
    pricing_tier = "basic";
    now = record { strftime = λ format. "2026-01"; isoformat = "now" };
  };
}

abbrev tenant : String → Tenant ℕ leb digest ed25519 fractions
tenant id = record {
  tenant_id = id;
  name = "A tenant";
  network = net;
  webhooks = [];
  deliveries = [];
}

abbrev tracker : BillingTracker fractions sqlite_counters
tracker = record {
  counters = [];
  ledger = record { seq = 0; entries = [] };
  sla = record { total = []; faults = [] };
}

abbrev site : Site ℕ leb digest ed25519 fractions sqlite_counters
site = record {
  tenants = ("acme", tenant "acme") ∷ ("beta", tenant "beta") ∷ [];
  tracker = some tracker;
}

abbrev calls : List (Submission ℕ leb digest ed25519 fractions sqlite_counters)
calls =
    record { env = env; tenant_id = "acme"; tx = minting }
    ∷ record { env = env; tenant_id = "gamma"; tx = minting }
    ∷ []

submit_all-isolated_example :
    (lookup "beta" (submit_all ℕ leb digest ed25519 fractions sqlite_counters calls site).tenants
      ≡ some (tenant "beta"))
    × (entries_of ℕ leb digest ed25519 fractions "beta"
          (submit_all ℕ leb digest ed25519 fractions sqlite_counters calls site).tracker
        ≡ entries_of ℕ leb digest ed25519 fractions "beta" (some tracker))
submit_all-isolated_example =
    submit_all-isolated ℕ leb digest ed25519 fractions sqlite_counters "beta" calls site
      (refl, (refl, tt))

abbrev host_env : HostEnv String (ℕ × ℕ)
host_env = record {
  uuid = "t1";
  default_threshold = majority;
  node_host = "127.0.0.1";
  private_key = λ i. "k";
  assigned = λ i. 19000 + i;
  str = λ n. "1";
}

abbrev made : TenantRegistry ℕ leb digest ed25519 fractions × Tenant ℕ leb digest ed25519 fractions
made =
    elim (create_tenant ℕ leb digest ed25519 fractions host_env "Acme" (some ("Node-1" ∷ []))
      (some ("LAPTOP" ∷ [])) none []) [ ok m ↦ m | raise e ↦ ([], tenant "none") ]

create_tenant_route-bounds_example :
    (1 ≤ 1) × (1 ≤ 10) × ((n : ℕ) → pos 1 ≡ pos n → 1 ≤ n → n ≤ 10 → 1 ≡ n)
unfolding program
create_tenant_route-bounds_example =
    create_tenant_route-bounds ℕ leb digest ed25519 fractions host_env "Acme" (pos 1)
      ("LAPTOP" ∷ []) [] made.0 ("t1", "Acme", 1) refl
