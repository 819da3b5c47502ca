-- ===== src/Persistence/Tests.antt =====
-- Small tables.
use ecn.Common.{ℕ, String, ◌≡◌, refl, true, false, none, some, List, [], ◌∷◌, ok}
use ecn.Consensus.{ConsensusResult}
use ecn.Lifecycle.{TransactionRecord, billed, finalized}
use ecn.Samples.{blank, minting}
use ecn.Persistence.Usage.{select_periods, get_all_periods, sqlite_counters, memory_counters}
use ecn.Persistence.Periods.{count_all, get_all_periods-select_periods}
use ecn.Persistence.Transactions.{
  TxStores, load_tx_record, restart, save_all, load_tx_record-save_tx_record, select_row,
}
use ecn.Auth.{ApiKeyRegistry}
use ecn.Persistence.Json.{Json, JsonLibrary, load_rows}
use ecn.Persistence.Events.{
  StoredLog, RecordCall, record_calls, open_log, select_rows, parse_events, load_from_store,
  open_log-record_stored,
}
use ecn.Persistence.Keys.{
  KeyCall, issuing, revoking, StoredRegistry, run_calls, fresh, open_registry,
}
use ecn.Persistence.Reopened.{Knows, open_registry-run_calls}
use ecn.Persistence.Schema.{
  Migrations, Schema, get_version, bootstrap, set_version, insert_migration, sort_migrations,
  migrate, ensure_migrations,
}

program : Unit {0}
unfolding select_row open_log load_rows select_rows parse_events load_from_store get_version
program = tt

abbrev rounds : List (String × String)
rounds = ("acme", "2026-02") ∷ ("beta", "2026-01") ∷ ("acme", "2026-01") ∷ ("acme", "2026-02") ∷ []

get_all_periods-select_periods_example :
    get_all_periods "acme" (count_all memory_counters rounds)
    ≡ select_periods "acme" (count_all sqlite_counters rounds)
get_all_periods-select_periods_example = get_all_periods-select_periods rounds "acme"

abbrev tx_record : TransactionRecord ℕ
tx_record = record {
  tx_id = "tx1";
  tenant_id = "acme";
  state = finalized;
  node_count = 3;
  consensus_reached = true;
  fault_count = 1;
  duration_ms = 12;
  billed_amount = 0;
  created_at = "now";
  finalized_at = some "later";
}

abbrev billed_record : TransactionRecord ℕ
billed_record = record tx_record { state = billed; billed_amount = 15000 }

abbrev stores : TxStores ℕ
stores = record { cache = []; durable = some [] }

load_tx_record-save_tx_record_example :
    (stores' : TxStores ℕ) × (load_tx_record ℕ "tx1"
        (restart ℕ (save_all ℕ (tx_record ∷ billed_record ∷ []) stores))
      ≡ ok (stores', some billed_record))
unfolding program
load_tx_record-save_tx_record_example =
    load_tx_record-save_tx_record ℕ tx_record (billed_record ∷ []) stores [] refl refl
      (record { same_id = refl; same_tenant = refl; same_creation = refl }, tt)

-- JSON that keeps the value as it is.
abbrev plain : JsonLibrary
plain = record { Printed = Json; dumps = λ j. j; loads = λ j. some j }

abbrev round : ConsensusResult
round = record {
  agreed_hash = some "h";
  vote_counts = ("h", 1) ∷ [];
  honest_nodes = "N1" ∷ [];
  faulty_nodes = [];
  invalid_sig_nodes = [];
  total_nodes = 1;
  consensus_reached = true;
}

abbrev log : StoredLog plain
log = record { tenant_id = "acme"; events = [] }

abbrev calls : List (RecordCall plain)
calls =
    record { timestamp = "now"; tx = minting; results = []; c = round }
    ∷ record { timestamp = "later"; tx = blank; results = []; c = round }
    ∷ []

open_log-record_stored_example :
    (let recorded = record_calls plain calls log [] in
      (open_log plain "acme" recorded.1 ≡ ok recorded.0)
      × (false ≡ false
          → open_log plain "beta" recorded.1 ≡ ok (record { tenant_id = "beta"; events = [] })))
unfolding program
open_log-record_stored_example =
    open_log-record_stored plain (λ j. refl) "acme" "beta" calls log [] refl

abbrev key_calls : List (KeyCall plain)
key_calls =
    issuing "id1" "s1" "admin" "" none none none
    ∷ issuing "id2" "s2" "nobody" "" none none none
    ∷ issuing "id3" "s3" "auditor" "" none none none
    ∷ issuing "id4" "s4" "auditor" "" none (some "id3") none
    ∷ revoking "id1"
    ∷ []

abbrev running : StoredRegistry plain
running = run_calls plain key_calls (fresh plain)

open_registry-run_calls_example :
    (r : ApiKeyRegistry) × (open_registry plain running.table ≡ ok r) × Knows r running.registry
open_registry-run_calls_example = open_registry-run_calls plain key_calls (λ j. refl)

abbrev migrations : Migrations (List ℕ)
migrations = (2, λ d. 2 ∷ d) ∷ (1, λ d. 1 ∷ d) ∷ []

abbrev new_schema : Schema (List ℕ)
new_schema = record { version = none; database = [] }

migrated :
    ensure_migrations (List ℕ) migrations new_schema
    ≡ record { version = some 2; database = 2 ∷ 1 ∷ [] }
unfolding ensure_migrations migrate sort_migrations insert_migration bootstrap set_version
    get_version
migrated = refl
