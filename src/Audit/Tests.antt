-- ===== src/Audit/Tests.antt =====
-- A log of two rounds, at concrete inputs.
use ecn.Common.{ℕ, ◌≤◌, ◌≡◌, refl, false, some, List, [], ◌∷◌, map, length}
use ecn.Common.Dict.{insert}
use ecn.Common.Text.{listed}
use ecn.Consensus.{NodeResult, ConsensusResult}
use ecn.Audit.{
  AuditLog, honest, hash_fault, vote_status, new_event, record_round, get_event, get_events,
  get_fault_events, all_faulty, count_faults, summary,
}
use ecn.Audit.Log.{IsNumbered, record_round-get_event}
use ecn.Samples.{blank, vote_of}

program : Unit {0}
unfolding vote_status new_event record_round get_event get_events get_fault_events all_faulty
    count_faults summary insert listed
program = tt

abbrev results : List NodeResult
results = vote_of "N1" "aa" ∷ vote_of "N2" "bb" ∷ []

abbrev outcome : ConsensusResult
outcome = record {
  agreed_hash = some "aa";
  vote_counts = ("aa", 1) ∷ ("bb", 1) ∷ [];
  honest_nodes = "N1" ∷ [];
  faulty_nodes = "N2" ∷ [];
  invalid_sig_nodes = [];
  total_nodes = 2;
  consensus_reached = false;
}

abbrev one_round : AuditLog
one_round = (record_round [] "noon" blank results outcome).0

statuses :
    map (λ v. v.status) (new_event [] "noon" blank results outcome).votes ≡ honest ∷ hash_fault ∷ []
unfolding program
statuses = refl

one-IsNumbered : IsNumbered 0 one_round
unfolding program
one-IsNumbered = (refl, tt)

record_round-get_event_example :
    (let recorded = record_round one_round "one" blank results outcome in
      IsNumbered 0 recorded.0
      × (get_event recorded.1.round_id recorded.0 ≡ some recorded.1)
      × ((k : ℕ) → k ≤ length one_round → get_event k recorded.0 ≡ get_event k one_round))
record_round-get_event_example =
    record_round-get_event one_round "one" blank results outcome one-IsNumbered

abbrev first : ℕ
first = 1
