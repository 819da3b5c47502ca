-- ===== src/Audit.antt =====
-- ecn/audit.py: the append-only log of consensus rounds, in memory. The clock is an argument of
-- `record`, already printed as a timestamp; the log has no durable store (`store=None`).
pub mod Log
mod Tests
use ecn.Common.{
  ℕ, zero, suc, ◌+◌, String, Bool, not, Option, none, some, List, [], ◌∷◌, ◌++◌, map, ltb,
  if◌then◌else◌, length, get_elem?, take, drop, keep,
}
use ecn.Common.Dict.{Dict, get_or, insert}
use ecn.Common.Text.{listed}
use ecn.World.{Transaction}
use ecn.Consensus.{NodeResult, ConsensusResult}

-- `NodeVote.status`
pub data VoteStatus : Type 0 where
  honest hash_fault sig_fault : VoteStatus

pub record NodeVote : Type 0 where
  pub node_id : String
  pub state_hash : String
  pub signature : Option String
  pub status : VoteStatus

pub record AuditEvent : Type 0 where
  pub round_id : ℕ
  pub timestamp : String
  pub transaction : Transaction
  pub votes : List NodeVote
  pub agreed_hash : Option String
  pub consensus_reached : Bool
  pub honest_nodes : List String
  pub faulty_nodes : List String
  pub invalid_sig_nodes : List String
  pub vote_counts : Dict ℕ

-- `AuditLog._events`
abbrev pub AuditLog : Type 0
AuditLog = List AuditEvent

abbrev pub has_fault : AuditEvent → Bool
has_fault e = ltb 0 (length e.faulty_nodes)

unfoldable pub vote_status : ConsensusResult → NodeResult → VoteStatus
vote_status c r =
    if listed r.node_id c.invalid_sig_nodes
    then sig_fault
    else (if listed r.node_id c.faulty_nodes then hash_fault else honest)

abbrev pub node_vote : ConsensusResult → NodeResult → NodeVote
node_vote c r = record {
  node_id = r.node_id;
  state_hash = r.state_hash;
  signature = r.signature;
  status = vote_status c r;
}

-- The event of a round, and the log with it.
unfoldable pub new_event :
    AuditLog → String → Transaction → List NodeResult → ConsensusResult → AuditEvent
new_event log timestamp transaction node_results c = record {
  round_id = length log + 1;
  timestamp = timestamp;
  transaction = transaction;
  votes = map (node_vote c) node_results;
  agreed_hash = c.agreed_hash;
  consensus_reached = c.consensus_reached;
  honest_nodes = c.honest_nodes;
  faulty_nodes = c.faulty_nodes;
  invalid_sig_nodes = c.invalid_sig_nodes;
  vote_counts = c.vote_counts;
}

-- `AuditLog.record`
unfoldable pub record_round :
    AuditLog → String → Transaction → List NodeResult → ConsensusResult → AuditLog × AuditEvent
record_round log timestamp transaction node_results c =
    let event = new_event log timestamp transaction node_results c in (log ++ event ∷ [], event)

-- `get_events`, for an offset and a limit that are not negative
unfoldable pub get_events : Option ℕ → ℕ → AuditLog → List AuditEvent
get_events none offset log = drop offset log
get_events (some limit) offset log = take limit (drop offset log)

unfoldable pub get_fault_events : AuditLog → List AuditEvent
get_fault_events log = keep has_fault log

-- `get_event`, for a round that is not negative: the index of round 0 is -1, which is out of range.
unfoldable pub get_event : ℕ → AuditLog → Option AuditEvent
get_event zero log = none
get_event (suc idx) log = if ltb idx (length log) then get_elem? log idx else none

-- `all_faulty`, and the counts of `fault_counts`, from the last name to the first: the order of the
-- keys shows in ties of `top_faulty_nodes` only.
unfoldable pub all_faulty : AuditLog → List String
all_faulty [] = []
all_faulty (e ∷ log) = e.faulty_nodes ++ all_faulty log

unfoldable pub count_faults : List String → Dict ℕ
count_faults [] = []
count_faults (n ∷ names) =
    let counts = count_faults names in insert n (get_or n counts 0 + 1) counts

pub record Summary : Type 0 where
  pub total_rounds : ℕ
  pub fault_rounds : ℕ
  pub consensus_failure_rounds : ℕ
  pub fault_counts : Dict ℕ

-- `summary`, without the rounded quotient `fault_rate` and the sorting by count
unfoldable pub summary : AuditLog → Summary
summary log = record {
  total_rounds = length log;
  fault_rounds = length (keep has_fault log);
  consensus_failure_rounds = length (keep (λ e. not e.consensus_reached) log);
  fault_counts = count_faults (all_faulty log);
}
