-- ===== src/Persistence/EventJson.antt =====
-- The dictionary of an audit event: `to_dict` of ecn/audit.py, and the event that `_load_from_store`
-- builds of one, field by field.
use ecn.Common.{String, ◌≡◌, refl, false, List, [], ◌∷◌, Result, ok, raise, ◌>>=◌}
use ecn.Audit.{VoteStatus, honest, hash_fault, sig_fault, NodeVote, AuditEvent}
use ecn.Common.Text.{str_eq}
use ecn.Common.{if◌then◌else◌}
use ecn.Persistence.Json.{
  bool, number, text, transaction, array, object, Items, no_items, item, Fields, no_fields, field,
  LoadError, wrong_type, null, get, get_key, get_default, fields_of, items_of, bool_of, number_of,
  text_of, transaction_of, of_optional, optional_of, of_texts, texts_of, of_counts, counts_of,
  optional_of-of_optional, texts_of-of_texts, counts_of-of_counts,
}

abbrev pub status_text : VoteStatus → String
status_text honest = "honest"
status_text hash_fault = "hash_fault"
status_text sig_fault = "sig_fault"

abbrev pub status_of : String → Result LoadError VoteStatus
status_of s =
    if str_eq s "honest"
    then ok honest
    else (if str_eq s "hash_fault"
        then ok hash_fault
        else (if str_eq s "sig_fault" then ok sig_fault else raise wrong_type))

-- One vote of `to_dict`
abbrev pub vote_dict : NodeVote → Fields
vote_dict v = field "node_id" (text v.node_id) (
    field "state_hash" (text v.state_hash) (
      field "signature" (of_optional v.signature)
        (field "status" (text (status_text v.status)) no_fields)))

unfoldable pub of_votes : List NodeVote → Items
of_votes [] = no_items
of_votes (v ∷ votes) = item (object (vote_dict v)) (of_votes votes)

-- `AuditEvent.to_dict`
unfoldable pub to_dict : AuditEvent → Fields
to_dict e = field "round_id" (number e.round_id) (
    field "timestamp" (text e.timestamp) (
      field "transaction" (transaction e.transaction) (
        field "votes" (array (of_votes e.votes)) (
          field "agreed_hash" (of_optional e.agreed_hash) (
            field "consensus_reached" (bool e.consensus_reached) (
              field "honest_nodes" (array (of_texts e.honest_nodes)) (
                field "faulty_nodes" (array (of_texts e.faulty_nodes)) (
                  field "invalid_sig_nodes" (array (of_texts e.invalid_sig_nodes))
                    (field "vote_counts" (object (of_counts e.vote_counts)) no_fields)))))))))

-- `NodeVote(...)` of `_load_from_store`
unfoldable pub vote_of : Fields → Result LoadError NodeVote
vote_of v = do
  node_id_json ← get_key "node_id" v
  node_id ← text_of node_id_json
  state_hash_json ← get_key "state_hash" v
  state_hash ← text_of state_hash_json
  signature ← optional_of (get_default "signature" v null)
  status_json ← get_key "status" v
  status_name ← text_of status_json
  status ← status_of status_name
  ok (record { node_id = node_id; state_hash = state_hash; signature = signature; status = status })

unfoldable pub votes_of : Items → Result LoadError (List NodeVote)
votes_of no_items = ok []
votes_of (item v items) = do
  d ← fields_of v
  vote ← vote_of d
  votes ← votes_of items
  ok (vote ∷ votes)

-- `AuditEvent(...)` of `_load_from_store`
unfoldable pub event_of : Fields → Result LoadError AuditEvent
event_of d = do
  vote_items ← items_of (get_default "votes" d (array no_items))
  votes ← votes_of vote_items
  round_id_json ← get_key "round_id" d
  round_id ← number_of round_id_json
  timestamp_json ← get_key "timestamp" d
  timestamp ← text_of timestamp_json
  tx_json ← get_key "transaction" d
  tx ← transaction_of tx_json
  agreed_hash ← optional_of (get_default "agreed_hash" d null)
  consensus_reached ← bool_of (get_default "consensus_reached" d (bool false))
  honest_items ← items_of (get_default "honest_nodes" d (array no_items))
  honest_nodes ← texts_of honest_items
  faulty_items ← items_of (get_default "faulty_nodes" d (array no_items))
  faulty_nodes ← texts_of faulty_items
  invalid_items ← items_of (get_default "invalid_sig_nodes" d (array no_items))
  invalid_sig_nodes ← texts_of invalid_items
  count_fields ← fields_of (get_default "vote_counts" d (object no_fields))
  vote_counts ← counts_of count_fields
  ok (record {
    round_id = round_id;
    timestamp = timestamp;
    transaction = tx;
    votes = votes;
    agreed_hash = agreed_hash;
    consensus_reached = consensus_reached;
    honest_nodes = honest_nodes;
    faulty_nodes = faulty_nodes;
    invalid_sig_nodes = invalid_sig_nodes;
    vote_counts = vote_counts;
  })

status_of-status_text : (s : VoteStatus) → status_of (status_text s) ≡ ok s
status_of-status_text honest = refl
status_of-status_text hash_fault = refl
status_of-status_text sig_fault = refl

vote_of-vote_dict : (v : NodeVote) → vote_of (vote_dict v) ≡ ok v
unfolding vote_of get
vote_of-vote_dict v =
    rw (optional_of-of_optional v.signature, status_of-status_text v.status, vote_of) refl

votes_of-of_votes : (votes : List NodeVote) → votes_of (of_votes votes) ≡ ok votes
unfolding votes_of of_votes
votes_of-of_votes [] = refl
votes_of-of_votes (v ∷ votes) = rw (vote_of-vote_dict v, votes_of-of_votes votes, votes_of) refl

-- What `to_dict` writes of an event is read back as that event.
pub event_of-to_dict : (e : AuditEvent) → event_of (to_dict e) ≡ ok e
unfolding event_of to_dict get
event_of-to_dict e =
    rw
      (
        votes_of-of_votes e.votes,
        optional_of-of_optional e.agreed_hash,
        texts_of-of_texts e.honest_nodes,
        texts_of-of_texts e.faulty_nodes,
        texts_of-of_texts e.invalid_sig_nodes,
        counts_of-of_counts e.vote_counts,
        event_of,
      )
      refl
