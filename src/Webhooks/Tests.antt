-- ===== src/Webhooks/Tests.antt =====
-- Two subscribers, of which one asks for faults only.
use ecn.Common.{◌≡◌, refl, true, some, [], ◌∷◌, map, raise}
use ecn.Audit.{AuditEvent}
use ecn.Samples.{minting}
use ecn.Webhooks.{WebhookRegistry, validate_events, subscribe_webhook, any_listed, dispatch}
use ecn.Common.Text.{listed}

program : Unit {0}
unfolding validate_events subscribe_webhook dispatch any_listed listed
program = tt

abbrev event : AuditEvent
event = record {
  round_id = 1;
  timestamp = "now";
  transaction = minting;
  votes = [];
  agreed_hash = some "h";
  consensus_reached = true;
  honest_nodes = "N1" ∷ [];
  faulty_nodes = [];
  invalid_sig_nodes = [];
  vote_counts = [];
}

abbrev registry : WebhookRegistry
registry =
    ("w1", record { webhook_id = "w1"; url = "http://a"; events = [] })
    ∷ ("w2", record { webhook_id = "w2"; url = "http://b"; events = "fault" ∷ [] })
    ∷ []

-- An unknown event is refused.
refused : subscribe_webhook "w3" "http://c" ("block" ∷ "fault" ∷ []) registry ≡ raise ("block" ∷ [])
unfolding program
refused = refl

sent : map (λ d. d.url) (dispatch event registry) ≡ "http://a" ∷ []
unfolding program
sent = refl
