-- ===== src/Webhooks.antt =====
-- The webhooks of ecn/api.py: subscriptions and which of them a round is sent to. The HTTP client is
-- left out: a delivery is what is posted, and a failed one changes nothing.
mod Tests
use ecn.Common.{
  String, ◌≡◌, refl, ◌∙◌, inl, inr, Bool, true, false, ◌&&◌, ◌||◌, not, none, some, List, [], ◌∷◌,
  map, arith, ◌==◌, if◌then◌else◌, Bool-cases, length, keep, Result, ok, ◌>>=◌, ◌>>◌, guard,
}
use ecn.Common.Text.{str_eq, eq_iff, listed}
use ecn.Common.Dict.{Dict, lookup, contains, insert, erase, values, lookup-insert, lookup-erase}
use ecn.Audit.{AuditEvent, has_fault}

pub record WebhookSubscription : Type 0 where
  pub webhook_id : String
  pub url : String
  pub events : List String

-- `WebhookRegistry._subscriptions`
abbrev pub WebhookRegistry : Type 0
WebhookRegistry = Dict WebhookSubscription

-- `_WEBHOOK_EVENTS`
abbrev pub webhook_events : List String
webhook_events = "transaction" ∷ "fault" ∷ []

-- `set(self.events) - _WEBHOOK_EVENTS`
abbrev pub unknown_events : List String → List String
unknown_events = keep (λ e. not (listed e webhook_events))

-- `validate_events`: the error is the unknown events of the `ValueError`.
unfoldable pub validate_events : List String → Result (List String) (Unit {0})
validate_events events = guard (length (unknown_events events) == 0) (unknown_events events)

-- `subscribe`, with a fresh `uuid4`
unfoldable pub subscribe :
    String → String → List String → WebhookRegistry → WebhookRegistry × WebhookSubscription
subscribe uuid url events registry =
    let sub : WebhookSubscription = record { webhook_id = uuid; url = url; events = events } in
    (insert uuid sub registry, sub)

-- `subscribe_webhook`, which answers 422 to unknown events
unfoldable pub subscribe_webhook :
    String
    → String
    → List String
    → WebhookRegistry
    → Result (List String) (WebhookRegistry × WebhookSubscription)
subscribe_webhook uuid url events registry = do
  validate_events events
  ok (subscribe uuid url events registry)

-- `unsubscribe`
unfoldable pub unsubscribe : String → WebhookRegistry → WebhookRegistry × Bool
unsubscribe webhook_id registry =
    if contains webhook_id registry then (erase webhook_id registry, true) else (registry, false)

-- The event types of a round
abbrev pub triggered : AuditEvent → List String
triggered e = if has_fault e then "transaction" ∷ "fault" ∷ [] else "transaction" ∷ []

-- `any(t in sub.events for t in triggered)`
unfoldable pub any_listed : List String → List String → Bool
any_listed [] events = false
any_listed (t ∷ types) events = listed t events || any_listed types events

abbrev pub wants : AuditEvent → WebhookSubscription → Bool
wants e sub = length sub.events == 0 || any_listed (triggered e) sub.events

-- What is posted to one URL
pub record Delivery : Type 0 where
  pub url : String
  pub webhook_id : String
  pub event_types : List String
  pub event : AuditEvent

-- `dispatch`: the posts, in their order
unfoldable pub dispatch : AuditEvent → WebhookRegistry → List Delivery
dispatch e registry =
    map
      (λ sub. record {
        url = sub.url;
        webhook_id = sub.webhook_id;
        event_types = triggered e;
        event = e;
      })
      (keep (wants e) (values registry))

-- Every subscription is filed under its identifier, once.
abbrev pub IsFiled : WebhookRegistry → Type 0
IsFiled [] = Unit
IsFiled ((id, sub) ∷ registry) =
    (sub.webhook_id ≡ id) × (lookup id registry ≡ none) × IsFiled registry

-- The filter of a subscription, written out.
abbrev pub asks_for : AuditEvent → WebhookSubscription → Bool
asks_for e sub =
    length sub.events == 0
    || listed "transaction" sub.events
    || (has_fault e && listed "fault" sub.events)

wants-asks_for : (e : AuditEvent) (sub : WebhookSubscription) → wants e sub ≡ asks_for e sub
unfolding any_listed
wants-asks_for e sub = ground arith

-- A round is sent to a subscription exactly when it is there and asks for all events, or for
-- transactions, or for faults in a round with a fault.
pub dispatch-wants :
    (e : AuditEvent) (id : String) (registry : WebhookRegistry)
    → IsFiled registry
    → listed id (map (λ d. d.webhook_id) (dispatch e registry))
      ≡ (elim (lookup id registry) [ none ↦ false | some sub ↦ asks_for e sub ])
unfolding dispatch listed
dispatch-wants e id [] filed = refl
dispatch-wants e id ((j, sub) ∷ registry) filed =
    let ih = dispatch-wants e id registry filed.2 in
    elim (Bool-cases (wants e sub)) [
      | inl w ↦
          rw (w, dispatch)
            (ground (arith, ih, filed.0, filed.1, eq_iff id j, w, wants-asks_for e sub))
      | inr w ↦
          rw (w, dispatch)
            (ground (arith, ih, filed.0, filed.1, eq_iff id j, w, wants-asks_for e sub))
    ]

insert-IsFiled :
    (id : String) (sub : WebhookSubscription) (registry : WebhookRegistry)
    → sub.webhook_id ≡ id
    → IsFiled registry
    → IsFiled (insert id sub registry)
unfolding insert
insert-IsFiled id sub [] own filed = (own, refl, tt)
insert-IsFiled id sub ((j, x) ∷ registry) own filed = elim (Bool-cases (str_eq id j)) [
  | inl e ↦ rw (e, insert) (own ∙ (eq_iff id j).0 e, filed.1, filed.2)
  | inr e ↦
      rw (e, insert)
        (
          filed.0,
          lookup-insert j id sub registry ∙ ground (arith, e, filed.1, eq_iff j id, eq_iff id j),
          insert-IsFiled id sub registry own filed.2,
        )
]

-- Subscribing keeps every subscription filed under its identifier.
pub subscribe-IsFiled :
    (uuid url : String) (events : List String) (registry : WebhookRegistry)
    → IsFiled registry
    → IsFiled (subscribe uuid url events registry).0
unfolding subscribe
subscribe-IsFiled uuid url events registry filed =
    insert-IsFiled uuid (record { webhook_id = uuid; url = url; events = events }) registry refl
      filed

erase-IsFiled :
    (id : String) (registry : WebhookRegistry) → IsFiled registry → IsFiled (erase id registry)
unfolding erase
erase-IsFiled id [] filed = tt
erase-IsFiled id ((j, x) ∷ registry) filed = elim (Bool-cases (str_eq id j)) [
  | inl e ↦ rw (e, erase) (erase-IsFiled id registry filed.2)
  | inr e ↦
      rw (e, erase)
        (
          filed.0,
          lookup-erase j id registry ∙ ground (arith, e, filed.1, eq_iff j id, eq_iff id j),
          erase-IsFiled id registry filed.2,
        )
]

-- So does unsubscribing.
pub unsubscribe-IsFiled :
    (id : String) (registry : WebhookRegistry)
    → IsFiled registry
    → IsFiled (unsubscribe id registry).0
unfolding unsubscribe
unsubscribe-IsFiled id registry filed = elim (Bool-cases (contains id registry)) [
  | inl e ↦ rw (e, unsubscribe) (erase-IsFiled id registry filed)
  | inr e ↦ rw (e, unsubscribe) filed
]
