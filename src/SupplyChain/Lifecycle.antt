-- ===== src/SupplyChain/Lifecycle.antt =====
-- The life cycle of one product: what each accepted transaction may do to it, and the invariant
-- that every product keeps.
use ecn.Common.{String, ◌≡◌, refl, ◌≢◌, inl, inr, Option, none, some, arith, Bool-cases, need, ok}
use ecn.Common.Dict.{lookup, lookup-insert}
use ecn.Common.Text.{str_eq, eq_iff}
use ecn.World.{
  Status, in_transit, at_customs, quarantined, delivered, Product, State, Transaction, Handler,
}
use ecn.SupplyChain.{
  products_of, handle_ship, handle_receive, handle_inspect, handle_quarantine, handle_release,
  add_check, put_product, flag,
}
use ecn.SupplyChain.Checks.{IsSortedList, add_check-IsSortedList}

-- The arrows of the life cycle, by status. An inspection moves nothing.
pub data Step : Status → Status → Type 0 where
  ship : (a : Status) → a ≢ in_transit → a ≢ quarantined → Step a in_transit
  receive_customs : Step in_transit at_customs
  receive : Step in_transit delivered
  inspect : (a : Status) → Step a a
  quarantine : (a : Status) → a ≢ quarantined → Step a quarantined
  release : Step quarantined at_customs

-- A reason is recorded exactly on the quarantined products, and the checks are in order, none
-- twice.
pub record IsConsistent (p : Product) : Type 0 where
  pub reason_if : p.status ≡ quarantined → p.quarantine_reason ≢ none
  pub reason_only_if : p.quarantine_reason ≢ none → p.status ≡ quarantined
  pub ordered : IsSortedList p.checks

-- What a transaction may do to the product behind a key: it neither appears nor goes away, it
-- makes one step, and it stays consistent.
abbrev pub Advances : Option Product → Option Product → Type 0
Advances none none = Unit
Advances (some p) (some q) = Step p.status q.status × (IsConsistent p → IsConsistent q)
Advances _ _ = ⊥

abbrev pub HandlerAdvances : Handler → Type 0
HandlerAdvances h =
    (s s' : State) (tx : Transaction) (k : String)
    → h s tx ≡ ok s'
    → Advances (lookup k (products_of s)) (lookup k (products_of s'))

pub Advances-refl : (o : Option Product) → Advances o o
Advances-refl none = tt
Advances-refl (some p) = (inspect p.status, λ c. c)

-- Setting one product advances every key, if it advances that one.
put_product-Advances :
    (s : State) (id k : String) (p q : Product)
    → lookup id (products_of s) ≡ some p
    → Advances (some p) (some q)
    → Advances (lookup k (products_of s)) (lookup k (products_of (put_product id q s)))
put_product-Advances s id k p q e adv = elim (Bool-cases (str_eq k id)) [
  | inl same ↦ rw (lookup-insert, same, (eq_iff k id).0 same, e) adv
  | inr other ↦ rw (lookup-insert, other) (Advances-refl (lookup k (products_of s)))
]

pub ship-Advances : HandlerAdvances handle_ship
unfolding handle_ship
ship-Advances s s' tx k h =
    let (id, ei) = need tx.product_id (λ e. ground arith) in
    let (d, ed) = need tx.destination (λ e. ground arith) in
    let (sh, es) = need tx.shipper (λ e. ground arith) in
    let (p, ep) = need (lookup id (products_of s)) (λ e. ground arith) in
    let q : Product = record p { status = in_transit; location = d; owner = sh } in
    let e : s' ≡ put_product id q s = ground arith in
    let free : p.status ≢ quarantined = λ e. ground arith in
    rw e (
      put_product-Advances s id k p q ep (
        ship p.status (λ e. ground arith) free,
        λ c. record {
          reason_if = λ e. cc;
          reason_only_if = λ r. absurd (free (c.reason_only_if r));
          ordered = c.ordered;
        },
      ))

pub receive-Advances : HandlerAdvances handle_receive
unfolding handle_receive
receive-Advances s s' tx k h =
    let (id, ei) = need tx.product_id (λ e. ground arith) in
    let (r, er) = need tx.receiver (λ e. ground arith) in
    let (p, ep) = need (lookup id (products_of s)) (λ e. ground arith) in
    let moving : p.status ≡ in_transit = ground arith in
    elim (Bool-cases (flag tx.at_customs)) [
      | inl customs ↦
          let q : Product = record p { status = at_customs; owner = r } in
          let e : s' ≡ put_product id q s = ground arith in
          rw e (
            put_product-Advances s id k p q ep (
              rw moving receive_customs,
              λ c. record {
                reason_if = λ e. cc;
                reason_only_if = λ r. cc (c.reason_only_if r);
                ordered = c.ordered;
              },
            ))
      | inr direct ↦
          let q : Product = record p { status = delivered; owner = r } in
          let e : s' ≡ put_product id q s = ground arith in
          rw e (
            put_product-Advances s id k p q ep (
              rw moving receive,
              λ c. record {
                reason_if = λ e. cc;
                reason_only_if = λ r. cc (c.reason_only_if r);
                ordered = c.ordered;
              },
            ))
    ]

pub inspect-Advances : HandlerAdvances handle_inspect
unfolding handle_inspect
inspect-Advances s s' tx k h =
    let (id, ei) = need tx.product_id (λ e. ground arith) in
    let (n, en) = need tx.check_name (λ e. ground arith) in
    let (p, ep) = need (lookup id (products_of s)) (λ e. ground arith) in
    let q : Product = record p { checks = add_check n p.checks } in
    let e : s' ≡ put_product id q s = ground arith in
    rw e (
      put_product-Advances s id k p q ep (
        inspect p.status,
        λ c. record {
          reason_if = c.reason_if;
          reason_only_if = c.reason_only_if;
          ordered = add_check-IsSortedList n p.checks c.ordered;
        },
      ))

pub quarantine-Advances : HandlerAdvances handle_quarantine
unfolding handle_quarantine
quarantine-Advances s s' tx k h =
    let (id, ei) = need tx.product_id (λ e. ground arith) in
    let (r, er) = need tx.reason (λ e. ground arith) in
    let (p, ep) = need (lookup id (products_of s)) (λ e. ground arith) in
    let q : Product = record p { status = quarantined; quarantine_reason = some r } in
    let e : s' ≡ put_product id q s = ground arith in
    rw e (
      put_product-Advances s id k p q ep (
        quarantine p.status (λ e. ground arith),
        λ c. record { reason_if = λ e. (λ n. cc); reason_only_if = λ r. refl; ordered = c.ordered },
      ))

pub release-Advances : HandlerAdvances handle_release
unfolding handle_release
release-Advances s s' tx k h =
    let (id, ei) = need tx.product_id (λ e. ground arith) in
    let (p, ep) = need (lookup id (products_of s)) (λ e. ground arith) in
    let held : p.status ≡ quarantined = ground arith in
    let q : Product = record p { status = at_customs; quarantine_reason = none } in
    let e : s' ≡ put_product id q s = ground arith in
    rw e (
      put_product-Advances s id k p q ep (
        rw held release,
        λ c. record {
          reason_if = λ e. cc;
          reason_only_if = λ r. absurd (r refl);
          ordered = c.ordered;
        },
      ))
