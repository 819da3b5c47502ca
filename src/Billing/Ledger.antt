-- ===== src/Billing/Ledger.antt =====
-- The ledger is append-only: entries are numbered from 1 in the order of the rounds, none changes
-- later, and a round of one tenant adds nothing to what another one reads.
use ecn.Common.{
  ℕ, suc, ◌+◌, ◌*◌, String, ◌≡◌, refl, sym, ap, ◌∙◌, inl, inr, Bool, List, [], ◌∷◌, ◌++◌,
  append-nil, append_assoc, arith, Bool-cases, length, keep, length-append, Result, ok, ◌>>=◌,
}
use ecn.Consensus.{Floats}
use ecn.Persistence.Usage.{CounterStore}
use ecn.Billing.{
  current_period, Entry, LedgerTable, append_entry, load_entries, record_sla, BillingTracker,
  record_round,
}
use ecn.Billing.Totals.{
  RoundCall, price, compute_billed_amount-ok, load_entries-append_entry, is_of,
}

-- The numbers of the entries, from the first one on.
abbrev pub AreNumbered : ℕ → List Entry → Type 0
AreNumbered n [] = Unit
AreNumbered n (e ∷ entries) = (e.ledger_id ≡ n) × AreNumbered (n + 1) entries

AreNumbered-append :
    (n : ℕ) (entries : List Entry) (e : Entry)
    → AreNumbered n entries
    → e.ledger_id ≡ n + length entries
    → AreNumbered n (entries ++ e ∷ [])
AreNumbered-append n [] e numbered own = (omega (arith, own), tt)
AreNumbered-append n (x ∷ entries) e numbered own =
    (numbered.0, AreNumbered-append (n + 1) entries e numbered.1 (omega (arith, own)))

pub record IsSound (ledger : LedgerTable) : Type 0 where
  pub numbered : AreNumbered 1 ledger.entries
  pub last : ledger.seq ≡ length ledger.entries

append_entry-IsSound :
    (at tx t p : String) (n amount : ℕ) (reached : Bool) (ledger : LedgerTable)
    → IsSound ledger
    → IsSound (append_entry at tx t p n amount reached ledger)
unfolding append_entry
append_entry-IsSound at tx t p n amount reached ledger sound = record {
  numbered = AreNumbered-append 1 ledger.entries _ sound.numbered (omega (arith, sound.last));
  last = omega (
    arith,
    sound.last,
    length-append ledger.entries (
        record {
          ledger_id = ledger.seq + 1;
          tx_id = tx;
          tenant_id = t;
          period = p;
          node_round_count = n;
          billed_amount = amount;
          consensus_reached = reached;
          recorded_at = at;
        }
        ∷ []),
  );
}

module _ (f : Floats) (store : CounterStore) where
  -- Rounds in their order, after those that a tracker has.
  abbrev pub record_more :
      List RoundCall → BillingTracker f store → Result String (BillingTracker f store)
  record_more [] b = ok b
  record_more (c ∷ calls) b = do
    recorded ← record_round f store c.env c.tenant_id c.tx_id c.node_count c.reached b
    record_more calls recorded.0

  -- What a tracker's ledger becomes.
  pub record Grows (t : String) (calls : List RoundCall) (b b' : BillingTracker f store)
      : Type 0 where
    pub kept :
        (more : List Entry) × (b'.ledger.entries ≡ b.ledger.entries ++ more)
        × (length more ≡ length calls)
    pub sound : IsSound b'.ledger
    pub isolated : keep (is_of t) calls ≡ [] → load_entries t b'.ledger ≡ load_entries t b.ledger

  -- On a ledger whose entries are numbered from 1, any rounds are recorded without an exception: they
  -- add one entry each after those that there were, which stay as they are, the entries are numbered
  -- from 1 again, and a tenant without a round among them reads what it read before.
  pub record_more-Grows :
      (t : String) (calls : List RoundCall) (b : BillingTracker f store)
      → IsSound b.ledger
      → (b' : BillingTracker f store) × (record_more calls b ≡ ok b') × Grows t calls b b'
  unfolding record_round append_entry
  record_more-Grows t [] b sound = (
    b,
    refl,
    record {
      kept = ([], sym (append-nil b.ledger.entries), refl);
      sound = sound;
      isolated = λ e. refl;
    },
  )
  record_more-Grows t (c ∷ calls) b sound =
      let period = current_period c.env.granularity c.env.now in
      let amount = c.node_count * price f c.env in
      let entry : Entry = record {
        ledger_id = b.ledger.seq + 1;
        tx_id = c.tx_id;
        tenant_id = c.tenant_id;
        period = period;
        node_round_count = c.node_count;
        billed_amount = amount;
        consensus_reached = c.reached;
        recorded_at = c.env.now.isoformat;
      } in
      let ledger =
        append_entry c.env.now.isoformat c.tx_id c.tenant_id period c.node_count amount c.reached
          b.ledger in
      let b1 : BillingTracker f store = record {
        counters = store.count_up c.tenant_id period b.counters;
        ledger = ledger;
        sla = record_sla c.tenant_id c.reached b.sla;
      } in
      let (b', ran, grown) = record_more-Grows t calls b1 (
        append_entry-IsSound c.env.now.isoformat c.tx_id c.tenant_id period c.node_count amount
          c.reached b.ledger sound) in
      let (more, extended, counted) = grown.kept in
      (
        b',
        rw (compute_billed_amount-ok f c.env c.node_count, record_round) ran,
        record {
          kept = (
            entry ∷ more,
            extended ∙ append_assoc b.ledger.entries (entry ∷ []) more,
            ap suc counted,
          );
          sound = grown.sound;
          isolated = λ e. elim (Bool-cases (is_of t c)) [
            | inl own ↦ absurd (ground (arith, e, own))
            | inr other ↦
                grown.isolated (ground (arith, e, other))
                ∙ load_entries-append_entry entry b.ledger t
                ∙ rw other refl
          ];
        },
      )
