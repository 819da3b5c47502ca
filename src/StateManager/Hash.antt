-- ===== src/StateManager/Hash.antt =====
-- The state hash is a function of what the state says, not of the order of its dictionaries.
use ecn.Common.{String, ◌≡◌, refl, ap, Bool, true, false, Option, none, some, [], map}
use ecn.Common.Int.{ℤ}
use ecn.Common.Dict.{Dict, lookup, sort_items-ext}
use ecn.World.{State}
use ecn.Merkle.{merkle_root}
use ecn.StateManager.{Digest, balances_of, optional_sort, sort_keys, state_hash, merkle_hash, leaf}

-- Two dictionaries, or none, with the same entries in whatever order.
abbrev pub SameMapping : {V : Type 0} → Option (Dict V) → Option (Dict V) → Type 0
SameMapping none none = Unit
SameMapping (some d) (some e) = (k : String) → lookup k d ≡ lookup k e
SameMapping _ _ = ⊥

optional_sort-ext :
    {V : Type 0} (o p : Option (Dict V)) → SameMapping o p → optional_sort o ≡ optional_sort p
optional_sort-ext none none h = refl
optional_sort-ext (some d) (some e) h = ap some (sort_items-ext d e h)
optional_sort-ext none (some e) h = absurd h
optional_sort-ext (some d) none h = absurd h

sort_balances-ext :
    (o p : Option (Dict ℤ))
    → SameMapping o p
    → (k : String)
    → lookup k (elim o [ none ↦ [] | some d ↦ d ]) ≡ lookup k (elim p [ none ↦ [] | some d ↦ d ])
sort_balances-ext none none h k = refl
sort_balances-ext (some d) (some e) h k = h k
sort_balances-ext none (some e) h k = absurd h
sort_balances-ext (some d) none h k = absurd h

module _ (digest : Digest) where
  -- Two states that hold the same balances and the same products have the same hash, in both
  -- modes, whatever the order in which their dictionaries were filled.
  pub state_hash-ext :
      (use_merkle : Bool) (s t : State)
      → SameMapping s.balances t.balances
      → SameMapping s.products t.products
      → state_hash digest use_merkle s ≡ state_hash digest use_merkle t
  unfolding state_hash merkle_hash sort_keys
  state_hash-ext true s t hb hp =
      ap (λ d. merkle_root digest.sha256 (map (leaf digest) d))
        (sort_items-ext (balances_of s) (balances_of t)
          (sort_balances-ext s.balances t.balances hb))
  state_hash-ext false s t hb hp =
      rw (optional_sort-ext s.balances t.balances hb, optional_sort-ext s.products t.products hp)
