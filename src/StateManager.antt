-- ===== src/StateManager.antt =====
-- ecn/state_manager.py: the state of a node, its hash, its execution trace and the diff of a
-- transaction. `hashlib.sha256` as a hex digest and `json.dumps` of a state whose keys are sorted
-- are parameters; the sorting is here. A call that raises leaves the manager as it was, since
-- `execute` is called before any attribute is set.
pub mod Trace
pub mod Hash
pub mod Diff
mod Tests
use ecn.Common.{
  ℕ, zero, suc, ◌/◌, ◌%◌, String, Bool, Option, none, some, List, [], ◌∷◌, ◌++◌, map, ltb, ◌==◌,
  if◌then◌else◌, Result, ok, ◌>>=◌,
}
use ecn.Common.Int.{ℤ, pos, negsuc, eqb_ℤ}
use ecn.Common.Dict.{Dict, get_or, keys, sort_items}
use Prim.Native.String.{◌++◌ as ◌⁀◌}
use ecn.World.{State, Transaction, Error}
use ecn.Execution.{run_transaction}
use ecn.Merkle.{merkle_root}

pub record Digest : Type 0 where
  pub sha256 : String → String
  pub dumps : State → String

-- One decimal digit of `str(n)`, and `str(n)` itself.
abbrev digit : ℕ → String
digit n =
    if n == 0
    then "0"
    else (if n == 1
        then "1"
        else (if n == 2
            then "2"
            else (if n == 3
                then "3"
                else (if n == 4
                    then "4"
                    else (if n == 5
                        then "5"
                        else (if n == 6
                            then "6"
                            else (if n == 7 then "7" else (if n == 8 then "8" else "9"))))))))

show_digits : ℕ → ℕ → String
show_digits zero n = digit n
show_digits (suc fuel) n =
    let more = show_digits fuel (n / 10) in if ltb n 10 then digit n else more ⁀ digit (n % 10)

unfoldable pub show_ℤ : ℤ → String
unfolding show_digits
show_ℤ (pos n) = show_digits n n
show_ℤ (negsuc n) = "-" ⁀ show_digits (suc n) (suc n)

abbrev optional_sort {ℓ} : {V : Type ℓ} → Option (Dict V) → Option (Dict V)
optional_sort none = none
optional_sort (some d) = some (sort_items d)

-- `sort_keys=True`
unfoldable pub sort_keys : State → State
sort_keys state = record {
  balances = optional_sort state.balances;
  products = optional_sort state.products;
}

-- `state.get("balances", {})`
abbrev pub balances_of : State → Dict ℤ
balances_of state = elim state.balances [ none ↦ [] | some balances ↦ balances ]

pub record TraceEntry : Type 0 where
  pub tx : Transaction
  pub old_hash : String
  pub new_hash : String
  pub diff : Dict (ℤ × ℤ)

pub record StateManager : Type 0 where
  pub state : State
  pub use_merkle : Bool
  pub trace : List TraceEntry

abbrev empty_state : State
empty_state = record { balances = some []; products = none }

-- `initial_state`, or the empty default
abbrev pub or_empty : Option State → State
or_empty none = empty_state
or_empty (some state) = state

unfoldable pub init : Option State → Bool → StateManager
init initial_state use_merkle = record {
  state = or_empty initial_state;
  use_merkle = use_merkle;
  trace = [];
}

unfoldable pub reset : Option State → StateManager → StateManager
reset new_state m = record m { state = or_empty new_state; trace = [] }

-- The loop of `_compute_diff` over the sorted accounts.
unfoldable pub diff_accounts : Dict ℤ → Dict ℤ → List String → Dict (ℤ × ℤ)
diff_accounts old new [] = []
diff_accounts old new (acc ∷ accounts) =
    if eqb_ℤ (get_or acc old (pos 0)) (get_or acc new (pos 0))
    then diff_accounts old new accounts
    else (acc, (get_or acc old (pos 0), get_or acc new (pos 0))) ∷ diff_accounts old new accounts

-- `sorted(set(old_balances) | set(new_balances))`: the union as a dictionary, sorted.
unfoldable pub compute_diff : State → State → Dict (ℤ × ℤ)
compute_diff old_state new_state =
    let old = balances_of old_state in
    let new = balances_of new_state in diff_accounts old new (keys (sort_items (old ++ new)))

module _ (digest : Digest) where
  open digest use {sha256, dumps}

  -- `_sha256(f"{account}:{balance}")`
  abbrev pub leaf : String × ℤ → String
  leaf (account, balance) = sha256 (account ⁀ ":" ⁀ show_ℤ balance)

  unfoldable pub merkle_hash : State → String
  merkle_hash state = merkle_root sha256 (map leaf (sort_items (balances_of state)))

  -- `compute_state_hash`, on the state and the flag
  unfoldable pub state_hash : Bool → State → String
  state_hash use_merkle state =
      if use_merkle then merkle_hash state else sha256 (dumps (sort_keys state))

  abbrev pub compute_state_hash : StateManager → String
  compute_state_hash m = state_hash m.use_merkle m.state

  unfoldable pub apply_transaction :
      StateManager → Transaction → Result Error (StateManager × State)
  apply_transaction m tx = do
    let old_hash = compute_state_hash m
    new_state ← run_transaction m.state tx
    let entry : TraceEntry = record {
      tx = tx;
      old_hash = old_hash;
      new_hash = state_hash m.use_merkle new_state;
      diff = compute_diff m.state new_state;
    }
    ok (record m { state = new_state; trace = m.trace ++ entry ∷ [] }, new_state)
