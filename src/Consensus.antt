-- ===== src/Consensus.antt =====
-- ecn/consensus.py: one consensus round over the results of the nodes. `verify_result` of
-- ecn/crypto.py rests on a third-party library and is a parameter, as are floats: the quotient of
-- two counts and the comparison `fraction >= quorum_threshold`.
pub mod Votes
pub mod Outcome
pub mod Quorum
mod Tests
use ecn.Common.{
  ℕ, ◌+◌, max, String, Bool, false, not, Option, none, some, List, [], ◌∷◌, ◌++◌, map, ltb, ◌==◌,
  if◌then◌else◌, length, keep,
}
use ecn.Common.Text.{str_eq, str_lt}
use ecn.Common.Dict.{Dict, lookup, get_or, insert, keys}

-- `NodeResult`, as far as consensus reads it
pub record NodeResult : Type 0 where
  pub node_id : String
  pub state_hash : String
  pub signature : Option String

-- The floats that a round computes with: `a / b` on counts, and `x >= y`.
pub record Floats : Type 1 where
  pub Float : Type 0
  pub ratio : ℕ → ℕ → Float
  pub geb : Float → Float → Bool

-- The keys, and `verify_result(node_id, state_hash, signature, public_key)`.
pub record Verifier : Type 1 where
  pub PublicKey : Type 0
  pub verify_result : String → String → String → PublicKey → Bool

pub record ConsensusResult : Type 0 where
  pub agreed_hash : Option String
  pub vote_counts : Dict ℕ
  pub honest_nodes : List String
  pub faulty_nodes : List String
  pub invalid_sig_nodes : List String
  pub total_nodes : ℕ
  pub consensus_reached : Bool

-- `sum(vote_counts.values())`
unfoldable pub sum_votes : Dict ℕ → ℕ
sum_votes [] = 0
sum_votes ((h, v) ∷ d) = v + sum_votes d

-- `Counter(r.state_hash for r in verified_results)`, from the last result to the first: the
-- order of the keys has no effect.
unfoldable pub count_votes : List NodeResult → Dict ℕ
count_votes [] = []
count_votes (r ∷ results) =
    let counts = count_votes results in
    insert r.state_hash (get_or r.state_hash counts 0 + 1) counts

-- `max(vote_counts.values())`
unfoldable pub max_votes : Dict ℕ → ℕ
max_votes [] = 0
max_votes ((h, v) ∷ d) = max v (max_votes d)

-- `[h for h, v in vote_counts.items() if v == max_votes]`
unfoldable pub candidates : ℕ → Dict ℕ → List String
candidates m [] = []
candidates m ((h, v) ∷ d) = if v == m then h ∷ candidates m d else candidates m d

-- `min` of a non-empty list of texts, by its first element and the others
unfoldable pub min_text : String → List String → String
min_text h [] = h
min_text h (k ∷ hs) = min_text (if str_lt k h then k else h) hs

-- `min(candidates)`; `none` stands for the `ValueError` on an empty list.
abbrev pub min_of : List String → Option String
min_of [] = none
min_of (h ∷ hs) = some (min_text h hs)

unfoldable pub select_winner : Dict ℕ → Option String
unfolding max_votes candidates min_text
select_winner vote_counts = min_of (candidates (max_votes vote_counts) vote_counts)

abbrev pub node_ids : List NodeResult → List String
node_ids = map (λ r. r.node_id)

-- `r.state_hash == h`
abbrev pub has_hash : String → NodeResult → Bool
has_hash h r = str_eq r.state_hash h

-- `r.state_hash == agreed_hash`
abbrev pub agrees_with : Option String → NodeResult → Bool
agrees_with none r = false
agrees_with (some h) r = has_hash h r

module _ (f : Floats) where
  open f use {Float, ratio, geb}

  -- `ConsensusResult.__init__`
  unfoldable pub consensus_result :
      Option String → Dict ℕ → List String → List String → List String → Float → ConsensusResult
  consensus_result agreed_hash vote_counts honest_nodes faulty_nodes invalid_sig_nodes threshold =
      let total_verified = sum_votes vote_counts in
      record {
        agreed_hash = agreed_hash;
        vote_counts = vote_counts;
        honest_nodes = honest_nodes;
        faulty_nodes = faulty_nodes;
        invalid_sig_nodes = invalid_sig_nodes;
        total_nodes = length honest_nodes + length faulty_nodes;
        consensus_reached = elim agreed_hash [
          | none ↦ false
          | some h ↦
              if ltb 0 total_verified
              then geb (ratio (get_or h vote_counts 0) total_verified) threshold
              else false
        ];
      }

  module _ (v : Verifier) where
    open v use {PublicKey, verify_result}

    -- The tests of the loop of step 1 on one result.
    unfoldable pub is_verified : Dict PublicKey → NodeResult → Bool
    is_verified public_keys r = elim (lookup r.node_id public_keys) [
      | none ↦ false
      | some pk ↦ elim r.signature [
        | none ↦ false
        | some signature ↦ verify_result r.node_id r.state_hash signature pk
      ]
    ]

    -- Step 1: the verified results, and the nodes with a missing key or a bad signature. Without
    -- keys, or with an empty dictionary, every result counts as verified.
    unfoldable pub verified_results : Option (Dict PublicKey) → List NodeResult → List NodeResult
    verified_results none results = results
    verified_results (some []) results = results
    verified_results (some (k ∷ keys)) results = keep (is_verified (k ∷ keys)) results

    unfoldable pub invalid_sig_nodes_of : Option (Dict PublicKey) → List NodeResult → List String
    invalid_sig_nodes_of none results = []
    invalid_sig_nodes_of (some []) results = []
    invalid_sig_nodes_of (some (k ∷ keys)) results =
        node_ids (keep (λ r. not (is_verified (k ∷ keys) r)) results)

    -- Step 2, on the verified results, of which there is one at least.
    unfoldable pub tally : List NodeResult → List String → Float → ConsensusResult
    tally verified invalid_sig threshold =
        let vote_counts = count_votes verified in
        let agreed_hash = select_winner vote_counts in
        consensus_result agreed_hash vote_counts
          (node_ids (keep (agrees_with agreed_hash) verified))
          (node_ids (keep (λ r. not (agrees_with agreed_hash r)) verified) ++ invalid_sig)
          invalid_sig threshold

    unfoldable pub run_consensus :
        List NodeResult → Option (Dict PublicKey) → Float → ConsensusResult
    run_consensus [] public_keys threshold = consensus_result none [] [] [] [] threshold
    run_consensus (r ∷ results) public_keys threshold =
        let verified = verified_results public_keys (r ∷ results) in
        let invalid_sig = invalid_sig_nodes_of public_keys (r ∷ results) in
        elim verified [
          | [] ↦ consensus_result none [] [] (node_ids (r ∷ results)) invalid_sig threshold
          | first ∷ others ↦ tally (first ∷ others) invalid_sig threshold
        ]
