-- ===== src/Consensus/Tests.antt =====
-- A round of three nodes, of which one disagrees.
use ecn.Common.{
  ℕ, ◌*◌, ◌<◌, String, ◌≡◌, refl, ◌≢◌, ◌⊎◌, true, false, not, Option, none, some, List, [], ◌∷◌,
  ◌++◌, arith, length, keep,
}
use ecn.Common.Dict.{Dict, insert}
use ecn.Consensus.{
  NodeResult, ConsensusResult, sum_votes, count_votes, max_votes, candidates, min_text,
  select_winner, node_ids, has_hash, verified_results, invalid_sig_nodes_of, consensus_result,
  tally, run_consensus,
}
use ecn.Consensus.Votes.{votes_for, IsWinner}
use ecn.Consensus.Outcome.{run_consensus-cases}
use ecn.Consensus.Quorum.{consensus_reached-majority, agreed_hash-majority, run_consensus-order}
use ecn.Samples.{fractions, majority, trusting, vote_of}

program : Unit {0}
unfolding sum_votes count_votes max_votes candidates min_text select_winner verified_results
    invalid_sig_nodes_of consensus_result tally run_consensus insert
program = tt

abbrev results : List NodeResult
results = vote_of "N1" "aa" ∷ vote_of "N2" "bb" ∷ vote_of "N3" "aa" ∷ []

abbrev reordered : List NodeResult
reordered = vote_of "N2" "bb" ∷ vote_of "N3" "aa" ∷ vote_of "N1" "aa" ∷ []

abbrev unanimous : List NodeResult
unanimous = vote_of "N1" "aa" ∷ vote_of "N3" "aa" ∷ []

abbrev keyless : Option (Dict String)
keyless = none

abbrev round : List NodeResult → ConsensusResult
round l = run_consensus fractions trusting l keyless majority

abbrev verified : List NodeResult → List NodeResult
verified = verified_results fractions trusting keyless

-- A tie goes to the hash that comes first.
tie : (round (vote_of "N1" "bb" ∷ vote_of "N2" "aa" ∷ [])).agreed_hash ≡ some "aa"
unfolding program
tie = refl

half_is_no_quorum : (round (vote_of "N1" "bb" ∷ vote_of "N2" "aa" ∷ [])).consensus_reached ≡ false
unfolding program
half_is_no_quorum = refl

more_than_half : (k n : ℕ) → 0 < n → fractions.geb (fractions.ratio k n) majority ≡ true → n < 2 * k
more_than_half k n p e = ground (arith, e)

consensus_reached-majority_example :
    (h : String) × ((round results).agreed_hash ≡ some h)
    × (length (verified results) < 2 * votes_for h (verified results))
unfolding program
consensus_reached-majority_example =
    consensus_reached-majority fractions trusting keyless majority more_than_half results refl

agreed_hash-majority_example :
    ((round results).agreed_hash ≡ some "aa")
    × ((round results).honest_nodes ≡ node_ids (keep (has_hash "aa") (verified results)))
unfolding program
agreed_hash-majority_example =
    agreed_hash-majority fractions trusting keyless majority results "aa" (omega arith)

same_votes : (h : String) → votes_for h (verified results) ≡ votes_for h (verified reordered)
unfolding program
same_votes h = ground arith

run_consensus-order_example :
    ((round results).agreed_hash ≡ (round reordered).agreed_hash)
    × ((round results).consensus_reached ≡ (round reordered).consensus_reached)
unfolding program
run_consensus-order_example =
    run_consensus-order fractions trusting keyless majority results reordered same_votes refl

run_consensus-cases_example :
    ((verified results ≡ [])
      × ((round results).agreed_hash ≡ none)
      × ((round results).consensus_reached ≡ false)
      × ((round results).honest_nodes ≡ [])
      × ((round results).faulty_nodes ≡ node_ids results))
    ⊎ ((h : String) × IsWinner (verified results) h
        × (verified results ≢ [])
        × ((round results).agreed_hash ≡ some h)
        × ((round results).honest_nodes ≡ node_ids (keep (has_hash h) (verified results)))
        × ((round results).faulty_nodes
            ≡ node_ids (keep (λ r. not (has_hash h r)) (verified results))
              ++ invalid_sig_nodes_of fractions trusting keyless results)
        × ((round results).consensus_reached
            ≡ fractions.geb
                (fractions.ratio (votes_for h (verified results)) (length (verified results)))
                majority))
run_consensus-cases_example = run_consensus-cases fractions trusting keyless majority results
