-- ===== src/Consensus/Outcome.antt =====
-- What a round reports: who was counted, who agreed and who is at fault.
use ecn.Common.{
  ◌⊎◌, ltb, true, suc, ◌+◌, String, ◌≡◌, refl, ap, ◌∙◌, ◌≢◌, inl, inr, Bool, false, not, Option,
  none, some, List, [], ◌∷◌, ◌++◌, arith, length, keep, length-append, List-cases,
}
use ecn.Common.Dict.{Dict}
use ecn.Common.Text.{listed, listed-right}
use ecn.Consensus.{
  NodeResult, ConsensusResult, Floats, Verifier, count_votes, select_winner, node_ids, has_hash,
  agrees_with, is_verified, verified_results, invalid_sig_nodes_of, tally, consensus_result,
  run_consensus,
}
use ecn.Consensus.Votes.{
  votes_for, count_votes-votes_for, sum_votes-count_votes, IsWinner, select_winner-IsWinner,
}

length-node_ids : (l : List NodeResult) → length (node_ids l) ≡ length l
length-node_ids [] = refl
length-node_ids (r ∷ l) = ap suc (length-node_ids l)

length-keep :
    (p : NodeResult → Bool) (l : List NodeResult)
    → length (keep p l) + length (keep (λ r. not (p r)) l) ≡ length l
length-keep p [] = refl
length-keep p (r ∷ l) = ground (arith, length-keep p l)

listed-keep :
    (node_id : String) (p : NodeResult → Bool) (l : List NodeResult)
    → listed node_id (node_ids (keep p l)) ≡ true
    → listed node_id (node_ids l) ≡ true
unfolding listed
listed-keep node_id p [] h = h
listed-keep node_id p (r ∷ l) h = ground (arith, h, listed-keep node_id p l)

module _ (f : Floats) (v : Verifier) where
  open f use {Float, ratio, geb}
  open v use {PublicKey}

  length-verified_results :
      (keys : Option (Dict PublicKey)) (l : List NodeResult)
      → length (verified_results f v keys l) + length (invalid_sig_nodes_of f v keys l) ≡ length l
  unfolding verified_results invalid_sig_nodes_of
  length-verified_results none l = omega arith
  length-verified_results (some []) l = omega arith
  length-verified_results (some (k ∷ ks)) l = omega (
    arith,
    length-keep (is_verified f v (k ∷ ks)) l,
    length-node_ids (keep (λ r. not (is_verified f v (k ∷ ks) r)) l),
  )

  listed-invalid :
      (keys : Option (Dict PublicKey)) (node_id : String) (l : List NodeResult)
      → listed node_id (invalid_sig_nodes_of f v keys l) ≡ true
      → listed node_id (node_ids l) ≡ true
  unfolding invalid_sig_nodes_of listed
  listed-invalid none node_id l h = absurd (cc)
  listed-invalid (some []) node_id l h = absurd (cc)
  listed-invalid (some (k ∷ ks)) node_id l h =
      listed-keep node_id (λ r. not (is_verified f v (k ∷ ks) r)) l h

  no_results : (keys : Option (Dict PublicKey)) → verified_results f v keys [] ≡ []
  unfolding verified_results
  no_results none = refl
  no_results (some []) = refl
  no_results (some (k ∷ ks)) = refl

  module _ (keys : Option (Dict PublicKey)) (threshold : Float) where
    share_of_votes :
        (h : String) (results : List NodeResult)
        → results ≢ []
        → select_winner (count_votes results) ≡ some h
        → (tally f v results [] threshold).consensus_reached
          ≡ geb (ratio (votes_for h results) (length results)) threshold
    unfolding tally consensus_result
    share_of_votes h results ne chosen =
        let some_votes : ltb 0 (length results) ≡ true = elim (List-cases results) [
          | inl gone ↦ absurd (ne gone)
          | inr (x, xs, e) ↦ rw e (ground arith)
        ] in
        rw (chosen, sum_votes-count_votes results, some_votes, count_votes-votes_for h results) refl

    -- What a round is, by the results that were verified.
    abbrev pub round : List NodeResult → ConsensusResult
    round results = run_consensus f v results keys threshold

    tally_split :
        (verified : List NodeResult) (invalid : List String)
        → (tally f v verified invalid threshold).total_nodes ≡ length verified + length invalid
    unfolding tally consensus_result
    tally_split verified invalid =
        let p = agrees_with (select_winner (count_votes verified)) in
        omega (
          arith,
          length-keep p verified,
          length-node_ids (keep p verified),
          length-node_ids (keep (λ r. not (p r)) verified),
          length-append (node_ids (keep (λ r. not (p r)) verified)) invalid,
        )

    abbrev pub verified : List NodeResult → List NodeResult
    verified results = verified_results f v keys results

    abbrev pub invalid : List NodeResult → List String
    invalid results = invalid_sig_nodes_of f v keys results

    -- With a verified result the round is the tally of those.
    pub run_consensus-tally :
        (results : List NodeResult)
        → verified results ≢ []
        → round results ≡ tally f v (verified results) (invalid results) threshold
    unfolding run_consensus
    run_consensus-tally [] ne = absurd (ne (no_results keys))
    run_consensus-tally (r ∷ rs) ne = elim (List-cases (verified (r ∷ rs))) [
      | inl gone ↦ absurd (ne gone)
      | inr (x, xs, e) ↦ rw (e, run_consensus)
    ]

    -- Without one it agrees on nothing, and every node is at fault.
    run_consensus-nothing :
        (results : List NodeResult)
        → verified results ≡ []
        → (round results).agreed_hash ≡ none
          × ((round results).consensus_reached ≡ false)
          × ((round results).honest_nodes ≡ [])
          × ((round results).faulty_nodes ≡ node_ids results)
    unfolding run_consensus consensus_result
    run_consensus-nothing [] e = (refl, refl, refl, refl)
    run_consensus-nothing (r ∷ rs) e = rw (e, run_consensus) (refl, refl, refl, refl)

    no_votes :
        (results : List NodeResult) → verified results ≡ [] → (round results).vote_counts ≡ []
    unfolding run_consensus consensus_result
    no_votes [] e = refl
    no_votes (r ∷ rs) e = rw (e, run_consensus) refl

    -- What a round says of the votes depends on the verified results alone.
    pub run_consensus-verified :
        (xs ys : List NodeResult)
        → verified xs ≡ verified ys
        → ((round xs).agreed_hash ≡ (round ys).agreed_hash)
          × ((round xs).vote_counts ≡ (round ys).vote_counts)
          × ((round xs).honest_nodes ≡ (round ys).honest_nodes)
          × ((round xs).consensus_reached ≡ (round ys).consensus_reached)
    unfolding tally consensus_result
    run_consensus-verified xs ys same = elim (List-cases (verified ys)) [
      | inl gone ↦
          let (a, c, h, n) = run_consensus-nothing xs (same ∙ gone) in
          let (a', c', h', n') = run_consensus-nothing ys gone in
          (cc, cc (no_votes xs (same ∙ gone), no_votes ys gone), cc, cc)
      | inr (x, l, e) ↦
          let there : verified ys ≢ [] = λ n. cc (e, n) in
          let there' : verified xs ≢ [] = λ n. cc (same, e, n) in
          rw (run_consensus-tally xs there', run_consensus-tally ys there, same)
            (refl, refl, refl, refl)
    ]

    -- The nodes whose signature did not verify are reported as such, and as faulty.
    pub listed-run_consensus :
        (node_id : String) (results : List NodeResult)
        → listed node_id (invalid results) ≡ true
        → (listed node_id (round results).invalid_sig_nodes ≡ true)
          × (listed node_id (round results).faulty_nodes ≡ true)
    unfolding run_consensus tally consensus_result invalid_sig_nodes_of listed
    listed-run_consensus node_id [] there =
        absurd (ground (arith, there, listed-invalid keys node_id [] there))
    listed-run_consensus node_id (r ∷ rs) there = elim (List-cases (verified (r ∷ rs))) [
      | inl gone ↦ rw (gone, run_consensus) (there, listed-invalid keys node_id (r ∷ rs) there)
      | inr (x, l, e) ↦
          rw (e, run_consensus)
            (
              there,
              listed-right node_id
                  (node_ids
                    (keep (λ q. not (agrees_with (select_winner (count_votes (x ∷ l))) q)) (x ∷ l)))
                  (invalid (r ∷ rs)) there,
            )
    ]

    -- Every result is reported once: as honest, or as faulty.
    pub total_nodes-run_consensus :
        (results : List NodeResult) → (round results).total_nodes ≡ length results
    unfolding run_consensus consensus_result
    total_nodes-run_consensus [] = refl
    total_nodes-run_consensus (r ∷ rs) = elim (List-cases (verified (r ∷ rs))) [
      | inl gone ↦ rw (gone, run_consensus) (omega (arith, length-node_ids (r ∷ rs)))
      | inr (x, xs, e) ↦
          rw (e, run_consensus)
            (omega (
              arith,
              tally_split (x ∷ xs) (invalid (r ∷ rs)),
              length-verified_results keys (r ∷ rs),
              ap length e,
            ))
    ]

    -- Of a tally: the hash is the winner of the votes, the honest nodes are those that sent it, and
    -- the quorum decides on its share.
    tally-IsWinner :
        (results : List NodeResult) (bad : List String)
        → results ≢ []
        → (h : String) × IsWinner results h
          × ((tally f v results bad threshold).agreed_hash ≡ some h)
          × ((tally f v results bad threshold).honest_nodes ≡ node_ids (keep (has_hash h) results))
          × ((tally f v results bad threshold).faulty_nodes
              ≡ node_ids (keep (λ r. not (has_hash h r)) results) ++ bad)
          × ((tally f v results bad threshold).consensus_reached
              ≡ geb (ratio (votes_for h results) (length results)) threshold)
    unfolding tally consensus_result
    tally-IsWinner results bad ne =
        let (h, chosen, wins) = select_winner-IsWinner results ne in
        (h, wins, chosen, rw chosen, rw chosen, share_of_votes h results ne chosen)

    -- A round has two outcomes. Without a verified result it agrees on nothing and every node is at
    -- fault. Otherwise it agrees on the hash with the most verified votes (of those with as many, the
    -- first one in the order of texts); the nodes that sent it are honest, the other verified ones and
    -- those with a bad signature are at fault, and consensus is reached exactly when the quorum
    -- accepts the share of that hash in the verified votes.
    pub run_consensus-cases :
        (results : List NodeResult)
        → ((verified results ≡ [])
            × ((round results).agreed_hash ≡ none)
            × ((round results).consensus_reached ≡ false)
            × ((round results).honest_nodes ≡ [])
            × ((round results).faulty_nodes ≡ node_ids results))
          ⊎ ((h : String) × IsWinner (verified results) h
              × (verified results ≢ [])
              × ((round results).agreed_hash ≡ some h)
              × ((round results).honest_nodes ≡ node_ids (keep (has_hash h) (verified results)))
              × ((round results).faulty_nodes
                  ≡ node_ids (keep (λ r. not (has_hash h r)) (verified results)) ++ invalid results)
              × ((round results).consensus_reached
                  ≡ geb
                      (ratio (votes_for h (verified results)) (length (verified results)))
                      threshold))
    run_consensus-cases results = elim (List-cases (verified results)) [
      | inl gone ↦
          let (nothing, failed, nobody, everyone) = run_consensus-nothing results gone in
          inl (gone, nothing, failed, nobody, everyone)
      | inr (x, xs, e) ↦
          let ne : verified results ≢ [] = λ gone. ground (arith, e, gone) in
          let (h, wins, agreed, honest, faulty, share) =
            tally-IsWinner (verified results) (invalid results) ne in
          inr (rw (run_consensus-tally results ne) (h, wins, ne, agreed, honest, faulty, share))
    ]
