-- ===== src/Consensus/Quorum.antt =====
-- What a quorum buys: majorities, unanimity, and independence of the order of the results.
use ecn.Common.{
  ℕ, ◌+◌, ◌*◌, ◌≤◌, ◌<◌, String, ◌≡◌, refl, sym, ap, ◌∙◌, ◌≢◌, inl, inr, true, Option, some, List,
  [], ◌∷◌, arith, Bool-cases, length, keep,
}
use ecn.Common.Text.{str_eq, eq_iff, str_lt_cases}
use ecn.Common.Dict.{Dict}
use ecn.Consensus.{
  NodeResult, ConsensusResult, Floats, Verifier, node_ids, has_hash, verified_results,
  run_consensus,
}
use ecn.Consensus.Votes.{votes_for, IsWinner}
use ecn.Consensus.Outcome.{run_consensus-cases}

-- Two hashes share no vote.
votes_for-disjoint :
    (h k : String) (l : List NodeResult) → h ≢ k → votes_for h l + votes_for k l ≤ length l
votes_for-disjoint h k [] ne = omega arith
votes_for-disjoint h k (r ∷ l) ne =
    ground (arith, votes_for-disjoint h k l ne, eq_iff r.state_hash h, eq_iff r.state_hash k)

empty : (l : List NodeResult) → length l ≡ 0 → l ≡ []
empty [] e = refl
empty (r ∷ l) e = absurd (omega (arith, e))

nonempty : (l : List NodeResult) → l ≢ [] → 0 < length l
nonempty [] ne = absurd (ne refl)
nonempty (r ∷ l) ne = omega arith

-- The winner is determined by the votes.
IsWinner-unique :
    (a b : List NodeResult) (h k : String)
    → ((x : String) → votes_for x a ≡ votes_for x b)
    → IsWinner a h
    → IsWinner b k
    → h ≡ k
IsWinner-unique a b h k same wa wb =
    let equal : votes_for h a ≡ votes_for k a =
      omega (arith, same h, same k, wa.most k, wb.most h) in
    ground (
      arith,
      str_lt_cases h k,
      wa.least k (sym equal),
      wb.least h (omega (arith, equal, same h, same k)),
    )

-- A hash with more than half of the votes wins.
majority-IsWinner :
    (l : List NodeResult) (h k : String) → length l < 2 * votes_for h l → IsWinner l k → k ≡ h
majority-IsWinner l h k more w = elim (Bool-cases (str_eq k h)) [
  | inl same ↦ ground (arith, same, eq_iff k h)
  | inr other ↦ absurd (
      let disjoint : votes_for h l + votes_for k l ≤ length l =
        votes_for-disjoint h k l (λ e. ground (arith, e, other, eq_iff k h)) in
      omega (arith, disjoint, more, w.most h))
]

module _ (f : Floats) (v : Verifier) where
  open f use {Float, ratio, geb}
  open v use {PublicKey}

  module _ (keys : Option (Dict PublicKey)) (threshold : Float) where
    abbrev round : List NodeResult → ConsensusResult
    round results = run_consensus f v results keys threshold

    abbrev verified : List NodeResult → List NodeResult
    verified results = verified_results f v keys results

    -- When the quorum, of a positive number of votes, says yes to more than half only, a round that reaches consensus agrees on
    -- a hash that more than half of the verified results carry.
    pub consensus_reached-majority :
        ((k n : ℕ) → 0 < n → geb (ratio k n) threshold ≡ true → n < 2 * k)
        → (results : List NodeResult) → (round results).consensus_reached ≡ true
        → (h : String) × ((round results).agreed_hash ≡ some h)
          × (length (verified results) < 2 * votes_for h (verified results))
    consensus_reached-majority quorum results reached =
        elim (run_consensus-cases f v keys threshold results) [
          | inl (_, _, failed, _, _) ↦ absurd (cc)
          | inr (h, _, ne, agreed, _, _, share) ↦ (
            h,
            agreed,
            quorum (votes_for h (verified results)) (length (verified results))
                (nonempty (verified results) ne) (sym share ∙ reached),
          )
        ]

    -- A hash that more than half of the verified results carry is the agreed one, whatever the
    -- others send, and exactly the nodes that sent it are honest.
    pub agreed_hash-majority :
        (results : List NodeResult) (h : String)
        → length (verified results) < 2 * votes_for h (verified results)
        → ((round results).agreed_hash ≡ some h)
          × ((round results).honest_nodes ≡ node_ids (keep (has_hash h) (verified results)))
    agreed_hash-majority results h more = elim (run_consensus-cases f v keys threshold results) [
      | inl (gone, _, _, _, _) ↦ absurd (ground (arith, more, gone))
      | inr (k, wins, _, agreed, honest, _, _) ↦
          let is_h : k ≡ h = majority-IsWinner (verified results) h k more wins in
          (
            agreed ∙ ap some is_h,
            honest ∙ ap (λ x. node_ids (keep (has_hash x) (verified results))) is_h,
          )
    ]

    -- When all verified results carry one hash, and the quorum says yes to all of all, the round
    -- reaches consensus on it.
    pub run_consensus-unanimous :
        ((n : ℕ) → 0 < n → geb (ratio n n) threshold ≡ true)
        → (results : List NodeResult) (h : String) → 0 < length (verified results)
        → votes_for h (verified results) ≡ length (verified results)
        → ((round results).agreed_hash ≡ some h) × ((round results).consensus_reached ≡ true)
    run_consensus-unanimous quorum results h some_verified same =
        elim (run_consensus-cases f v keys threshold results) [
          | inl (gone, _, _, _, _) ↦ absurd (ground (arith, some_verified, gone))
          | inr (k, wins, _, agreed, _, _, share) ↦
              let is_h : k ≡ h =
                majority-IsWinner (verified results) h k (omega (arith, some_verified, same))
                  wins in
              (
                agreed ∙ ap some is_h,
                rw (share, is_h, same) (quorum (length (verified results)) some_verified),
              )
        ]

    -- The order of the results does not matter: two rounds with the same number of verified votes
    -- for each hash agree on the same hash, and both reach consensus or neither does.
    pub run_consensus-order :
        (a b : List NodeResult)
        → ((h : String) → votes_for h (verified a) ≡ votes_for h (verified b))
        → length (verified a) ≡ length (verified b)
        → ((round a).agreed_hash ≡ (round b).agreed_hash)
          × ((round a).consensus_reached ≡ (round b).consensus_reached)
    run_consensus-order a b same total = elim (run_consensus-cases f v keys threshold a) [
      | inl (gone_a, none_a, failed_a, _, _) ↦ elim (run_consensus-cases f v keys threshold b) [
        | inl (_, none_b, failed_b, _, _) ↦ (none_a ∙ sym none_b, failed_a ∙ sym failed_b)
        | inr (_, _, ne, _, _, _, _) ↦
            absurd (ne (empty (verified b) (sym total ∙ ap length gone_a)))
      ]
      | inr (h, wins_a, ne, agreed_a, _, _, share_a) ↦
          elim (run_consensus-cases f v keys threshold b) [
            | inl (gone_b, _, _, _, _) ↦ absurd (ne (empty (verified a) (total ∙ ap length gone_b)))
            | inr (k, wins_b, _, agreed_b, _, _, share_b) ↦
                let same_hash : h ≡ k =
                  IsWinner-unique (verified a) (verified b) h k same wins_a wins_b in
                (
                  agreed_a ∙ ap some same_hash ∙ sym agreed_b,
                  share_a ∙ rw (same_hash, same k, total) (sym share_b),
                )
          ]
    ]
