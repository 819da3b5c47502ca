-- ===== src/Crypto/Tampered.antt =====
-- What a round makes of a result that was changed after it was signed.
use ecn.Common.{
  String, Bool, ◌≡◌, refl, ◌≢◌, ap, true, false, not, some, List, [], ◌∷◌, ◌++◌, arith, keep, inl,
  inr, Bool-cases,
}
use ecn.Common.Dict.{Dict, lookup}
use ecn.Common.Text.{listed, str_eq_refl}
use ecn.Consensus.{
  Floats, NodeResult, node_ids, is_verified, verified_results, invalid_sig_nodes_of, run_consensus,
}
use ecn.Consensus.Outcome.{run_consensus-verified, listed-run_consensus}
use ecn.Crypto.{Ed25519, payload, sign_result, verify_result, verifier}
use ecn.Crypto.Signatures.{IsEd25519, verify_result-tampered}

module _ (f : Floats) (e : Ed25519) (law : IsEd25519 e) where
  open e use {PrivateKey, PublicKey, public_key, sha256_digest}

  -- A result whose hash is not the one that its node signed.
  pub record IsTampered (keys : Dict PublicKey) (r : NodeResult) (signed : String) (k : PrivateKey)
      : Type 0 where
    pub registered : lookup r.node_id keys ≡ some (public_key k)
    pub signature : r.signature ≡ some (sign_result e r.node_id signed k)
    pub differs :
        sha256_digest (payload r.node_id signed) ≢ sha256_digest (payload r.node_id r.state_hash)

  is_verified-IsTampered :
      (keys : Dict PublicKey) (r : NodeResult) (signed : String) (k : PrivateKey)
      → IsTampered keys r signed k
      → is_verified f (verifier e) keys r ≡ false
  unfolding is_verified
  is_verified-IsTampered keys r signed k t =
      rw (t.registered, t.signature, is_verified)
        (elim (Bool-cases (
          verify_result e r.node_id r.state_hash (sign_result e r.node_id signed k)
            (public_key k))) [
              | inl yes' ↦
                  absurd
                    (t.differs (verify_result-tampered e law r.node_id signed r.state_hash k yes'))
              | inr no' ↦ no'
            ])

  keep-one :
      (p : NodeResult → Bool) (before after : List NodeResult) (r : NodeResult)
      → p r ≡ false
      → keep p (before ++ r ∷ after) ≡ keep p (before ++ after)
  keep-one p [] after r out = rw out refl
  keep-one p (x ∷ before) after r out = ground (arith, keep-one p before after r out)

  listed-one :
      (p : NodeResult → Bool) (before after : List NodeResult) (r : NodeResult)
      → p r ≡ true
      → listed r.node_id (node_ids (keep p (before ++ r ∷ after))) ≡ true
  unfolding listed
  listed-one p [] after r there = rw there (ground (arith, str_eq_refl r.node_id))
  listed-one p (x ∷ before) after r there = ground (arith, listed-one p before after r there)

  -- A result whose hash was changed after its node signed it, so that the two payloads have different
  -- digests, does not count wherever it stands: the round agrees on the same hash with the same votes
  -- and honest nodes, and reaches consensus alike, as the round without it, and the node is reported
  -- with a bad signature and as faulty. The key of the node is registered, and a signature verifies
  -- for the message that was signed only, as the package documents.
  pub run_consensus-tampered :
      (keys : Dict PublicKey) (threshold : f.Float) (before after : List NodeResult)
      (r : NodeResult) (signed : String) (k : PrivateKey)
      → IsTampered keys r signed k
      → (let round = run_consensus f (verifier e) (before ++ r ∷ after) (some keys) threshold in
          let without = run_consensus f (verifier e) (before ++ after) (some keys) threshold in
          ((round.agreed_hash ≡ without.agreed_hash)
            × (round.vote_counts ≡ without.vote_counts)
            × (round.honest_nodes ≡ without.honest_nodes)
            × (round.consensus_reached ≡ without.consensus_reached))
          × (listed r.node_id round.invalid_sig_nodes ≡ true)
          × (listed r.node_id round.faulty_nodes ≡ true))
  unfolding verified_results invalid_sig_nodes_of
  run_consensus-tampered [] threshold before after r signed k t = absurd (cc (t.registered))
  run_consensus-tampered (key ∷ keys) threshold before after r signed k t =
      let out = is_verified-IsTampered (key ∷ keys) r signed k t in
      let p = is_verified f (verifier e) (key ∷ keys) in
      let (bad, faulty) =
        listed-run_consensus f (verifier e) (some (key ∷ keys)) threshold r.node_id
          (before ++ r ∷ after) (listed-one (λ x. not (p x)) before after r (ap not out)) in
      (
        run_consensus-verified f (verifier e) (some (key ∷ keys)) threshold (before ++ r ∷ after)
            (before ++ after) (keep-one p before after r out),
        bad,
        faulty,
      )
