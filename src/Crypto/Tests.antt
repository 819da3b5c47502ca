-- ===== src/Crypto/Tests.antt =====
-- Signatures of the toy scheme, at concrete inputs.
use ecn.Common.{String, ◌≡◌, refl, true, false, some, [], ◌∷◌, ok, raise}
use ecn.Crypto.{
  SignedResult, to_dict, from_dict, build_message, sign_result, verify_result, verifier,
}
use ecn.Common.Dict.{Dict}
use ecn.Common.Text.{listed, eq_iff}
use ecn.Consensus.{NodeResult, run_consensus}
use ecn.Crypto.Tampered.{run_consensus-tampered}
use ecn.Samples.{ed25519, ed25519-IsEd25519, fractions, majority}

tampered : verify_result ed25519 "N1" "bb" (sign_result ed25519 "N1" "aa" "key") "key" ≡ false
unfolding verify_result sign_result build_message
tampered = refl

abbrev tampered_result : NodeResult
tampered_result = record {
  node_id = "N2";
  state_hash = "bb";
  signature = some (sign_result ed25519 "N2" "aa" "key2");
}

abbrev signed_result : NodeResult
signed_result = record {
  node_id = "N1";
  state_hash = "aa";
  signature = some (sign_result ed25519 "N1" "aa" "key1");
}

abbrev keys : Dict String
keys = ("N1", "key1") ∷ ("N2", "key2") ∷ []

run_consensus-tampered_example :
    (let round =
        run_consensus fractions
          (verifier ed25519)
          (signed_result ∷ tampered_result ∷ [])
          (some keys)
          majority in
      let without =
        run_consensus fractions (verifier ed25519) (signed_result ∷ []) (some keys) majority in
      ((round.agreed_hash ≡ without.agreed_hash)
        × (round.vote_counts ≡ without.vote_counts)
        × (round.honest_nodes ≡ without.honest_nodes)
        × (round.consensus_reached ≡ without.consensus_reached))
      × (listed "N2" round.invalid_sig_nodes ≡ true)
      × (listed "N2" round.faulty_nodes ≡ true))
run_consensus-tampered_example =
    run_consensus-tampered fractions ed25519 ed25519-IsEd25519 keys majority (signed_result ∷ []) []
      tampered_result "aa" "key2"
      (record {
        registered = refl;
        signature = refl;
        differs = λ p. cc ((eq_iff "N2:aa" "N2:bb").1 p);
      })

-- What `to_dict` writes `from_dict` reads back.
wire_format : (r : SignedResult) → from_dict (to_dict r) ≡ ok r
unfolding from_dict to_dict
wire_format r = refl

missing_key : from_dict (("node_id", "N1") ∷ []) ≡ raise "state_hash"
unfolding from_dict
missing_key = refl
