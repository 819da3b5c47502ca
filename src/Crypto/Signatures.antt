-- ===== src/Crypto/Signatures.antt =====
-- What a signature is good for.
use ecn.Common.{String, ◌≡◌, true, some}
use ecn.Crypto.{Ed25519, payload, build_message, sign_result, verify_result}

module _ (e : Ed25519) where
  open e use {PrivateKey, PublicKey, Bytes, public_key, sha256_digest, sign, verify, hex, fromhex}

  -- What the package documents: hexadecimal text reads back, a signature verifies under its key,
  -- and only for the message that was signed.
  pub record IsEd25519 : Type 0 where
    pub fromhex-hex : (b : Bytes) → fromhex (hex b) ≡ some b
    pub verify-sign : (k : PrivateKey) (m : Bytes) → verify (public_key k) (sign k m) m ≡ true
    pub message_bound :
        (k : PrivateKey) (m m' : Bytes) → verify (public_key k) (sign k m) m' ≡ true → m ≡ m'

  module _ (law : IsEd25519) where
    -- A result that a node signed verifies under the public key of the node.
    pub verify_result-sign_result :
        (node_id state_hash : String) (k : PrivateKey)
        → verify_result e node_id state_hash (sign_result e node_id state_hash k) (public_key k)
          ≡ true
    unfolding verify_result sign_result
    verify_result-sign_result node_id state_hash k =
        rw (law.fromhex-hex (sign k (build_message e node_id state_hash)), verify_result)
          (law.verify-sign k (build_message e node_id state_hash))

    -- A signature for one hash of a node verifies for another hash of it only when the two payloads
    -- have one digest.
    pub verify_result-tampered :
        (node_id state_hash claimed : String) (k : PrivateKey)
        → verify_result e node_id claimed (sign_result e node_id state_hash k) (public_key k) ≡ true
        → sha256_digest (payload node_id state_hash) ≡ sha256_digest (payload node_id claimed)
    unfolding verify_result sign_result build_message
    verify_result-tampered node_id state_hash claimed k verified =
        let ok' : verify (public_key k) (sign k (sha256_digest (payload node_id state_hash)))
              (sha256_digest (payload node_id claimed))
            ≡ true =
          rw (law.fromhex-hex (sign k (sha256_digest (payload node_id state_hash))), verify_result)
            at verified in
        law.message_bound k _ _ ok'
