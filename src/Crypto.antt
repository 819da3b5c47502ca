-- ===== src/Crypto.antt =====
-- ecn/crypto.py: signing and verifying the results of nodes. The `cryptography` package, the bytes
-- it works on and `hashlib` are parameters.
pub mod Signatures
pub mod Tampered
mod Tests
use ecn.Common.{String, Bool, false, Option, none, some, [], ◌∷◌, Result, ok, ◌>>=◌, or_raise}
use ecn.Common.Dict.{Dict, lookup}
use Prim.Native.String.{◌++◌ as ◌⁀◌}
use ecn.Consensus.{Verifier}

pub record Ed25519 : Type 1 where
  pub PrivateKey : Type 0
  pub PublicKey : Type 0
  pub Bytes : Type 0
  pub public_key : PrivateKey → PublicKey
  -- `hashlib.sha256(text.encode("utf-8")).digest()`
  pub sha256_digest : String → Bytes
  pub sign : PrivateKey → Bytes → Bytes
  -- `public_key.verify(raw_sig, message)`: false where it raises `InvalidSignature`
  pub verify : PublicKey → Bytes → Bytes → Bool
  pub hex : Bytes → String
  -- `bytes.fromhex`: none where it raises `ValueError`
  pub fromhex : String → Option Bytes

-- `SignedResult`
pub record SignedResult : Type 0 where
  pub node_id : String
  pub state_hash : String
  pub signature : String

unfoldable pub to_dict : SignedResult → Dict String
to_dict r = ("node_id", r.node_id) ∷ ("state_hash", r.state_hash) ∷ ("signature", r.signature) ∷ []

-- The error is the key that is missing, of the `KeyError`.
unfoldable pub from_dict : Dict String → Result String SignedResult
from_dict d = do
  node_id ← or_raise (lookup "node_id" d) "node_id"
  state_hash ← or_raise (lookup "state_hash" d) "state_hash"
  signature ← or_raise (lookup "signature" d) "signature"
  ok (record { node_id = node_id; state_hash = state_hash; signature = signature })

-- `f"{node_id}:{state_hash}"`
abbrev pub payload : String → String → String
payload node_id state_hash = node_id ⁀ (":" ⁀ state_hash)

module _ (e : Ed25519) where
  open e use {PrivateKey, PublicKey, Bytes, sha256_digest, sign, verify, hex, fromhex}

  unfoldable pub build_message : String → String → Bytes
  build_message node_id state_hash = sha256_digest (payload node_id state_hash)

  unfoldable pub sign_result : String → String → PrivateKey → String
  sign_result node_id state_hash private_key =
      hex (sign private_key (build_message node_id state_hash))

  unfoldable pub verify_result : String → String → String → PublicKey → Bool
  verify_result node_id state_hash signature_hex public_key = elim (fromhex signature_hex) [
    | none ↦ false
    | some raw_sig ↦ verify public_key raw_sig (build_message node_id state_hash)
  ]

  -- `SignedResult.verify`
  abbrev pub verify_signed : SignedResult → PublicKey → Bool
  verify_signed r public_key = verify_result r.node_id r.state_hash r.signature public_key

  -- What consensus verifies with.
  abbrev pub verifier : Verifier
  verifier = record { PublicKey = PublicKey; verify_result = verify_result }
