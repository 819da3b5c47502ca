-- ===== src/Samples.antt =====
-- Small concrete parameters and data for the tests: toy digests, signatures, floats and clocks.
use ecn.Common.{ℕ, ◌*◌, String, refl, none, some, [], ◌∷◌, leb}
use ecn.Common.Int.{pos}
use ecn.Common.Text.{str_eq, eq_iff, str_eq_refl}
use Prim.Native.String.{◌++◌ as ◌⁀◌}
use text.Mathlib.TextLemmas.{append_cancel_left}
use ecn.World.{State, Transaction}
use ecn.StateManager.{Digest}
use ecn.Consensus.{Floats, Verifier, NodeResult}
use ecn.Crypto.{Ed25519}
use ecn.Crypto.Signatures.{IsEd25519}

abbrev pub blank : Transaction
blank = record {
  type = none;
  from = none;
  to = none;
  amount = none;
  product_id = none;
  destination = none;
  shipper = none;
  receiver = none;
  at_customs = none;
  check_name = none;
  inspector = none;
  reason = none;
  released_by = none;
}

abbrev pub minting : Transaction
minting = record blank { type = some "mint"; to = some "C"; amount = some (pos 50) }

abbrev pub bank : State
bank = record { balances = some (("A", pos 1000) ∷ ("B", pos 500) ∷ []); products = none }

abbrev pub richer_bank : State
richer_bank = record bank {
  balances = some (("A", pos 1000) ∷ ("B", pos 500) ∷ ("C", pos 50) ∷ []);
}

-- Fractions, compared across.
abbrev pub fractions : Floats
fractions = record {
  Float = ℕ × ℕ;
  ratio = λ a b. (a, b);
  geb = λ x y. leb (y.0 * x.1) (x.0 * y.1);
}

-- `quorum_threshold=0.51`
abbrev pub majority : ℕ × ℕ
majority = (51, 100)

abbrev pub digest : Digest
digest = record { sha256 = λ s. s; dumps = λ s. "state" }

-- A signature is the key before the message.
abbrev pub ed25519 : Ed25519
ed25519 = record {
  PrivateKey = String;
  PublicKey = String;
  Bytes = String;
  public_key = λ k. k;
  sha256_digest = λ s. s;
  sign = λ k m. k ⁀ m;
  verify = λ k s m. str_eq s (k ⁀ m);
  hex = λ b. b;
  fromhex = λ s. some s;
}

pub ed25519-IsEd25519 : IsEd25519 ed25519
ed25519-IsEd25519 = record {
  fromhex-hex = λ b. refl;
  verify-sign = λ k m. str_eq_refl (k ⁀ m);
  message_bound = λ k m n verified. append_cancel_left k m n ((eq_iff (k ⁀ m) (k ⁀ n)).0 verified);
}

-- A verifier that accepts the signature "ok".
abbrev pub trusting : Verifier
trusting = record {
  PublicKey = String;
  verify_result = λ node hash signature key. str_eq signature "ok";
}

abbrev pub vote_of : String → String → NodeResult
vote_of node hash = record { node_id = node; state_hash = hash; signature = some "ok" }
