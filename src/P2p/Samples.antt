-- ===== src/P2p/Samples.antt =====
-- A network of four servers, of which one is malicious and one does not answer.
use ecn.Common.{
  ℕ, String, ◌≡◌, refl, ap, inr, Bool, true, false, none, some, List, [], ◌∷◌, arith, leb, ◌==◌,
  if◌then◌else◌, length, ok,
}
use ecn.Common.Dict.{insert}
use ecn.Common.Int.{◌+ℤ◌}
use Prim.Native.String.{count}
use text.Mathlib.TextLemmas.{length-append as count-append}
use ecn.World.{Transaction}
use ecn.Engine.{execute, handle_mint}
use ecn.Execution.{all_handlers, run_transaction}
use ecn.StateManager.{init, state_hash}
use ecn.Consensus.{ConsensusResult, NodeResult}
use ecn.Node.{new_node}
use ecn.NodeServer.{NodeServer, new_server}
use ecn.Health.{Clock, get_or_create}
use ecn.Samples.{
  minting, bank, richer_bank, digest, ed25519, ed25519-IsEd25519, fractions, majority,
}
use ecn.P2p.{
  Attempt, unreachable, answered, Json, register, register_all, keys_of, P2pNetwork, new_network,
  broadcast,
}
use ecn.P2p.Rounds.{IsJson, broadcast-heard}

program : Unit {0}
unfolding init execute handle_mint all_handlers run_transaction insert new_node new_server
    new_network state_hash register register_all keys_of get_or_create ◌+ℤ◌
program = tt

abbrev pub clock : Clock
clock = record { utcnow = "now"; is_rehab_due = λ t. true }

-- JSON that knows one transaction.
abbrev pub only : Transaction → Json
only t = record { dumps = λ x. "line"; loads = λ line. some t }

abbrev pub server : String → String → ℕ → Bool → NodeServer digest ed25519
server key name port malicious =
    new_server digest ed25519 "127.0.0.1" key name bank port "" malicious none

abbrev pub servers : List (NodeServer digest ed25519)
servers =
    server "k1" "N1" 19000 false
    ∷ server "k2" "N2" 19001 true
    ∷ server "k3" "N3" 19002 false
    ∷ server "k4" "N4" 19003 false
    ∷ []

abbrev pub net : P2pNetwork ℕ leb digest ed25519 fractions
net = new_network ℕ leb digest ed25519 fractions majority servers (some []) none (some 2) none

abbrev pub link : String → ℕ → Attempt ℕ
link host port = if port == 19003 then unreachable else answered 12

pub both : IsJson (only minting) minting
both = record { loads-dumps = refl; not_empty = refl }

-- The round that the network holds on a transaction.
pub heard :
    (net' : P2pNetwork ℕ leb digest ed25519 fractions) × (results : List NodeResult)
    × (c : ConsensusResult) × (broadcast ℕ leb digest ed25519 fractions
          (only minting)
          link
          clock
          "now"
          net
          minting
        ≡ (net', ok (results, c)))
    × (length results ≡ 3)
    × (c.agreed_hash ≡ some (state_hash digest false richer_bank))
    × (c.honest_nodes ≡ "N1" ∷ "N3" ∷ [])
    × (net'.history ≡ (minting, results, c) ∷ [])
unfolding program
heard =
    broadcast-heard ℕ leb digest ed25519 fractions ed25519-IsEd25519 (only minting) minting both
      link net bank false clock "now" richer_bank refl
      (λ x e. omega (arith, ap count e, count-append x "DEADBEEF"))
      (
        record { same_state = refl; same_mode = refl },
        (
          record { same_state = refl; same_mode = refl },
          (record { same_state = refl; same_mode = refl }, tt),
        ),
      )
      (inr (("k1", refl, refl), (("k2", refl, refl), (("k3", refl, refl), tt)))) (omega arith)
      (omega arith)
