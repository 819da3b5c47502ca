-- ===== src/Network/Tests.antt =====
-- A network of three nodes, of which one is malicious.
use ecn.Common.{String, ◌≡◌, refl, ap, ◌≢◌, inr, true, false, some, List, [], ◌∷◌, arith, All, ok}
use ecn.Common.Int.{◌+ℤ◌, ◌-ℤ◌}
use ecn.Common.Dict.{Dict, insert}
use Prim.Native.String.{◌++◌ as ◌⁀◌, count}
use text.Mathlib.TextLemmas.{length-append as count-append}
use ecn.Engine.{execute, handle_mint}
use ecn.Execution.{all_handlers, run_transaction}
use ecn.StateManager.{init, state_hash}
use ecn.Consensus.{ConsensusResult}
use ecn.Node.{Node, Report, new_node}
use ecn.Network.{Network, new_network, broadcast}
use ecn.Network.Rounds.{InSync, IsRegistered}
use ecn.Network.Agreement.{broadcast-agreement}
use ecn.Samples.{
  minting, bank, richer_bank, digest, ed25519, ed25519-IsEd25519, fractions, majority,
}

program : Unit {0}
unfolding init execute handle_mint all_handlers run_transaction insert new_node new_network
    state_hash ◌+ℤ◌ ◌-ℤ◌
program = tt

abbrev nodes : List (Node digest ed25519)
nodes =
    new_node digest ed25519 "N1" bank false false (some "k1")
    ∷ new_node digest ed25519 "N2" bank true false (some "k2")
    ∷ new_node digest ed25519 "N3" bank false false (some "k3")
    ∷ []

abbrev keyring : Dict String
keyring = ("N1", "k1") ∷ ("N2", "k2") ∷ ("N3", "k3") ∷ []

abbrev net : Network digest ed25519
net = new_network digest ed25519 nodes (some keyring) (some [])

in_sync : All (InSync digest ed25519 bank false) nodes
unfolding program
in_sync = (
  record { same_state = refl; same_mode = refl },
  (
    record { same_state = refl; same_mode = refl },
    (record { same_state = refl; same_mode = refl }, tt),
  ),
)

too_short : (x : String) → state_hash digest false richer_bank ≢ x ⁀ "DEADBEEF"
unfolding program
too_short x e = omega (arith, ap count e, count-append x "DEADBEEF")

registered : IsRegistered digest ed25519 keyring nodes
unfolding program
registered = inr (("k1", refl, refl), (("k2", refl, refl), (("k3", refl, refl), tt)))

broadcast-agreement_example :
    (net' : Network digest ed25519) × (reports : List Report) × (c : ConsensusResult) × (broadcast
        digest ed25519 fractions majority "now" net minting
      ≡ (net', ok (reports, c)))
    × (c.agreed_hash ≡ some (state_hash digest false richer_bank))
    × (c.honest_nodes ≡ "N1" ∷ "N3" ∷ [])
    × All (InSync digest ed25519 richer_bank false) net'.nodes
    × (net'.history ≡ (minting, reports, c) ∷ [])
unfolding program
broadcast-agreement_example =
    broadcast-agreement digest ed25519 fractions ed25519-IsEd25519 majority "now" net bank false
      minting in_sync richer_bank refl too_short registered (omega arith)
