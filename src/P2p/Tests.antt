-- ===== src/P2p/Tests.antt =====
-- The sample network at work.
use ecn.Common.{
  ℕ, ◌≡◌, refl, ap, inr, true, false, none, some, List, [], ◌∷◌, arith, leb, length, ok, raise,
}
use ecn.Common.Dict.{lookup, insert}
use ecn.Common.Int.{◌+ℤ◌}
use Prim.Native.String.{count}
use text.Mathlib.TextLemmas.{length-append as count-append}
use ecn.World.{unknown_type}
use ecn.Engine.{execute, handle_mint}
use ecn.Execution.{all_handlers, run_transaction}
use ecn.StateManager.{init, state_hash}
use ecn.Consensus.{ConsensusResult, NodeResult}
use ecn.Node.{new_node}
use ecn.NodeServer.{new_server}
use ecn.Health.{NodeHealth, new_health, excluded, get_or_create}
use ecn.Samples.{
  blank, minting, bank, richer_bank, digest, ed25519, ed25519-IsEd25519, fractions, majority,
}
use ecn.P2p.{
  register, register_all, keys_of, P2pNetwork, new_network, broadcast, get_quorum_threshold,
}
use ecn.P2p.Samples.{clock, only, server, servers, net, link, both}
use ecn.P2p.Exclusion.{Round, run_rounds, named, run_rounds-excluded}
use ecn.P2p.Rounds.{broadcast-heard}
use ecn.P2p.Blackout.{IsRefused, broadcast-IsRefused}

program : Unit {0}
unfolding init execute handle_mint all_handlers run_transaction insert new_node new_server
    new_network state_hash register register_all keys_of get_or_create get_quorum_threshold ◌+ℤ◌
program = tt

-- A variable that is no number leaves the default, as one that is out of range does.
threshold :
    (get_quorum_threshold (λ s. none) (λ x. true) majority "many" ≡ majority)
    × (get_quorum_threshold (λ s. some 7) (λ x. leb x 1) 1 "7" ≡ 1)
    × (get_quorum_threshold (λ s. some 0) (λ x. leb x 1) 1 "0" ≡ 0)
unfolding program
threshold = (refl, refl, refl)

broadcast-heard_example :
    (net' : P2pNetwork ℕ leb digest ed25519 fractions) × (results : List NodeResult)
    × (c : ConsensusResult) × (broadcast ℕ leb digest ed25519 fractions
          (only minting)
          link
          clock
          "now"
          net
          minting
        ≡ (net', ok (results, c)))
    × (length results ≡ 3)
    × (c.agreed_hash ≡ some (state_hash digest false richer_bank))
    × (c.honest_nodes ≡ "N1" ∷ "N3" ∷ [])
    × (net'.history ≡ (minting, results, c) ∷ [])
unfolding program
broadcast-heard_example =
    broadcast-heard ℕ leb digest ed25519 fractions ed25519-IsEd25519 (only minting) minting both
      link net bank false clock "now" richer_bank refl
      (λ x e. omega (arith, ap count e, count-append x "DEADBEEF"))
      (
        record { same_state = refl; same_mode = refl },
        (
          record { same_state = refl; same_mode = refl },
          (record { same_state = refl; same_mode = refl }, tt),
        ),
      )
      (inr (("k1", refl, refl), (("k2", refl, refl), (("k3", refl, refl), tt)))) (omega arith)
      (omega arith)

-- The first node is excluded.
abbrev cut_off : NodeHealth ℕ leb
cut_off = record (new_health ℕ leb "N1") {
  state = excluded;
  consecutive_failures = 5;
  excluded_since = some "long ago";
}

abbrev cut_net : P2pNetwork ℕ leb digest ed25519 fractions
cut_net = record net { health = ("N1", cut_off) ∷ [] }

abbrev mint_round : Round ℕ leb digest ed25519 fractions
mint_round = record {
  json = only minting;
  link = link;
  clock = clock;
  timestamp = "now";
  tx = minting;
}

run_rounds-excluded_example :
    (lookup "N1"
        (run_rounds ℕ leb digest ed25519 fractions (mint_round ∷ mint_round ∷ []) cut_net).health
      ≡ some cut_off)
    × (named ℕ leb digest ed25519 "N1"
          (run_rounds ℕ leb digest ed25519 fractions (mint_round ∷ mint_round ∷ []) cut_net).servers
        ≡ server "k1" "N1" 19000 false ∷ [])
unfolding program
run_rounds-excluded_example =
    run_rounds-excluded ℕ leb digest ed25519 fractions (mint_round ∷ mint_round ∷ []) cut_net "N1"
      cut_off refl refl

abbrev bad_round : Round ℕ leb digest ed25519 fractions
bad_round = record mint_round { json = only blank; tx = blank }

bad_round-IsRefused : IsRefused ℕ leb digest ed25519 fractions servers bad_round
unfolding program
bad_round-IsRefused = record {
  json = record { loads-dumps = refl; not_empty = refl };
  refused = (
    (unknown_type none, refl),
    ((unknown_type none, refl), ((unknown_type none, refl), ((unknown_type none, refl), tt))),
  );
}

abbrev five : List (Round ℕ leb digest ed25519 fractions)
five = bad_round ∷ bad_round ∷ bad_round ∷ bad_round ∷ bad_round ∷ []

broadcast-IsRefused_example :
    (broadcast ℕ leb digest ed25519 fractions
      (only minting)
      link
      clock
      "now"
      (run_rounds ℕ leb digest ed25519 fractions five net)
      minting).1
    ≡ raise (record { responded = 0; servers = 4; min_responses = 2 })
unfolding program
broadcast-IsRefused_example =
    let b = bad_round-IsRefused in
    broadcast-IsRefused ℕ leb digest ed25519 fractions (only minting) link clock "now" five net
      minting (omega arith) (b, (b, (b, (b, (b, tt)))))
      (
        inr (omega arith, omega arith),
        (
          inr (omega arith, omega arith),
          (inr (omega arith, omega arith), (inr (omega arith, omega arith), tt)),
        ),
      )
      (omega arith)
