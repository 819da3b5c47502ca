-- ===== src/Consensus/Votes.antt =====
-- Counting the votes and choosing the winner.
use ecn.Common.{
  ℕ, ◌+◌, ◌≤◌, ◌<◌, max, String, ◌≡◌, refl, ◌≢◌, inl, inr, true, false, none, some, List, [], ◌∷◌,
  arith, leb, ◌==◌, Bool-cases, length, keep,
}
use ecn.Common.Text.{
  str_lt, eq_iff, str_lt_irrefl, str_lt_trans, str_lt_cases, str_ge_trans, listed,
}
use ecn.Common.Dict.{Dict, lookup, get_or, insert, lookup-insert}
use ecn.Consensus.{
  NodeResult, sum_votes, count_votes, max_votes, candidates, min_text, min_of, select_winner,
  has_hash,
}

-- How many results carry a hash, counted directly.
abbrev pub votes_for : String → List NodeResult → ℕ
votes_for h results = length (keep (has_hash h) results)

abbrev votes_of : String → Dict ℕ → ℕ
votes_of h d = get_or h d 0

-- The counter is right for every hash, also for those that nobody reported.
pub count_votes-votes_for :
    (h : String) (results : List NodeResult)
    → get_or h (count_votes results) 0 ≡ votes_for h results
unfolding count_votes
count_votes-votes_for h [] = refl
count_votes-votes_for h (r ∷ results) = ground (
  arith,
  lookup-insert h r.state_hash (get_or r.state_hash (count_votes results) 0 + 1)
      (count_votes results),
  count_votes-votes_for h results,
  count_votes-votes_for r.state_hash results,
  eq_iff h r.state_hash,
  eq_iff r.state_hash h,
)

sum_votes-insert :
    (h : String) (v : ℕ) (d : Dict ℕ) → sum_votes (insert h v d) + get_or h d 0 ≡ sum_votes d + v
unfolding sum_votes insert
sum_votes-insert h v [] = omega arith
sum_votes-insert h v ((j, w) ∷ d) = ground (arith, sum_votes-insert h v d)

-- Every result is counted once.
pub sum_votes-count_votes :
    (results : List NodeResult) → sum_votes (count_votes results) ≡ length results
unfolding count_votes sum_votes
sum_votes-count_votes [] = refl
sum_votes-count_votes (r ∷ results) = ground (
  arith,
  sum_votes-insert r.state_hash (get_or r.state_hash (count_votes results) 0 + 1)
      (count_votes results),
  sum_votes-count_votes results,
)

max_votes-le : (h : String) (d : Dict ℕ) → get_or h d 0 ≤ max_votes d
unfolding max_votes
max_votes-le h [] = omega arith
max_votes-le h ((j, v) ∷ d) = ground (arith, max_votes-le h d)

-- No key twice: what the counter keeps.
abbrev IsNodup : Dict ℕ → Type 0
IsNodup [] = Unit
IsNodup ((h, v) ∷ d) = (lookup h d ≡ none) × IsNodup d

insert-IsNodup : (h : String) (v : ℕ) (d : Dict ℕ) → IsNodup d → IsNodup (insert h v d)
unfolding insert
insert-IsNodup h v [] n = (refl, tt)
insert-IsNodup h v ((j, w) ∷ d) n =
    ground (arith, insert-IsNodup h v d n.1, lookup-insert j h v d, eq_iff j h, eq_iff h j)

count_votes-IsNodup : (results : List NodeResult) → IsNodup (count_votes results)
unfolding count_votes
count_votes-IsNodup [] = tt
count_votes-IsNodup (r ∷ results) =
    insert-IsNodup r.state_hash _ (count_votes results) (count_votes-IsNodup results)

-- The candidates are the hashes with that many votes.
listed-candidates :
    (k : String) (m : ℕ) (d : Dict ℕ)
    → IsNodup d
    → listed k (candidates m d) ≡ (elim (lookup k d) [ none ↦ false | some v ↦ v == m ])
unfolding candidates listed
listed-candidates k m [] n = refl
listed-candidates k m ((j, v) ∷ d) n = ground (arith, eq_iff k j, listed-candidates k m d n.1)

max_votes-attained :
    (j : String) (v : ℕ) (d : Dict ℕ)
    → IsNodup ((j, v) ∷ d)
    → (h : String) × (lookup h ((j, v) ∷ d) ≡ some (max_votes ((j, v) ∷ d)))
unfolding max_votes
max_votes-attained j v [] n = (j, ground (arith, eq_iff j j))
max_votes-attained j v ((i, w) ∷ d) n =
    let (h, e) = max_votes-attained i w d n.1 in
    elim (Bool-cases (leb (max w (max_votes d)) v)) [
      | inl here ↦ (j, ground (arith, eq_iff j j))
      | inr there ↦ (h, ground (arith, e, eq_iff h j))
    ]

listed-min_text : (h : String) (hs : List String) → listed (min_text h hs) (h ∷ hs) ≡ true
unfolding min_text listed
listed-min_text h [] = ground (arith, eq_iff h h)
listed-min_text h (k ∷ hs) = ground (arith, listed-min_text k hs, listed-min_text h hs)

min_text-le : (h : String) (hs : List String) → str_lt h (min_text h hs) ≡ false
unfolding min_text
min_text-le h [] = str_lt_irrefl h
min_text-le h (k ∷ hs) = ground (
  arith,
  min_text-le h hs,
  min_text-le k hs,
  str_ge_trans (min_text k hs) k h,
  str_lt_cases h k,
  str_lt_trans h k h,
  str_lt_irrefl h,
  eq_iff h k,
)

min_text-least :
    (h k : String) (hs : List String) → listed k (h ∷ hs) ≡ true → str_lt k (min_text h hs) ≡ false
unfolding listed min_text
min_text-least h k [] e = ground (arith, eq_iff k h, str_lt_irrefl h)
min_text-least h k (j ∷ hs) e = elim (Bool-cases (str_lt j h)) [
  | inl first ↦ rw first (
      ground (
        arith,
        e,
        first,
        eq_iff k h,
        eq_iff k j,
        str_lt_trans h j h,
        str_lt_trans j h j,
        str_lt_irrefl j,
        min_text-le j hs,
        str_ge_trans (min_text j hs) j h,
        min_text-least j k hs,
      ))
  | inr later ↦ rw later (
      ground (
        arith,
        e,
        later,
        eq_iff k h,
        eq_iff k j,
        min_text-le h hs,
        str_ge_trans (min_text h hs) h j,
        min_text-least h k hs,
      ))
]

max_votes_pos : (results : List NodeResult) → results ≢ [] → 0 < max_votes (count_votes results)
max_votes_pos [] ne = absurd (ne refl)
max_votes_pos (r ∷ rs) ne = ground (
  arith,
  max_votes-le r.state_hash (count_votes (r ∷ rs)),
  count_votes-votes_for r.state_hash (r ∷ rs),
  eq_iff r.state_hash r.state_hash,
)

some_candidate :
    (d : Dict ℕ)
    → IsNodup d
    → 0 < max_votes d
    → (h : String) × (listed h (candidates (max_votes d) d) ≡ true)
some_candidate [] n p = absurd (unfold max_votes in (omega arith))
some_candidate ((j, v) ∷ d) n p =
    let (h, e) = max_votes-attained j v d n in
    (h, ground (arith, e, listed-candidates h (max_votes ((j, v) ∷ d)) ((j, v) ∷ d) n))

-- The least of a list of texts that is not empty.
pick_least :
    (l : List String)
    → (h : String) × (listed h l ≡ true)
    → (w : String) × (min_of l ≡ some w)
      × (listed w l ≡ true)
      × ((k : String) → listed k l ≡ true → str_lt k w ≡ false)
pick_least [] (h, e) = absurd (unfold listed in (cc))
pick_least (h ∷ hs) _ = (min_text h hs, refl, listed-min_text h hs, λ k e. min_text-least h k hs e)

-- A hash that the votes choose: nobody has more, and of those with as many it comes first.
pub record IsWinner (results : List NodeResult) (h : String) : Type 0 where
  pub most : (k : String) → votes_for k results ≤ votes_for h results
  pub least : (k : String) → votes_for k results ≡ votes_for h results → str_lt k h ≡ false

module _ (results : List NodeResult) where
  abbrev counts : Dict ℕ
  counts = count_votes results

  -- What the minimum of the candidates is worth.
  candidate-IsWinner :
      (h : String)
      → 0 < max_votes counts
      → listed h (candidates (max_votes counts) counts) ≡ true
      → ((k : String) → listed k (candidates (max_votes counts) counts) ≡ true → str_lt k h ≡ false)
      → IsWinner results h
  candidate-IsWinner h p e least =
      let top : votes_for h results ≡ max_votes counts = ground (
        arith,
        e,
        listed-candidates h (max_votes counts) counts (count_votes-IsNodup results),
        count_votes-votes_for h results,
      ) in
      record {
        most = λ k. omega (arith, top, max_votes-le k counts, count_votes-votes_for k results);
        least = λ k same. least k (
            ground (
              arith,
              top,
              listed-candidates k (max_votes counts) counts (count_votes-IsNodup results),
              count_votes-votes_for k results,
            ));
      }

  -- Whenever there are votes a winner is chosen, and it has the most votes, the first of those
  -- with as many.
  pub select_winner-IsWinner :
      results ≢ [] → (h : String) × (select_winner counts ≡ some h) × IsWinner results h
  unfolding select_winner
  select_winner-IsWinner ne =
      let positive = max_votes_pos results ne in
      let (h, chosen, is_candidate, least) =
        pick_least (candidates (max_votes counts) counts)
          (some_candidate counts (count_votes-IsNodup results) positive) in
      (h, chosen, candidate-IsWinner h positive is_candidate least)
