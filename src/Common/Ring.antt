-- ===== src/Common/Ring.antt =====
-- A `deque` with a maximal length: what is appended last stays.
use ecn.Common.{
  ℕ, ◌+◌, ◌-◌, ◌≤◌, List, [], ◌∷◌, ◌++◌, arith, length, drop, length-append, length-drop,
}

-- `append`
unfoldable pub push {ℓ} : {A : Type ℓ} → ℕ → List A → A → List A
push maxlen buffer x = drop (length buffer + 1 - maxlen) (buffer ++ x ∷ [])

pub length-push {ℓ} :
    {A : Type ℓ} (maxlen : ℕ) (buffer : List A) (x : A) → length (push maxlen buffer x) ≤ maxlen
unfolding push
length-push maxlen buffer x = omega (
  arith,
  length-drop (length buffer + 1 - maxlen) (buffer ++ x ∷ []),
  length-append buffer (x ∷ []),
)
