-- ===== src/Buffer/Free/Chain.antt =====
-- Chains of control blocks linked by `_nextInChain`, as lists of their numbers.
use master_team_projekt.Prelude.{
  ℕ, ◌==◌, ◌≡◌, ◌≢◌, subst, if◌then◌else◌, Option, none, some, List, [], ◌∷◌, arith,
}

-- Following `next` from `q` gives these blocks and ends.
abbrev pub IsChain : (ℕ → Option ℕ) → Option ℕ → List ℕ → Type 0
IsChain next q [] = q ≡ none
IsChain next q (i ∷ is) = (q ≡ some i) × IsChain next (next i) is

abbrev pub IsAbsent : ℕ → List ℕ → Type 0
IsAbsent i [] = Unit
IsAbsent i (j ∷ js) = (j ≢ i) × IsAbsent i js

-- Relinking a block that is not in a chain leaves the chain as it is.
pub IsChain-relink :
    (next : ℕ → Option ℕ) (i : ℕ) (p q : Option ℕ) (is : List ℕ)
    → IsAbsent i is
    → IsChain next q is
    → IsChain (λ j. if j == i then p else next j) q is
IsChain-relink next i p q [] absent c = c
IsChain-relink next i p q (k ∷ is) absent (head, tail) = (
  head,
  subst (λ r. IsChain (λ j. if j == i then p else next j) r is) (ground (arith, absent.0))
      (IsChain-relink next i p (next k) is absent.1 tail),
)
