-- ===== src/Segment/Fsm/Chain.antt =====
-- The chain of the free space management pages, each of which names the next, and the last 0.
pub use master_team_projekt.Prelude.{count, count-append}
use master_team_projekt.Prelude.{ℕ, ◌≤◌, ◌<◌, ◌≡◌, ◌≢◌, refl, ap, ◌∙◌, List, [], ◌∷◌, ◌++◌, arith}
use master_team_projekt.Interpreter.Fsm.{FsmPage}

abbrev pub head_or : List ℕ → ℕ → ℕ
head_or [] e = e
head_or (x ∷ xs) e = x

abbrev pub last_of : ℕ → List ℕ → ℕ
last_of f [] = f
last_of f (g ∷ gs) = last_of g gs

abbrev pub Linked : (ℕ → FsmPage) → List ℕ → Type 0
Linked c [] = Unit
Linked c (f ∷ fs) = ((c f).next_fsm ≡ head_or fs 0) × Linked c fs

pub Linked-congr :
    (c d : ℕ → FsmPage) (fs : List ℕ)
    → ((f : ℕ) → 0 < count f fs → (d f).next_fsm ≡ (c f).next_fsm)
    → Linked c fs
    → Linked d fs
Linked-congr c d [] same h = h
Linked-congr c d (f ∷ fs) same (first, rest) = (
  same f (ground arith) ∙ first,
  Linked-congr c d fs (λ g in_list. same g (omega (arith, in_list))) rest,
)

pub count-last_of : (f : ℕ) (fs : List ℕ) → 0 < count (last_of f fs) (f ∷ fs)
count-last_of f [] = ground arith
count-last_of f (g ∷ gs) = omega (arith, count-last_of g gs)

pub last_of-append : (f : ℕ) (fs : List ℕ) (n : ℕ) → last_of f (fs ++ (n ∷ [])) ≡ n
last_of-append f [] n = refl
last_of-append f (g ∷ gs) n = last_of-append g gs n

-- A page behind the last one: `d` differs from `c` in the last page, which names the new one, and in the
-- new one, which names none.
pub Linked-append :
    (c d : ℕ → FsmPage) (f : ℕ) (fs : List ℕ) (n : ℕ)
    → ((m : ℕ) → count m (f ∷ fs) ≤ 1)
    → (d (last_of f fs)).next_fsm ≡ n
    → (d n).next_fsm ≡ 0
    → ((m : ℕ) → 0 < count m (f ∷ fs) → m ≢ last_of f fs → (d m).next_fsm ≡ (c m).next_fsm)
    → Linked c (f ∷ fs)
    → Linked d ((f ∷ fs) ++ (n ∷ []))
Linked-append c d f [] n once to_new end same h = (to_new, (end, tt))
Linked-append c d f (g ∷ gs) n once to_new end same (first, rest) = (
  same f (ground arith) (λ e. twice (count-last_of g gs) (ap (λ m. count m (g ∷ gs)) e) (once f))
      ∙ first,
  Linked-append c d g gs n (λ m. omega (arith, once m)) to_new end
      (λ m in_list. same m (omega (arith, in_list))) rest,
)
  where
    twice :
        0 < count (last_of g gs) (g ∷ gs)
        → count f (g ∷ gs) ≡ count (last_of g gs) (g ∷ gs)
        → count f (f ∷ (g ∷ gs)) ≤ 1
        → ⊥
    twice in_rest same_count le = ground (arith, in_rest, same_count, le)
