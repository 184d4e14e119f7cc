-- ===== src/Threading/Tests.antt =====
-- A queue of numbers.
use master_team_projekt.Prelude.{ℕ, ◌≡◌, true, List, [], ◌∷◌, ◌++◌}
use master_team_projekt.Threading.Queue.{ThreadQueue}
use master_team_projekt.Threading.Queue.Fifo.{
  Call, pushes, tries, waits, invalidates, run, pushed, run-pushed,
}

abbrev two : ThreadQueue ℕ
two = record { valid = true; items = 1 ∷ 2 ∷ [] }

abbrev calls : List (Call ℕ)
calls = tries ∷ pushes 3 ∷ waits ∷ invalidates ∷ tries ∷ []

run-pushed_example : (run calls two).0 ++ (run calls two).1.items ≡ two.items ++ pushed calls
run-pushed_example = run-pushed calls two
