-- ===== src/Threading/Queue.antt =====
-- src/threading/queue.hh: a queue that threads share. Each method holds the mutex from its start to its
-- end, so a history of the threads is a list of calls in the order in which they hold it.
pub mod Fifo
use master_team_projekt.Prelude.{
  Bool, true, false, Option, none, some, List, [], ◌∷◌, ◌++◌, if◌then◌else◌,
}

pub record ThreadQueue {ℓ} (A : Type ℓ) : Type ℓ where
  pub valid : Bool
  pub items : List A

module _ {ℓ} {A : Type ℓ} where
  unfoldable pub pop_items : List A → ThreadQueue A → Option A × ThreadQueue A
  pop_items [] q = (none, q)
  pop_items (x ∷ xs) q = (some x, record q { items = xs })

  unfoldable pub wait_items : List A → ThreadQueue A → Option (Option A × ThreadQueue A)
  wait_items [] q = none
  wait_items (x ∷ xs) q = some (some x, record q { items = xs })

  -- `none` if it returns false.
  unfoldable pub try_pop : ThreadQueue A → Option A × ThreadQueue A
  unfolding pop_items
  try_pop q = if q.valid then pop_items q.items q else (none, q)

  -- `none` while it waits.
  unfoldable pub wait_pop : ThreadQueue A → Option (Option A × ThreadQueue A)
  unfolding pop_items
  wait_pop q = if q.valid then wait_items q.items q else some (none, q)

  unfoldable pub push : A → ThreadQueue A → ThreadQueue A
  push x q = record q { items = q.items ++ x ∷ [] }

  unfoldable pub clear : ThreadQueue A → ThreadQueue A
  clear q = record q { items = [] }

  unfoldable pub invalidate : ThreadQueue A → ThreadQueue A
  invalidate q = record q { valid = false }
