-- ===== src/Segment/Space.antt =====
-- What a segment asks of its partition: pages that are allocated and freed. The calls of `open` and `close`
-- around them are part of the two operations.
pub mod Partitions
use master_team_projekt.Prelude.{ℕ, ◌≡◌, ◌≢◌, ◌↔◌, Option, some}

-- `none` for an exception.
pub record Space (P : Type 0) : Type 0 where
  pub alloc : P → Option (ℕ × P)
  pub free : ℕ → P → Option P

-- What a segment relies on: an allocated page was free, is not page 0, and is the only page that is free no
-- longer.
pub record IsSpace {P : Type 0} (a : Space P) : Type 1 where
  pub Good : P → Type 0
  pub Free : P → ℕ → Type 0
  pub alloc_free : {s s' : P} {n : ℕ} → Good s → a.alloc s ≡ some (n, s') → Free s n
  pub alloc_nonzero : {s s' : P} {n : ℕ} → Good s → a.alloc s ≡ some (n, s') → n ≢ 0
  pub alloc_good : {s s' : P} {n : ℕ} → Good s → a.alloc s ≡ some (n, s') → Good s'
  pub alloc_others :
      {s s' : P} {n : ℕ}
      → Good s
      → a.alloc s ≡ some (n, s')
      → (m : ℕ) → Free s' m
      → Free s m × (m ≢ n)
