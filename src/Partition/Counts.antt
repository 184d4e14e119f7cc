-- ===== src/Partition/Counts.antt =====
-- `open` and `close` of partition_base.cc: nested calls, and the file descriptor behind them.
use master_team_projekt.Prelude.{ℕ, zero, suc, ◌+◌, ◌<◌, ◌≡◌, sym, ◌∙◌, ap, Bool, true, ltb, arith}
use master_team_projekt.Prelude.Word.{mod_32}
use master_team_projekt.Partition.Monad.{
  Partition, Result, M, bind, ◌>>◌, done, file_exception, return,
}
use master_team_projekt.Partition.Base.{open_file, close_file}

-- The descriptor is open exactly while calls of `open` are outstanding.
abbrev pub IsCounted : Partition → Type 0
IsCounted st = st.file_open ≡ ltb 0 st.open_count

-- A computation leaves a counted state, whether it returns or throws.
abbrev pub Keeps : Result (Unit {0}) → Type 0
Keeps (done _ st) = IsCounted st
Keeps (file_exception st) = IsCounted st
Keeps _ = ⊥

-- `open` and `close` keep the descriptor open exactly while calls of `open` are outstanding, also when
-- the calls of the system fail; they end by returning or with a `FileException`.
pub open_close-Keeps :
    (b : Bool) (st : Partition)
    → IsCounted st
    → st.open_count + 1 < mod_32
    → Keeps (open_file b st) × Keeps (close_file b st)
unfolding open_file close_file
open_close-Keeps b st h small = (opening, closing)
  where
    opening : Keeps (open_file b st)
    opening = ground arith

    closing : Keeps (close_file b st)
    closing = ground arith

pub opens_n : ℕ → M (Unit {0})
opens_n zero = return tt
opens_n (suc n) = open_file true >> opens_n n

pub closes_n : ℕ → M (Unit {0})
closes_n zero = return tt
closes_n (suc n) = close_file true >> closes_n n

abbrev at_count : Partition → ℕ → Partition
at_count st c = record st { open_count = c; file_open = ltb 0 c }

open_file-at_count :
    (st : Partition) (c : ℕ)
    → c + 1 < mod_32
    → open_file true (at_count st c) ≡ done tt (at_count st (c + 1))
unfolding open_file
open_file-at_count st c h = ground arith

close_file-at_count :
    (st : Partition) (c : ℕ) → close_file true (at_count st (c + 1)) ≡ done tt (at_count st c)
unfolding close_file
close_file-at_count st c = ground arith

opens_n-at_count :
    (n c : ℕ) (st : Partition)
    → c + n < mod_32
    → opens_n n (at_count st c) ≡ done tt (at_count st (c + n))
unfolding opens_n
opens_n-at_count zero c st h = ap (λ k. done tt (at_count st k)) (omega arith)
opens_n-at_count (suc n) c st h =
    ap (λ r. bind r (λ _. opens_n n)) (open_file-at_count st c (omega arith))
    ∙ opens_n-at_count n (c + 1) st (omega arith)
    ∙ ap (λ k. done tt (at_count st k)) (omega arith)

closes_n-at_count :
    (n c : ℕ) (st : Partition) → closes_n n (at_count st (c + n)) ≡ done tt (at_count st c)
unfolding closes_n
closes_n-at_count zero c st = ap (λ k. done tt (at_count st k)) (omega arith)
closes_n-at_count (suc n) c st =
    ap (λ k. closes_n (suc n) (at_count st k)) (omega arith)
    ∙ ap (λ r. bind r (λ _. closes_n n)) (close_file-at_count st (c + n))
    ∙ closes_n-at_count n c st

at_count_self : (st : Partition) → IsCounted st → at_count st st.open_count ≡ st
at_count_self st h = ground arith

-- Any number of calls of `open` followed by as many of `close` gives back the state before them, if the
-- calls of the system succeed and the counter does not overflow.
pub opens_n-closes_n :
    (n : ℕ) (st : Partition)
    → IsCounted st
    → st.open_count + n < mod_32
    → (opens_n n >> closes_n n) st ≡ done tt st
opens_n-closes_n n st h small =
    ap (opens_n n >> closes_n n) (sym (at_count_self st h))
    ∙ ap (λ r. bind r (λ _. closes_n n)) (opens_n-at_count n st.open_count st small)
    ∙ closes_n-at_count n st.open_count st
    ∙ ap (done tt) (at_count_self st h)
