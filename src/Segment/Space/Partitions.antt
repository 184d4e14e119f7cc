-- ===== src/Segment/Space/Partitions.antt =====
-- A formatted partition keeps what a segment relies on.
use master_team_projekt.Prelude.{ℕ, ◌<◌, ◌≡◌, Bool, Option, none, some, arith}
use master_team_projekt.Partition.Monad.{
  Partition, Result, done, file_exception, partition_full, out_of_fuel,
}
use master_team_projekt.Partition.Base.{alloc_page, free_page_of}
use master_team_projekt.Partition.Alloc.{IsFormatted}
use master_team_projekt.Partition.FreeSet.{IsFree, Removes, alloc_page-Removes}
use master_team_projekt.Segment.Space.{Space, IsSpace}

abbrev pub allocated : Result ℕ → Option (ℕ × Partition)
allocated (done n st) = some (n, st)
allocated _ = none

abbrev pub freed : Result (Unit {0}) → Option Partition
freed (done _ st) = some st
freed _ = none

-- `allocPage` and `freePage` of an open partition.
abbrev pub partition_space : Bool → Space Partition
partition_space closes = record {
  alloc = λ st. allocated (alloc_page closes st);
  free = λ n st. freed (free_page_of n st);
}

done_of_allocated :
    (r : Result ℕ) (n : ℕ) (st : Partition) → allocated r ≡ some (n, st) → r ≡ done n st
done_of_allocated (done m s) n st e = cc
done_of_allocated (file_exception s) n st e = cc
done_of_allocated (partition_full p i s) n st e = cc
done_of_allocated out_of_fuel n st e = cc

pub partition_space-IsSpace : (closes : Bool) → IsSpace (partition_space closes)
partition_space-IsSpace closes = record {
  Good = λ st. IsFormatted st × (0 < st.size_in_pages);
  Free = IsFree;
  alloc_free = λ g e. (removes g e).was_free;
  alloc_nonzero = λ g e. omega (arith, (removes g e).was_free.number);
  alloc_good = λ g e. ((removes g e).formatted, omega (arith, g.1, (removes g e).same_size));
  alloc_others = λ g e. (removes g e).from_before;
}
  where
    removes :
        {s s' : Partition} {n : ℕ}
        → IsFormatted s × (0 < s.size_in_pages)
        → allocated (alloc_page closes s) ≡ some (n, s')
        → Removes s n s'
    removes {s} {s'} {n} g e =
        alloc_page-Removes closes s s' n g.0 g.1 (done_of_allocated (alloc_page closes s) n s' e)
