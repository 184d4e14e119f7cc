-- ===== src/Tuples/Tests.antt =====
-- A tuple of each kind.
use master_team_projekt.Prelude.{ℕ, ◌≡◌, List, [], ◌∷◌, ◌++◌, some, length, arith}
use master_team_projekt.Tuples.Catalogue.{
  PartitionTuple, partition_tuple, SegmentTuple, segment_tuple, segment_to_disk, segment_to_memory,
  EmployeeTuple, employee,
}
use master_team_projekt.Tuples.Codec.{segment_to_memory-to_disk}

-- The bytes of "st".
abbrev text : List ℕ
text = 115 ∷ 116 ∷ []

abbrev partition_a : PartitionTuple
partition_a = partition_tuple 1 text text 2 300

abbrev segment_a : SegmentTuple
segment_a = segment_tuple 1 2 text 3 70000

abbrev employee_a : EmployeeTuple
employee_a = employee 4 5 60 text

segment_to_memory-to_disk_example :
    (segment_to_memory (segment_to_disk segment_a ++ (7 ∷ [])) ≡ some (segment_a, 7 ∷ []))
    × (length (segment_to_disk segment_a) ≡ segment_a.size)
segment_to_memory-to_disk_example =
    segment_to_memory-to_disk 1 2 text 3 70000 (7 ∷ []) (omega arith) (omega arith) (omega arith)
      (omega arith) (λ e. omega (arith, e), (λ e. omega (arith, e), tt))
