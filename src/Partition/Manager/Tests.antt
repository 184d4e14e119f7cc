-- ===== src/Partition/Manager/Tests.antt =====
-- A manager with one partition, which is not open yet.
use master_team_projekt.Prelude.{ℕ, ◌+◌, [], ◌∷◌, none, some, true, false, ◌==◌, if◌then◌else◌}
use master_team_projekt.Tuples.Catalogue.{PartitionTuple, partition_tuple}
use master_team_projekt.Manager.{name_eq}
use master_team_projekt.Partition.Manager.{Services, Partitions}

-- The state counts the calls; the path 112 exists.
abbrev counting : Services ℕ
counting = record {
  valid_dir = λ path w. true;
  exists = λ path w. name_eq path (112 ∷ []);
  raw_device = λ path w. false;
  create_file = λ path name growth id w. some (w + 1);
  create_raw = λ path name id w. none;
  open_partition = λ t w. some (w + 1);
  remove = λ id w. some (w + 1);
  insert_tuple = λ t w. some (w + 1);
  delete_segments = λ id w. some (w + 1);
  delete_tuple = λ id w. some (w + 1);
}

abbrev master : PartitionTuple
master = partition_tuple 1 (109 ∷ []) (112 ∷ []) 1 8

abbrev manager : Partitions ℕ
manager = record {
  counter_partition_id = 2;
  partitions = λ i. false;
  by_id = λ i. if i == 1 then some master else none;
  by_name = λ s. if name_eq s (109 ∷ []) then some 1 else none;
  world = 0;
}
