-- ===== src/Partition/Manager/Delete.antt =====
-- `deletePartition` keeps the catalogues in order.
use master_team_projekt.Prelude.{ℕ, ◌≡◌, ◌≢◌, List, Option, none, some, true}
use master_team_projekt.Partition.Manager.{Partitions}
use master_team_projekt.Partition.Manager.Consistent.{IsCatalogue}

-- The catalogues agree but for the objects, of which that of `id` may have gone.
record IsLeft {W : Type 0} (id : ℕ) (m n : Partitions W) : Type 0 where
  pub ids : n.by_id ≡ m.by_id
  pub names : n.by_name ≡ m.by_name
  pub counter : n.counter_partition_id ≡ m.counter_partition_id
  pub objects : (i : ℕ) → i ≢ id → m.partitions i ≡ true → n.partitions i ≡ true

-- The partition is found neither by its id nor by its name, and all others are found as before.
pub record IsDeleted {W : Type 0} (id : ℕ) (m n : Partitions W) : Type 0 where
  pub consistent : IsCatalogue n
  pub no_tuple : n.by_id id ≡ none
  pub no_name : (s : List ℕ) → n.by_name s ≢ some id
  pub others : (i : ℕ) → i ≢ id → n.by_id i ≡ m.by_id i

-- Why `deletePartition` throws: the partition is not in the catalogue.
abbrev pub IsMissing : {W : Type 0} → ℕ → Partitions W → Partitions W → Type 0
IsMissing id m n = (m.by_id id ≡ none) × IsCatalogue n
