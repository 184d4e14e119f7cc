-- ===== src/Tuples/Catalogue.antt =====
-- src/infra/partition_t.{hh,cc}, segment_t.{hh,cc} and employee_t.{hh,cc}: the tuples of the two catalogues
-- and of the employees. Each carries the size of its form on disk, as `Tuple` of tuple.hh does.
use master_team_projekt.Prelude.{ℕ, ◌+◌, List, ◌++◌, length}
use master_team_projekt.Prelude.Word.{add_64}
use master_team_projekt.Tuples.Bytes.{Reader, ◌>>=◌, return, put_le, get_le, put_string, get_string}

pub record PartitionTuple : Type 0 where
  pub size : ℕ
  pub id : ℕ
  pub name : List ℕ
  pub path : List ℕ
  pub type : ℕ
  pub growth : ℕ

-- The constructor and `init`.
abbrev pub partition_tuple : ℕ → List ℕ → List ℕ → ℕ → ℕ → PartitionTuple
partition_tuple id name path type growth = record {
  size = 1 + (length name + 1) + (length path + 1) + 1 + 2;
  id = id;
  name = name;
  path = path;
  type = type;
  growth = growth;
}

unfoldable pub partition_to_disk : PartitionTuple → List ℕ
partition_to_disk t =
    put_le 1 t.id
    ++ (put_string t.name ++ (put_string t.path ++ (put_le 1 t.type ++ put_le 2 t.growth)))

unfoldable pub partition_to_memory : Reader PartitionTuple
partition_to_memory = do
  id ← get_le 1
  name ← get_string
  path ← get_string
  type ← get_le 1
  growth ← get_le 2
  return (partition_tuple id name path type growth)

pub record SegmentTuple : Type 0 where
  pub size : ℕ
  pub part_id : ℕ
  pub id : ℕ
  pub name : List ℕ
  pub type : ℕ
  pub first_page : ℕ

abbrev pub segment_tuple : ℕ → ℕ → List ℕ → ℕ → ℕ → SegmentTuple
segment_tuple part_id id name type first_page = record {
  size = 1 + 2 + (length name + 1) + 1 + 4;
  part_id = part_id;
  id = id;
  name = name;
  type = type;
  first_page = first_page;
}

unfoldable pub segment_to_disk : SegmentTuple → List ℕ
segment_to_disk t =
    put_le 1 t.part_id
    ++ (put_le 2 t.id ++ (put_string t.name ++ (put_le 1 t.type ++ put_le 4 t.first_page)))

unfoldable pub segment_to_memory : Reader SegmentTuple
segment_to_memory = do
  part_id ← get_le 1
  id ← get_le 2
  name ← get_string
  type ← get_le 1
  first_page ← get_le 4
  return (segment_tuple part_id id name type first_page)

-- The salary, a `double`, is the number that its 64 bits make.
pub record EmployeeTuple : Type 0 where
  pub size : ℕ
  pub id : ℕ
  pub salary : ℕ
  pub age : ℕ
  pub name : List ℕ

abbrev pub employee : ℕ → ℕ → ℕ → List ℕ → EmployeeTuple
employee id salary age name = record {
  size = 8 + 8 + 1 + (length name + 1);
  id = id;
  salary = salary;
  age = age;
  name = name;
}

-- The constructor and `init`, which take the next number of `_idCount`.
unfoldable pub employee_tuple : List ℕ → ℕ → ℕ → ℕ → EmployeeTuple × ℕ
employee_tuple name salary age id_count = (employee id_count salary age name, add_64 id_count 1)

unfoldable pub employee_to_disk : EmployeeTuple → List ℕ
employee_to_disk t = put_le 8 t.id ++ (put_le 8 t.salary ++ (put_le 1 t.age ++ put_string t.name))

unfoldable pub employee_to_memory : Reader EmployeeTuple
employee_to_memory = do
  id ← get_le 8
  salary ← get_le 8
  age ← get_le 1
  name ← get_string
  return (employee id salary age name)
