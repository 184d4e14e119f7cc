-- ===== src/Partition/Manager.antt =====
-- src/partition/partition_manager.cc: the partitions by id and by name. A partition object is the id under which
-- `_partitions` holds it. What the manager asks of files, of partition objects and of the segment manager is the
-- interface `Services`; these are its state `W`. The order in which a hash map is searched is a parameter.

pub mod Consistent
pub mod Create
pub mod Delete
mod Tests
use master_team_projekt.Prelude.{
  ℕ, ◌+◌, ◌%◌, List, [], ◌∷◌, Option, none, some, Bool, true, false, ◌==◌, leb, ltb, if◌then◌else◌,
}
use master_team_projekt.Infra.Types.{invalid_16}
use master_team_projekt.Tuples.Catalogue.{PartitionTuple, partition_tuple}
use master_team_projekt.Manager.{name_eq}

-- `hasValidDir`, `exists` and `isRawDevice` of a path; the constructors of partitions for a path, a name, a growth
-- and an id, or for a tuple; `remove`; and what is done in the segments: `insertTuple` into the master segment of
-- partitions, `deleteSegments` and `deleteTuplePhysically`. `none` for an exception.
pub record Services (W : Type 0) : Type 0 where
  pub valid_dir : List ℕ → W → Bool
  pub exists : List ℕ → W → Bool
  pub raw_device : List ℕ → W → Bool
  pub create_file : List ℕ → List ℕ → ℕ → ℕ → W → Option W
  pub create_raw : List ℕ → List ℕ → ℕ → W → Option W
  pub open_partition : PartitionTuple → W → Option W
  pub remove : ℕ → W → Option W
  pub insert_tuple : PartitionTuple → W → Option W
  pub delete_segments : ℕ → W → Option W
  pub delete_tuple : ℕ → W → Option W

-- `partitions` tells the ids of `_partitions`, `by_id` is `_partitionsByID` and `by_name` is `_partitionsByName`.
pub record Partitions (W : Type 0) : Type 0 where
  pub counter_partition_id : ℕ
  pub partitions : ℕ → Bool
  pub by_id : ℕ → Option PartitionTuple
  pub by_name : List ℕ → Option ℕ
  pub world : W

-- `failed` is an exception of a service, `undefined` the use of a pointer that was never set.
pub data Response (W : Type 0) (A : Type 0) : Type 0 where
  done : A → Partitions W → Response W A
  partition_not_exists : Partitions W → Response W A
  partition_exists : Partitions W → Response W A
  invalid_path : Partitions W → Response W A
  invalid_argument : Partitions W → Response W A
  partition_exception : Partitions W → Response W A
  out_of_range : Partitions W → Response W A
  failed undefined : Response W A

abbrev pub bind : {W A B : Type 0} → Response W A → (A → Partitions W → Response W B) → Response W B
bind (done a m) f = f a m
bind (partition_not_exists m) f = partition_not_exists m
bind (partition_exists m) f = partition_exists m
bind (invalid_path m) f = invalid_path m
bind (invalid_argument m) f = invalid_argument m
bind (partition_exception m) f = partition_exception m
bind (out_of_range m) f = out_of_range m
bind failed f = failed
bind undefined f = undefined

-- `catch(const std::out_of_range&)` around a step.
abbrev pub catch_out_of_range : {W A : Type 0} → Response W A → Response W A
catch_out_of_range (out_of_range m) = partition_not_exists m
catch_out_of_range (done a m) = done a m
catch_out_of_range (partition_not_exists m) = partition_not_exists m
catch_out_of_range (partition_exists m) = partition_exists m
catch_out_of_range (invalid_path m) = invalid_path m
catch_out_of_range (invalid_argument m) = invalid_argument m
catch_out_of_range (partition_exception m) = partition_exception m
catch_out_of_range failed = failed
catch_out_of_range undefined = undefined

abbrev pub served : {W : Type 0} → Partitions W → Option W → Response W (Unit {0})
served m none = failed
served m (some w) = done tt (record m { world = w })

abbrev pub set_partition : {W : Type 0} → ℕ → Bool → Partitions W → Partitions W
set_partition id b m = record m { partitions = λ i. if i == id then b else m.partitions i }

abbrev pub enter : {W : Type 0} → PartitionTuple → Partitions W → Partitions W
enter t m = record m {
  by_id = λ i. if i == t.id then some t else m.by_id i;
  by_name = λ s. if name_eq s t.name then some t.id else m.by_name s;
}

abbrev pub leave : {W : Type 0} → ℕ → PartitionTuple → Partitions W → Partitions W
leave id t m = record m {
  by_id = λ i. if i == id then none else m.by_id i;
  by_name = λ s. if name_eq s t.name then none else m.by_name s;
}

-- `load`: the tuples, and the next id of 8 bits behind the largest of them.
unfoldable pub load_partitions :
    {W : Type 0} → List PartitionTuple → ℕ → Partitions W → Partitions W
load_partitions [] max_counter m = record m { counter_partition_id = (max_counter + 1) % 256 }
load_partitions (t ∷ ts) max_counter m =
    load_partitions ts (if ltb max_counter t.id then t.id else max_counter) (enter t m)

abbrev pub has_path : List ℕ → Option PartitionTuple → Bool
has_path path none = false
has_path path (some t) = name_eq t.path path

-- `std::find_if` for a path over the ids in the order of the hash map.
unfoldable pub find_path : {W : Type 0} → List ℕ → List ℕ → Partitions W → Option ℕ
find_path [] path m = none
find_path (i ∷ is) path m = if has_path path (m.by_id i) then some i else find_path is path m

-- `getPartitionT` for an id and for a name.
abbrev pub tuple_or_not_exists :
    {W : Type 0} → Partitions W → Option PartitionTuple → Response W PartitionTuple
tuple_or_not_exists m none = partition_not_exists m
tuple_or_not_exists m (some t) = done t m

unfoldable pub get_partition_t : {W : Type 0} → ℕ → Partitions W → Response W PartitionTuple
get_partition_t id m = tuple_or_not_exists m (m.by_id id)

abbrev pub with_id : {W A : Type 0} → Option ℕ → (ℕ → Response W A) → Partitions W → Response W A
with_id none f m = partition_not_exists m
with_id (some id) f m = catch_out_of_range (f id)

unfoldable pub get_partition_t_by_name :
    {W : Type 0} → List ℕ → Partitions W → Response W PartitionTuple
unfolding get_partition_t
get_partition_t_by_name name m = with_id (m.by_name name) (λ id. get_partition_t id m) m

unfoldable pub get_partition_id : {W : Type 0} → List ℕ → Partitions W → Response W ℕ
get_partition_id name m = with_id (m.by_name name) (λ id. done id m) m

module _ {W : Type 0} (services : Services W) where
  unfoldable pub create_partition_sub : PartitionTuple → Partitions W → Response W (Unit {0})
  create_partition_sub t m =
      let entered = enter t m in served entered (services.insert_tuple t entered.world)

  -- The object for a tuple of the types 1 and 2; for others the pointer is not set.
  unfoldable pub open_object : ℕ → PartitionTuple → Partitions W → Response W ℕ
  open_object id t m =
      if t.type == 1
      then bind (served m (services.open_partition t m.world))
          (λ u n. at_id (set_partition t.id true n))
      else if t.type == 2
      then bind (served m (services.open_partition t m.world))
          (λ u n. at_id (set_partition t.id true n))
      else undefined
    where
      at_id : Partitions W → Response W ℕ
      at_id p = if p.partitions id then done id p else partition_not_exists p

  unfoldable pub get_partition : ℕ → Partitions W → Response W ℕ
  unfolding get_partition_t open_object
  get_partition id m =
      if m.partitions id then done id m else bind (get_partition_t id m) (λ t n. open_object id t n)

  unfoldable pub get_partition_by_name : List ℕ → Partitions W → Response W ℕ
  unfolding get_partition
  get_partition_by_name name m = with_id (m.by_name name) (λ id. get_partition id m) m

  -- The new object has the next id and is entered with its tuple.
  unfoldable pub add_partition :
      List ℕ → List ℕ → ℕ → ℕ → Option W → Partitions W → Response W (ℕ × Bool)
  unfolding create_partition_sub
  add_partition path name type growth none m = failed
  add_partition path name type growth (some w) m =
      let id = m.counter_partition_id in
      let n = record m { counter_partition_id = (id + 1) % 256; world = w } in
      bind
        (create_partition_sub (partition_tuple id name path type growth) (set_partition id true n))
        (λ u p. done (id, true) p)

  -- A partition that is known by its path.
  abbrev pub known_path : Option ℕ → Partitions W → Response W (ℕ × Bool) → Response W (ℕ × Bool)
  known_path none m otherwise = otherwise
  known_path (some id) m otherwise = bind (get_partition id m) (λ i n. done (i, false) n)

  abbrev pub unless_named : Option ℕ → Partitions W → Response W (ℕ × Bool) → Response W (ℕ × Bool)
  unless_named none m otherwise = otherwise
  unless_named (some id) m otherwise = partition_exists m

  unfoldable pub create_partition_file_instance :
      List ℕ → List ℕ → List ℕ → ℕ → Partitions W → Response W (ℕ × Bool)
  unfolding get_partition add_partition find_path
  create_partition_file_instance order path name growth m =
      if services.valid_dir path m.world
      then if services.exists path m.world
        then known_path (find_path order path m) m (partition_exception m)
        else unless_named (m.by_name name) m (
            if leb 8 growth
            then add_partition path name 1 growth
                (services.create_file path name growth m.counter_partition_id m.world) m
            else invalid_argument m)
      else invalid_path m

  unfoldable pub create_partition_raw_instance :
      List ℕ → List ℕ → List ℕ → Partitions W → Response W (ℕ × Bool)
  unfolding get_partition add_partition find_path
  create_partition_raw_instance order path name m =
      if services.exists path m.world
      then if services.raw_device path m.world
        then known_path (find_path order path m) m (
            unless_named (m.by_name name) m (
              add_partition path name 0 invalid_16
                (services.create_raw path name m.counter_partition_id m.world) m))
        else invalid_path m
      else invalid_path m

  -- The entries are erased behind the tuple on disk.
  abbrev pub forget_partition : ℕ → Option PartitionTuple → Partitions W → Response W (Unit {0})
  forget_partition id none m = out_of_range m
  forget_partition id (some t) m =
      bind (served m (services.delete_tuple id m.world)) (λ u n. done tt (leave id t n))

  unfoldable pub delete_partition : ℕ → Partitions W → Response W (Unit {0})
  unfolding get_partition
  delete_partition id m = bind (served m (services.delete_segments id m.world)) (λ u n.
      bind (get_partition id n) (λ i p.
        bind (served p (services.remove i p.world))
          (λ v q. forget_partition id (q.by_id id) (set_partition id false q))))

  unfoldable pub delete_partition_by_name : List ℕ → Partitions W → Response W (Unit {0})
  unfolding delete_partition
  delete_partition_by_name name m = with_id (m.by_name name) (λ id. delete_partition id m) m

  -- `createMasterPartition` for a path, with the tuple that it makes.
  unfoldable pub create_master_partition :
      List ℕ → List ℕ → ℕ → Partitions W → Response W PartitionTuple
  create_master_partition master path growth m =
      let id = m.counter_partition_id in
      let n = record m { counter_partition_id = (id + 1) % 256 } in
      bind (served n (services.create_file path master growth id n.world))
        (λ u p. done (partition_tuple id master path 1 growth) (set_partition id true p))
