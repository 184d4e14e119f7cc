-- ===== src/Manager.antt =====
-- src/segment/segment_manager.{hh,cc}: the segments by id and by name. A segment object is the id under
-- which `_segments` holds it. What the manager asks of the objects is the interface `Objects`; the pages and
-- the objects themselves are its state `W`.
pub mod Names
pub mod Consistent
mod Tests
use master_team_projekt.Prelude.{
  ℕ, ◌+◌, ◌%◌, List, [], ◌∷◌, Option, none, some, Bool, true, false, ◌==◌, ◌&&◌, ◌||◌, leb,
  if◌then◌else◌,
}
use master_team_projekt.Prelude.Word.{add_16}
use master_team_projekt.Tuples.Catalogue.{SegmentTuple, segment_tuple}

abbrev pub name_eq : List ℕ → List ℕ → Bool
name_eq [] [] = true
name_eq [] (d ∷ ds) = false
name_eq (c ∷ cs) [] = false
name_eq (c ∷ cs) (d ∷ ds) = c == d && name_eq cs ds

-- `none` for an exception. `create` is the constructor for an id and a partition, with the first index page of
-- the new segment; `load` the other constructor with `loadSegment`; `insert` and `remove` are `insertTuple`
-- of a tuple and the search and deletion of `deleteTuplePhysically` on the segment of the given id.
pub record Objects (W : Type 0) : Type 0 where
  pub create : ℕ → ℕ → W → Option (ℕ × W)
  pub load : SegmentTuple → W → Option W
  pub erase : ℕ → W → Option W
  pub insert : ℕ → SegmentTuple → W → Option W
  pub remove : ℕ → ℕ → W → Option W

-- `segments` tells the ids of `_segments`, `by_id` is `_segmentsByID` and `by_name` is `_segmentsByName`.
pub record Manager (W : Type 0) : Type 0 where
  pub counter : ℕ
  pub segments : ℕ → Bool
  pub by_id : ℕ → Option SegmentTuple
  pub by_name : List ℕ → Option ℕ
  pub world : W

-- `failed` is an exception of an object, `undefined` the use of a null pointer.
pub data Reply {ℓ} (W : Type 0) (A : Type ℓ) : Type ℓ where
  done : A → Manager W → Reply W A
  segment_exists : Manager W → Reply W A
  segment_not_exists : Manager W → Reply W A
  out_of_range : Manager W → Reply W A
  failed undefined : Reply W A

abbrev pub bind {ℓ κ} :
    {W : Type 0} {A : Type ℓ} {B : Type κ} → Reply W A → (A → Manager W → Reply W B) → Reply W B
bind (done a m) f = f a m
bind (segment_exists m) f = segment_exists m
bind (segment_not_exists m) f = segment_not_exists m
bind (out_of_range m) f = out_of_range m
bind failed f = failed
bind undefined f = undefined

-- `catch(const std::out_of_range&)` around a step.
abbrev pub or_not_exists {ℓ} : {W : Type 0} {A : Type ℓ} → Reply W A → Reply W A
or_not_exists (out_of_range m) = segment_not_exists m
or_not_exists (done a m) = done a m
or_not_exists (segment_exists m) = segment_exists m
or_not_exists (segment_not_exists m) = segment_not_exists m
or_not_exists failed = failed
or_not_exists undefined = undefined

abbrev pub with_world : {W : Type 0} → Manager W → Option W → Reply W (Unit {0})
with_world m none = failed
with_world m (some w) = done tt (record m { world = w })

abbrev pub set_segment : {W : Type 0} → ℕ → Bool → Manager W → Manager W
set_segment id b m = record m { segments = λ i. if i == id then b else m.segments i }

abbrev pub set_id : {W : Type 0} → ℕ → Option SegmentTuple → Manager W → Manager W
set_id id t m = record m { by_id = λ i. if i == id then t else m.by_id i }

abbrev pub set_name : {W : Type 0} → List ℕ → Option ℕ → Manager W → Manager W
set_name name id m = record m { by_name = λ s. if name_eq s name then id else m.by_name s }

abbrev pub add_tuple : {W : Type 0} → SegmentTuple → Manager W → Manager W
add_tuple t m = set_name t.name (some t.id) (set_id t.id (some t) m)

-- `load`: the catalogue, and the next id behind the largest of it.
unfoldable pub load_tuples : {W : Type 0} → List SegmentTuple → ℕ → Manager W → Manager W
load_tuples [] max_id m = record m { counter = add_16 max_id 1 }
load_tuples (t ∷ ts) max_id m =
    load_tuples ts (if leb max_id t.id then t.id else max_id) (add_tuple t m)

abbrev pub known_name :
    {W : Type 0} → Option ℕ → (ℕ → Reply W (Option ℕ)) → Manager W → Reply W (Option ℕ)
known_name none f m = segment_not_exists m
known_name (some id) f m = or_not_exists (f id)

-- A null pointer is used by the callers of `getSegment` without a test.
abbrev pub on_segment {ℓ} : {W : Type 0} {A : Type ℓ} → Option ℕ → (ℕ → Reply W A) → Reply W A
on_segment none f = undefined
on_segment (some id) f = f id

-- `getSegmentT` for an id and for a name.
abbrev pub tuple_or_exception :
    {W : Type 0} → Manager W → Option SegmentTuple → Reply W SegmentTuple
tuple_or_exception m none = segment_not_exists m
tuple_or_exception m (some t) = done t m

unfoldable pub get_segment_t : {W : Type 0} → ℕ → Manager W → Reply W SegmentTuple
get_segment_t id m = tuple_or_exception m (m.by_id id)

abbrev pub tuple_named : {W : Type 0} → Manager W → Option ℕ → Reply W SegmentTuple
tuple_named m none = segment_not_exists m
tuple_named m (some id) = tuple_or_exception m (m.by_id id)

unfoldable pub get_segment_t_by_name : {W : Type 0} → List ℕ → Manager W → Reply W SegmentTuple
get_segment_t_by_name name m = tuple_named m (m.by_name name)

module _ {W : Type 0} (objects : Objects W) (master : List ℕ) where
  -- `getSegment` on an object that is not there yet: `none` is the null pointer for an unknown type.
  unfoldable pub load_object : ℕ → Option SegmentTuple → Manager W → Reply W (Option ℕ)
  load_object id none m = out_of_range m
  load_object id (some t) m =
      if t.type == 1 || t.type == 2
      then bind (with_world m (objects.load t m.world)) (λ u n.
        let p = set_segment t.id true n in
        if p.segments id then done (some id) p else out_of_range p)
      else done none m

  unfoldable pub get_segment : ℕ → Manager W → Reply W (Option ℕ)
  unfolding load_object
  get_segment id m = if m.segments id then done (some id) m else load_object id (m.by_id id) m

  unfoldable pub get_segment_by_name : List ℕ → Manager W → Reply W (Option ℕ)
  unfolding get_segment
  get_segment_by_name name m = known_name (m.by_name name) (λ id. get_segment id m) m

  unfoldable pub create_segment_sub : SegmentTuple → Manager W → Reply W (Unit {0})
  unfolding get_segment_by_name
  create_segment_sub t m =
      bind (get_segment_by_name master (add_tuple t m))
        (λ s n. on_segment s (λ id. with_world n (objects.insert id t n.world)))

  abbrev pub created : ℕ → ℕ → List ℕ → Manager W → Option (ℕ × W) → Reply W (Option ℕ)
  created type partition name m none = failed
  created type partition name m (some (page, w)) =
      let id = m.counter in
      let n = set_segment id true (record m { counter = add_16 id 1; world = w }) in
      bind (create_segment_sub (segment_tuple partition id name type page) n)
        (λ u p. get_segment id p)

  -- `createNewSegmentFSM`, which does not ask whether the name is used.
  unfoldable pub create_new_segment_fsm : ℕ → List ℕ → Manager W → Reply W (Option ℕ)
  unfolding create_segment_sub
  create_new_segment_fsm partition name m =
      created 1 partition name m (objects.create m.counter partition m.world)

  abbrev pub when_unused : Option ℕ → Manager W → Reply W (Option ℕ) → Reply W (Option ℕ)
  when_unused none m r = r
  when_unused (some id) m r = segment_exists m

  unfoldable pub create_new_segment_fsm_sp : ℕ → List ℕ → Manager W → Reply W (Option ℕ)
  unfolding create_segment_sub
  create_new_segment_fsm_sp partition name m =
      when_unused (m.by_name name) m
        (created 2 partition name m (objects.create m.counter partition m.world))

  abbrev pub master_created : ℕ → List ℕ → ℕ → ℕ → Manager W → Option (ℕ × W) → Reply W (Unit {0})
  master_created partition name first_id first_page m none = failed
  master_created partition name first_id first_page m (some (page, w)) =
      let id = m.counter in
      let n = set_segment id true (record m { counter = add_16 id 1; world = w }) in
      bind (create_segment_sub (segment_tuple partition id master 2 page) n)
        (λ u p. create_segment_sub (segment_tuple partition first_id name 2 first_page) p)

  abbrev pub then_master : ℕ → List ℕ → Manager W → Option (ℕ × W) → Reply W (Unit {0})
  then_master partition name m none = failed
  then_master partition name m (some (page, w)) =
      let id = m.counter in
      let n = set_segment id true (record m { counter = add_16 id 1; world = w }) in
      master_created partition name id page n (objects.create n.counter partition n.world)

  -- `createMasterSegments`: the segment of the partitions, with the given name, and that of the segments.
  unfoldable pub create_master_segments : ℕ → List ℕ → Manager W → Reply W (Unit {0})
  unfolding create_segment_sub
  create_master_segments partition name m =
      then_master partition name m (objects.create m.counter partition m.world)

  unfoldable pub delete_tuple_physically : ℕ → Manager W → Reply W (Unit {0})
  unfolding get_segment_by_name
  delete_tuple_physically id m =
      bind (get_segment_by_name master m)
        (λ s n. on_segment s (λ master_id. with_world n (objects.remove master_id id n.world)))

  abbrev pub forget : ℕ → Option SegmentTuple → Manager W → Reply W (Unit {0})
  forget id none m = out_of_range m
  forget id (some t) m =
      bind (delete_tuple_physically id m) (λ u n. done tt (set_id id none (set_name t.name none n)))

  -- `deleteSegment` for an id.
  unfoldable pub delete_segment : ℕ → Manager W → Reply W (Unit {0})
  unfolding get_segment delete_tuple_physically
  delete_segment id m = bind (get_segment id m) (λ s n. on_segment s (λ i.
      bind (with_world n (objects.erase id n.world))
        (λ u p. forget id (p.by_id id) (set_segment id false p))))

  abbrev pub delete_named : Option ℕ → Manager W → Reply W (Unit {0})
  delete_named none m = segment_not_exists m
  delete_named (some id) m = or_not_exists (delete_segment id m)

  unfoldable pub delete_segment_by_name : List ℕ → Manager W → Reply W (Unit {0})
  unfolding delete_segment
  delete_segment_by_name name m = delete_named (m.by_name name) m
