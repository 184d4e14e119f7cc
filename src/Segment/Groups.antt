-- ===== src/Segment/Groups.antt =====
-- src/segment/segment_fsm_sp.hh: `insertTuples` for many tuples at once, on one page if they fit, and otherwise
-- in parts that a greedy loop cuts off. A part is the list of its tuples, in place of the vector with
-- `aStart` and `aSize`, so the check of the two never fails. Recursion and loop run on fuel.
pub mod Cut
pub mod Endless
use master_team_projekt.Prelude.{
  ℕ, zero, suc, ◌+◌, ◌-◌, ◌*◌, ◌/◌, List, [], ◌∷◌, ◌++◌, map, Option, none, some, ltb,
  if◌then◌else◌, take, drop,
}
use master_team_projekt.Infra.Types.{TupleId}
use master_team_projekt.Infra.Headers.{sp_header_size}
use master_team_projekt.Interpreter.Sp.{slot_size, add_new_record}
use master_team_projekt.Segment.Space.{Space}
use master_team_projekt.Segment.State.{
  Segment, Outcome, done, nsm_exception, tuple_not_found, partition_exception, out_of_range,
  undefined, out_of_fuel, bind,
}
use master_team_projekt.Segment.Fsm
use master_team_projekt.Segment.Records.{TupleClass, prepared, write_sp, fill_record}

-- The bytes that a tuple takes with its slot. The size is rounded up to a multiple of eight.
abbrev pub room_for : ℕ → ℕ
room_for size = (size + 7) / 8 * 8 + slot_size

abbrev pub total_size : List ℕ → ℕ
total_size [] = 0
total_size (size ∷ sizes) = room_for size + total_size sizes

-- What fifteen equal buckets hold of a page.
abbrev pub part_limit : ℕ → ℕ
part_limit page_size = (page_size - sp_header_size) / 15 * 15

-- The inner loop: how many tuples are taken until the limit is reached, and their bytes, which are `part`
-- before.
unfoldable pub take_part : ℕ → ℕ → List ℕ → ℕ × ℕ
take_part limit part [] = (0, part)
take_part limit part (size ∷ sizes) =
    let rest = take_part limit (part + room_for size) sizes in
    if ltb part limit then (suc rest.0, rest.1) else (0, part)

-- The last tuple is given back if it exceeds the limit.
unfoldable pub cut : ℕ → List ℕ → ℕ
cut limit sizes = let r = take_part limit 0 sizes in if ltb limit r.1 then r.0 - 1 else r.0

-- `try` and `catch(NSMException)` around a step.
abbrev pub catch_nsm {ℓ κ} :
    {P : Type 0} {A : Type ℓ} {B : Type κ}
    → Outcome P A
    → (A → Segment P → Outcome P B)
    → (Segment P → Outcome P B)
    → Outcome P B
catch_nsm (done a s) f g = f a s
catch_nsm (nsm_exception s) f g = g s
catch_nsm (tuple_not_found s) f g = tuple_not_found s
catch_nsm partition_exception f g = partition_exception
catch_nsm out_of_range f g = out_of_range
catch_nsm undefined f g = undefined
catch_nsm out_of_fuel f g = out_of_fuel

module _ {ℓ} {P : Type 0} {A : Type ℓ} (class : TupleClass A) where
  -- The loop that stores the tuples on the page `n`.
  unfoldable pub store_all : ℕ → List A → Segment P → Outcome P (List TupleId)
  store_all n [] s = done [] s
  store_all n (a ∷ rest) s =
      bind (fill_record n (class.to_disk a) s (add_new_record (s.sp_content n) (class.size a)))
        (λ tid t. bind (store_all n rest t) (λ tids v. done (tid ∷ tids) v))

  module _ (space : Space P) where
    -- `insertTuplesSub`, and its loop over what is left.
    unfoldable mutual
      unfolding store_all cut

      pub insert_part : ℕ → List A → Segment P → Outcome P (List TupleId)
      insert_part zero group s = out_of_fuel
      insert_part (suc fuel) group s =
          catch_nsm (Fsm.get_free_page space (total_size (map class.size group)) sp_header_size s)
            (λ c t. store_all c.page_no group (write_sp c.page_no (prepared c t) t))
            (λ t. insert_parts fuel group t)

      pub insert_parts : ℕ → List A → Segment P → Outcome P (List TupleId)
      insert_parts zero group s = out_of_fuel
      insert_parts (suc fuel) [] s = done [] s
      insert_parts (suc fuel) (a ∷ rest) s =
          let n = cut (part_limit s.page_size) (map class.size (a ∷ rest)) in
          bind (insert_part fuel (take n (a ∷ rest)) s) (λ tids t.
            bind (insert_parts fuel (drop n (a ∷ rest)) t) (λ more v. done (tids ++ more) v))

    -- `insertTuples(const std::vector<Tuple_T>&)`.
    unfoldable pub insert_tuples_of : ℕ → List A → Segment P → Outcome P (List TupleId)
    unfolding insert_part insert_parts
    insert_tuples_of fuel group s =
        bind (insert_part fuel group s) (λ tids t. done tids (record t { tids = t.tids ++ tids }))
