-- ===== src/Segment/Records/Fetch.antt =====
-- `getTuple` and `scan` after `insertTuple`.
use master_team_projekt.Prelude.{
  ℕ, ◌+◌, ◌-◌, ◌<◌, ◌≡◌, refl, ap, ◌∙◌, List, [], ◌∷◌, ◌++◌, some, true, ◌==◌, length, Bool-cases,
  inl, inr, arith,
}
use master_team_projekt.Prelude.Word.{mod_32}
use master_team_projekt.Infra.Types.{TupleId}
use master_team_projekt.Interpreter.Sp.Records.{read_bytes, read_bytes-add}
use master_team_projekt.Segment.Space.{Space, IsSpace}
use master_team_projekt.Segment.State.{Segment, done}
use master_team_projekt.Segment.Fsm.Chain.{count}
use master_team_projekt.Segment.Fsm.Owned.{Ends, Exhausted, Ends-map}
use master_team_projekt.Segment.Records.{
  TupleClass, contains, to_memory_result, get_tuple, insert_sized, insert_tuple, insert_tuple_of,
}
use master_team_projekt.Segment.Records.Ready.{HoldsTuples, NotInserted, Inserted}
use master_team_projekt.Segment.Records.Insert.{insert_tuple-Inserted}

-- A tuple has the size of what it writes, and is read back from it.
pub record IsReadBack {ℓ} {A : Type ℓ} (class : TupleClass A) (a : A) : Type ℓ where
  pub size : class.size a ≡ length (class.to_disk a)
  pub round : (rest : List ℕ) → class.to_memory (class.to_disk a ++ rest) ≡ some (a, rest)

pub contains-count : (n : ℕ) (xs : List ℕ) → 0 < count n xs → contains n xs ≡ true
contains-count n [] h = absurd (omega (arith, h))
contains-count n (x ∷ xs) h = elim (Bool-cases (x == n)) [
  | inl e ↦ rw e refl
  | inr e ↦ rw e (let h' = rw e at h in contains-count n xs (omega (arith, h')))
]

-- The tuple is what `getTuple` returns for the id, without a change of the segment.
abbrev pub Fetches {ℓ} : {P : Type 0} {A : Type ℓ} → TupleClass A → A → TupleId → Segment P → Type ℓ
Fetches class a tid t = get_tuple class tid t ≡ done a t

module _ {P : Type 0} (space : Space P) (laws : IsSpace space) where
  Inserted-Fetches :
      {A : Type 0} (class : TupleClass A) (a : A) (s : Segment P) (tid : TupleId) (t : Segment P)
      → IsReadBack class a
      → Inserted space laws s (class.to_disk a) tid t
      → Fetches class a tid t
  unfolding get_tuple
  Inserted-Fetches class a s tid t r i =
      rw (contains-count tid.page_no t.pages i.on_page, i.found)
        (ap (λ o. to_memory_result o t) (ap class.to_memory bytes ∙ r.round rest))
    where
      rest : List ℕ
      rest =
          read_bytes (t.sp_content tid.page_no) (i.place + length (class.to_disk a))
            (t.page_size - (i.place + length (class.to_disk a)))

      bytes :
          read_bytes (t.sp_content tid.page_no) i.place (t.page_size - i.place)
          ≡ class.to_disk a ++ rest
      bytes =
          let whole : t.page_size - i.place
              ≡ length (class.to_disk a) + (t.page_size - (i.place + length (class.to_disk a))) =
            omega (arith, i.inside) in
          rw whole (
            read_bytes-add (t.sp_content tid.page_no) i.place (length (class.to_disk a)) _
            ∙ ap (λ bs. bs ++ rest) i.content)

  -- Let the pages of a segment be its own, its management pages linked and its data pages valid slotted pages, let
  -- the partition keep what `IsSpace` says, and let the tuple have the size of what it writes and be read back from
  -- it. Then `insertTuple` returns an id for which `getTuple` returns the tuple. It throws an exception of the
  -- segment only if the tuple exceeds the fifteen buckets of a page or a data page of the segment is too full for
  -- it, and one of the partition only if the partition, in order, hands out no page.
  pub get_tuple-insert_tuple_of :
      {A : Type 0} (class : TupleClass A) (a : A) (s : Segment P)
      → HoldsTuples space laws s
      → IsReadBack class a
      → class.size a + 13 < mod_32
      → Ends
          (Exhausted space laws)
          (Fetches class a)
          (NotInserted space laws s (class.to_disk a))
          (insert_tuple_of space class a s)
  unfolding insert_tuple_of insert_tuple insert_sized
  get_tuple-insert_tuple_of class a s h r small = rw r.size (
      Ends-map (Exhausted space laws) (Inserted space laws s (class.to_disk a)) (Fetches class a)
        (NotInserted space laws s (class.to_disk a)) _ (λ tid t. Inserted-Fetches class a s tid t r)
        (insert_tuple-Inserted space laws (class.to_disk a) s h (rw r.size at small)))
