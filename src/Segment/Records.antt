-- ===== src/Segment/Records.antt =====
-- src/segment/segment_fsm_sp.{hh,cc}: the tuples of a segment with slotted pages. The page number and the
-- pages of a tuple id are of one partition. The locks that `getPage` and `releasePage` take and return are
-- left out.
pub mod Ready
pub mod Insert
pub mod Fetch
pub mod Scan
pub mod Remove
use master_team_projekt.Prelude.{
  ℕ, zero, suc, ◌+◌, ◌-◌, ◌*◌, ◌/◌, List, [], ◌∷◌, ◌++◌, Option, none, some, Bool, true, false, ltb,
  leb, ◌==◌, ◌||◌, if◌then◌else◌, length,
}
use master_team_projekt.Infra.Types.{TupleId}
use master_team_projekt.Infra.Headers.{sp_header_size}
use master_team_projekt.Interpreter.Sp.{
  SpPage, slot_size, init_new_page, get_record, add_new_record, memcpy,
}
use master_team_projekt.Interpreter.Sp.Records.{read_bytes}
use master_team_projekt.Tuples.Bytes.{Reader}
use master_team_projekt.Segment.Space.{Space}
use master_team_projekt.Segment.State.{
  Segment, Outcome, done, nsm_exception, tuple_not_found, undefined, bind, set_content,
}
use master_team_projekt.Segment.Fsm
use master_team_projekt.Segment.Fsm.{Choice}

-- What the templates use of a class of tuples: `size`, `toDisk` and `toMemory`.
pub record TupleClass {ℓ} (A : Type ℓ) : Type ℓ where
  pub size : A → ℕ
  pub to_disk : A → List ℕ
  pub to_memory : Reader A

-- The page that `getPage`, `fix` or `emptyfix` gives, a new one initialised.
abbrev pub prepared : {P : Type 0} → Choice → Segment P → SpPage
prepared c s =
    if c.emptyfix
    then init_new_page s.page_size (s.sp_content c.page_no)
    else s.sp_content c.page_no

abbrev pub write_sp : {P : Type 0} → ℕ → SpPage → Segment P → Segment P
write_sp n p s = record s { sp_content = set_content n p s.sp_content }

-- What follows `addNewRecord` for a tuple of the bytes `bs`: an exception for a null pointer, or its bytes.
abbrev pub fill_record :
    {P : Type 0} → ℕ → List ℕ → Segment P → Option ℕ × ℕ × SpPage → Outcome P TupleId
fill_record n bs s (none, tuple_no, p) = nsm_exception (write_sp n p s)
fill_record n bs s (some at, tuple_no, p) =
    done (record { page_no = n; tuple_no = tuple_no }) (write_sp n (memcpy p at bs) s)

abbrev pub push_tid : {P : Type 0} → TupleId → Segment P → Outcome P TupleId
push_tid tid s = done tid (record s { tids = s.tids ++ (tid ∷ []) })

-- Whether `std::find_if` finds a page among `_pages`.
abbrev pub contains : ℕ → List ℕ → Bool
contains n [] = false
contains n (x ∷ xs) = x == n || contains n xs

-- Reading behind the end of the page is undefined.
abbrev pub to_memory_result {ℓ} :
    {P : Type 0} {A : Type ℓ} → Option (A × List ℕ) → Segment P → Outcome P A
to_memory_result none s = undefined
to_memory_result (some (t, rest)) s = done t s

-- `toMemory` on the record of a page; a null pointer is a tuple that is not found.
abbrev pub read_tuple {ℓ} :
    {P : Type 0} {A : Type ℓ} → Reader A → SpPage → Option ℕ → Segment P → Outcome P A
read_tuple read p none s = tuple_not_found s
read_tuple read p (some at) s = to_memory_result (read (read_bytes p at (s.page_size - at))) s

-- `push_back` for a record that is not the null pointer.
abbrev pub push_found : Option ℕ → TupleId → List TupleId → List TupleId
push_found none tid tids = tids
push_found (some at) tid tids = tid ∷ tids

-- The records of a page from number `j` on, by the number of records left.
unfoldable pub scan_page : ℕ → SpPage → ℕ → ℕ → List TupleId
scan_page n p zero j = []
scan_page n p (suc left) j =
    push_found (get_record p j) (record { page_no = n; tuple_no = j }) (scan_page n p left (j + 1))

-- `scan`, over the pages that are left.
unfoldable pub scan_pages : (ℕ → SpPage) → List ℕ → List TupleId
scan_pages content [] = []
scan_pages content (n ∷ ns) =
    scan_page n (content n) (content n).no_records 0 ++ scan_pages content ns

unfoldable pub scan : {P : Type 0} → Segment P → List TupleId
unfolding scan_page scan_pages
scan s = scan_pages s.sp_content s.pages

-- `getTuple`.
unfoldable pub get_tuple {ℓ} :
    {P : Type 0} {A : Type ℓ} → TupleClass A → TupleId → Segment P → Outcome P A
get_tuple class tid s =
    let p = s.sp_content tid.page_no in
    if contains tid.page_no s.pages
    then read_tuple class.to_memory p (get_record p tid.tuple_no) s
    else tuple_not_found s

-- `getTuples`.
unfoldable pub get_tuples {ℓ} :
    {P : Type 0} {A : Type ℓ} → TupleClass A → List TupleId → Segment P → Outcome P (List A)
unfolding get_tuple
get_tuples class [] s = done [] s
get_tuples class (tid ∷ tids) s =
    bind (get_tuple class tid s)
      (λ a t. bind (get_tuples class tids t) (λ more v. done (a ∷ more) v))

module _ {P : Type 0} (space : Space P) where
  -- `SegmentFSM_SP::getFreePage`. The quotient by eight is exact as a `double`, so `ceil` is that of it.
  unfoldable pub get_free_sp_page : ℕ → Segment P → Outcome P Choice
  get_free_sp_page bytes s =
      Fsm.get_free_page space ((bytes + 7) / 8 * 8) (sp_header_size + slot_size) s

  -- `insertTuple` for `size` and the bytes that are written.
  unfoldable pub insert_sized : ℕ → List ℕ → Segment P → Outcome P TupleId
  unfolding get_free_sp_page
  insert_sized size bs s =
      bind (get_free_sp_page size s)
        (λ c t. bind (fill_record c.page_no bs t (add_new_record (prepared c t) size)) push_tid)

  -- `insertTuple(byte*, uint)` and the template `insertTuple(const Tuple_T&)`.
  unfoldable pub insert_tuple : List ℕ → Segment P → Outcome P TupleId
  unfolding insert_sized
  insert_tuple bs s = insert_sized (length bs) bs s

  unfoldable pub insert_tuple_of {ℓ} :
      {A : Type ℓ} → TupleClass A → A → Segment P → Outcome P TupleId
  unfolding insert_sized
  insert_tuple_of class a s = insert_sized (class.size a) (class.to_disk a) s

  -- `insertTuples(const byte_vpt&, uint)`.
  unfoldable pub insert_tuples : List (List ℕ) → Segment P → Outcome P (List TupleId)
  unfolding insert_tuple
  insert_tuples [] s = done [] s
  insert_tuples (bs ∷ bss) s =
      bind (insert_tuple bs s) (λ tid t. bind (insert_tuples bss t) (λ more v. done (tid ∷ more) v))
