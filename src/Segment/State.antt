-- ===== src/Segment/State.antt =====
-- src/segment/segment_base.{hh,cc}, segment_fsm.hh, segment_fsm_sp.hh: what a segment keeps, and the pages that
-- it sees through the buffer. A page is seen the way it was last written; what a page holds before its
-- first write is any content. The pointers to control blocks beside `_pages` are left out. The page sizes are
-- larger than the headers.
use master_team_projekt.Prelude.{
  ℕ, ◌*◌, ◌%◌, List, [], ◌∷◌, ◌++◌, Option, none, some, ◌≡◌, ◌≢◌, arith, leb, ◌==◌, if◌then◌else◌,
  length,
}
use master_team_projekt.Prelude.Word.{mod_64, sub_64}
use master_team_projekt.Infra.Types.{TupleId}
use master_team_projekt.Infra.Headers.{SegmentFsmHeader, segment_fsm_header_size}
use master_team_projekt.Interpreter.Fsm.{FsmPage}
use master_team_projekt.Interpreter.Sp.{SpPage}
use master_team_projekt.Segment.Space.{Space}

-- A page with the numbers of the data pages.
pub record IndexPage : Type 0 where
  pub entries : ℕ → ℕ
  pub header : SegmentFsmHeader

pub record Segment (P : Type 0) : Type 0 where
  pub seg_id : ℕ
  pub index_pages : List ℕ
  pub pages : List ℕ
  pub fsm_pages : List ℕ
  pub tids : List TupleId
  pub partition : P
  pub file_id : ℕ
  pub page_size : ℕ
  pub index_content : ℕ → IndexPage
  pub fsm_content : ℕ → FsmPage
  pub sp_content : ℕ → SpPage

-- How an operation ends. `partition_exception` is an exception of the partition, `out_of_range` that of
-- `std::vector::at`; `undefined` is the use of a null pointer or of a variable that was never set.
pub data Outcome {ℓ} (P : Type 0) (A : Type ℓ) : Type ℓ where
  done : A → Segment P → Outcome P A
  nsm_exception : Segment P → Outcome P A
  tuple_not_found : Segment P → Outcome P A
  partition_exception out_of_range undefined out_of_fuel : Outcome P A

abbrev pub set_content {ℓ} : {C : Type ℓ} → ℕ → C → (ℕ → C) → ℕ → C
set_content n c old m = if m == n then c else old m

pub set_content_self {ℓ} : {C : Type ℓ} (n : ℕ) (c : C) (old : ℕ → C) → set_content n c old n ≡ c
set_content_self n c old = ground arith

pub set_content_ne {ℓ} :
    {C : Type ℓ} (n : ℕ) (c : C) (old : ℕ → C) (m : ℕ) → m ≢ n → set_content n c old m ≡ old m
set_content_ne n c old m h = ground (arith, h)

-- A step, and what follows it if it does not throw.
abbrev pub bind {ℓ κ} :
    {P : Type 0} {A : Type ℓ} {B : Type κ}
    → Outcome P A
    → (A → Segment P → Outcome P B)
    → Outcome P B
bind (done a s) f = f a s
bind (nsm_exception s) f = nsm_exception s
bind (tuple_not_found s) f = tuple_not_found s
bind partition_exception f = partition_exception
bind out_of_range f = out_of_range
bind undefined f = undefined
bind out_of_fuel f = out_of_fuel

abbrev pub or_exception : {P : Type 0} → Segment P → Option P → Outcome P (Unit {0})
or_exception s none = partition_exception
or_exception s (some p) = done tt (record s { partition = p })

abbrev pub page_or_exception : {P : Type 0} → Segment P → Option (ℕ × P) → Outcome P ℕ
page_or_exception s none = partition_exception
page_or_exception s (some (n, p)) = done n (record s { partition = p })

abbrev pub push_index : {P : Type 0} → ℕ → Segment P → Segment P
push_index n s = record s { index_pages = s.index_pages ++ (n ∷ []) }

abbrev pub push_page : {P : Type 0} → ℕ → Segment P → Segment P
push_page n s = record s { pages = s.pages ++ (n ∷ []) }

abbrev pub push_fsm : {P : Type 0} → ℕ → Segment P → Segment P
push_fsm n s = record s { fsm_pages = s.fsm_pages ++ (n ∷ []) }

-- The constructors that only make the object, for a partition and a buffer that are in use.
abbrev pub unloaded : {P : Type 0} → Segment P → Segment P
unloaded s = record s { seg_id = 0; index_pages = []; pages = []; fsm_pages = []; tids = [] }

module _ {P : Type 0} (space : Space P) where
  -- `_partition.allocPage()`.
  unfoldable pub allocate : Segment P → Outcome P ℕ
  allocate s = page_or_exception s (space.alloc s.partition)

  -- `SegmentBase::SegmentBase`: the first index page. Without an exception its number is positive.
  unfoldable pub new_base : ℕ → Segment P → Outcome P (Unit {0})
  new_base seg_id s =
      bind (allocate (record (unloaded s) { seg_id = seg_id })) (λ n t. done tt (push_index n t))

  -- If the index pages do not suffice for the numbers of all pages, one more is reserved.
  unfoldable pub reserve_index : Segment P → Outcome P (Unit {0})
  reserve_index s =
      if leb (length s.index_pages * sub_64 s.page_size segment_fsm_header_size % mod_64)
        (length s.pages)
      then bind (allocate s) (λ n t. done tt (push_index n t))
      else done tt s

  -- `freePage` for each of a list of pages; `resetBCB`, which forgets what the buffer holds of them,
  -- changes nothing that is kept here.
  unfoldable pub free_pages : List ℕ → Segment P → Outcome P (Unit {0})
  free_pages [] s = done tt s
  free_pages (n ∷ ns) s = bind (or_exception s (space.free n s.partition)) (λ u t. free_pages ns t)

  -- `SegmentBase::erase`.
  unfoldable pub erase_base : Segment P → Outcome P (Unit {0})
  erase_base s = bind (free_pages s.pages s) (λ u t. free_pages t.index_pages t)
