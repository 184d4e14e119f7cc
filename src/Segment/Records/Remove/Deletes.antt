-- ===== src/Segment/Records/Remove/Deletes.antt =====
-- What the deletion of a tuple by its id does.
use master_team_projekt.Prelude.{ℕ, ◌<◌, ◌≡◌, List, none, ◌==◌, ◌&&◌, if◌then◌else◌}
use master_team_projekt.Infra.Types.{TupleId}
use master_team_projekt.Interpreter.Sp.{get_record}
use master_team_projekt.Segment.State.{
  Segment, Outcome, done, nsm_exception, tuple_not_found, partition_exception, out_of_range,
  undefined, out_of_fuel,
}
use master_team_projekt.Segment.Fsm.Chain.{count}
use master_team_projekt.Segment.Records.{TupleClass}
use master_team_projekt.Segment.Records.Remove.{HoldsId}

-- The record `tid` held the id and is deleted; all other records, the bytes of all pages, and all else of the
-- segment stay.
pub record Removed {P : Type 0} {A : Type 0} (class : TupleClass A) (id_of : A → ℕ) (id : ℕ)
    (ns : List ℕ) (s : Segment P) (tid : TupleId) (t : Segment P) : Type 0 where
  pub on_page : 0 < count tid.page_no ns
  pub was : HoldsId class id_of id s.page_size (s.sp_content tid.page_no) tid.tuple_no
  pub records :
      (n j : ℕ)
      → get_record (t.sp_content n) j
        ≡ (if n == tid.page_no && j == tid.tuple_no then none else get_record (s.sp_content n) j)
  pub bytes : (n : ℕ) → (t.sp_content n).bytes ≡ (s.sp_content n).bytes
  pub headers : (n : ℕ) → (t.sp_content n).header ≡ (s.sp_content n).header
  pub rest : t ≡ record s { sp_content = t.sp_content }

-- No record of the pages holds the id.
abbrev pub NoTuple :
    {P : Type 0} {A : Type 0} → TupleClass A → (A → ℕ) → ℕ → List ℕ → Segment P → Type 0
NoTuple class id_of id ns s =
    (n j : ℕ)
    → 0 < count n ns
    → j < (s.sp_content n).no_records
    → HoldsId class id_of id s.page_size (s.sp_content n) j
    → ⊥

-- What is true when the deletion ends. Nothing is promised where a record is read behind the end of its page.
abbrev pub Removes :
    {P : Type 0} {A : Type 0}
    → TupleClass A
    → (A → ℕ)
    → ℕ
    → List ℕ
    → Segment P
    → Outcome P TupleId
    → Type 0
Removes class id_of id ns s (done tid t) = Removed class id_of id ns s tid t
Removes class id_of id ns s (tuple_not_found t) = (t ≡ s) × NoTuple class id_of id ns s
Removes class id_of id ns s undefined = Unit
Removes class id_of id ns s (nsm_exception t) = ⊥
Removes class id_of id ns s partition_exception = ⊥
Removes class id_of id ns s out_of_range = ⊥
Removes class id_of id ns s out_of_fuel = ⊥
