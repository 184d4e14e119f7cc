-- ===== src/Segment/Tests.antt =====
-- A segment with one page of each kind, in a partition that hands out one page after the other.
use master_team_projekt.Prelude.{
  ℕ, Bool, true, false, ◌+◌, ◌≤◌, ◌<◌, ◌≡◌, refl, List, [], ◌∷◌, ◌++◌, Option, none, some, length,
  sym, ◌&&◌, arith,
}
use master_team_projekt.Interpreter.Fsm
use master_team_projekt.Interpreter.Fsm.{
  calc_page_status, find_fit, add_data_page, change_page_status, get_page_status, put_low, put_high,
  FsmPage,
}
use master_team_projekt.Interpreter.Sp.{add_new_record, memcpy, SpPage, init_new_page, get_record}
use master_team_projekt.Interpreter.Sp.Valid.{init_new_page-IsValid}
use master_team_projekt.Tuples.Catalogue.{
  SegmentTuple, segment_tuple, segment_to_disk, segment_to_memory,
}
use master_team_projekt.Tuples.Codec.{segment_to_memory-to_disk}
use master_team_projekt.Segment.Space.{Space, IsSpace}
use master_team_projekt.Segment.State.{Outcome, Segment, done}
use master_team_projekt.Segment.Fsm.{search_fsm, take_index, get_free_page, new_segment}
use master_team_projekt.Segment.Fsm.Owned.{Ends, Exhausted}
use master_team_projekt.Segment.Fsm.Reserve.{IsReady, Chosen, Refused}
use master_team_projekt.Segment.Fsm.Choose.{IsTooLarge}
use master_team_projekt.Segment.Fsm.Takes.{Why, get_free_page-Takes}
use master_team_projekt.Segment.Fsm.Create.{IsCreated, new_segment-IsCreated}
use master_team_projekt.Segment.Records.{TupleClass, contains, insert_tuple, insert_tuple_of, scan}
use master_team_projekt.Segment.Records.Ready.{HoldsTuples, NotInserted, Inserted}
use master_team_projekt.Segment.Records.Insert.{insert_tuple-Inserted}
use master_team_projekt.Segment.Records.Fetch.{IsReadBack, Fetches, get_tuple-insert_tuple_of}
use master_team_projekt.Tuples.Bytes.{put_le, get_le}
use master_team_projekt.Segment.Records.Scan.{lists, is_some, lists-scan}
use master_team_projekt.Segment.Groups.{insert_parts}
use master_team_projekt.Segment.Groups.Endless.{IsEndless, insert_parts-IsEndless}
use master_team_projekt.Segment.Disk.{store_segment}
use master_team_projekt.Segment.Disk.RoundTrip.{Reloads, load_segment-store_segment}

-- The state is the next page.
abbrev counter : Space ℕ
counter = record { alloc = λ n. some (n, n + 1); free = λ n p. none }

counter-next :
    {s s' n : ℕ}
    → ◌≡◌ {A = Option (ℕ × ℕ)} (some (s, s + 1)) (some (n, s'))
    → (s ≡ n) × (s + 1 ≡ s')
counter-next e = (cc, cc)

abbrev counter_laws : IsSpace counter
counter_laws = record {
  Good = λ s. 0 < s;
  Free = λ s m. s ≤ m;
  alloc_free = λ g e. let i = counter-next e in omega (arith, i.0);
  alloc_nonzero = λ g e. let i = counter-next e in λ z. omega (arith, g, i.0, z);
  alloc_good = λ g e. let i = counter-next e in omega (arith, i.1);
  alloc_others = λ g e m free.
      let i = counter-next e in (omega (arith, free, i.1), λ z. omega (arith, free, i.0, i.1, z));
}

abbrev raw_fsm : FsmPage
raw_fsm = record {
  bytes = λ k. 0;
  header = record {
    no_pages = 0;
    next_fsm = 0;
    basic_header = record { lsn = 0; page_index = 0; pid = 0; version = 0 };
  };
}

abbrev raw_sp : SpPage
raw_sp = record {
  bytes = λ k. 9;
  slot = λ i. record { offset = 1; size = 2; status = 3 };
  header = record { no_records = 4; free_space = 5; next_free_space = 6 };
}

abbrev small_segment : Segment ℕ
small_segment = record {
  seg_id = 7;
  index_pages = 1 ∷ [];
  pages = 3 ∷ [];
  fsm_pages = 2 ∷ [];
  tids = [];
  partition = 4;
  file_id = 1;
  page_size = 200;
  index_content = λ m. record {
    entries = λ k. 0;
    header = record {
      curr_size = 0;
      first_fsm = 0;
      next_index_page = 0;
      seg_id = 0;
      version = 0;
      basic_header = record { lsn = 0; page_index = 0; pid = 0; version = 0 };
    };
  };
  fsm_content = λ m. raw_fsm;
  sp_content = λ m. init_new_page 200 raw_sp;
}

small-IsReady : IsReady counter counter_laws small_segment
small-IsReady = (
  record {
    good = omega arith;
    once = λ m. ground arith;
    taken = λ m free. ground (arith, free);
    not_zero = ground arith;
    linked = (refl, tt);
  },
  omega arith,
)

small-HoldsTuples : HoldsTuples counter counter_laws small_segment
small-HoldsTuples = record {
  ready = small-IsReady;
  valid = λ n m. init_new_page-IsValid 200 raw_sp (omega arith) (omega arith);
  large = omega arith;
  small = omega arith;
}

abbrev segment_class : TupleClass SegmentTuple
segment_class = record {
  size = λ t. t.size;
  to_disk = segment_to_disk;
  to_memory = segment_to_memory;
}

abbrev students : SegmentTuple
students = segment_tuple 1 2 (115 ∷ 116 ∷ []) 3 9

students-IsReadBack : IsReadBack segment_class students
students-IsReadBack = record { size = sym (codec []).1; round = λ rest. (codec rest).0 }
  where
    codec :
        (rest : List ℕ)
        → (segment_to_memory (segment_to_disk students ++ rest) ≡ some (students, rest))
          × (length (segment_to_disk students) ≡ students.size)
    codec rest =
        segment_to_memory-to_disk 1 2 (115 ∷ 116 ∷ []) 3 9 rest (omega arith) (omega arith)
          (omega arith) (omega arith) (λ e. omega (arith, e), (λ e. omega (arith, e), tt))

new_segment-IsCreated_example :
    Ends
      (Exhausted counter counter_laws)
      (λ u t. IsCreated counter counter_laws 7 t)
      (λ t. ⊥)
      (new_segment counter 7 small_segment)
new_segment-IsCreated_example =
    new_segment-IsCreated counter counter_laws 7 small_segment (omega arith)

get_free_page-Takes_example :
    Ends
      (Exhausted counter counter_laws)
      (λ c t. Chosen counter counter_laws small_segment c t × Why 170 40 small_segment c t)
      (Refused counter counter_laws (IsTooLarge 170 40) small_segment)
      (get_free_page counter 40 30 small_segment)
get_free_page-Takes_example =
    get_free_page-Takes counter counter_laws 40 30 small_segment small-IsReady (λ g. omega arith)

insert_tuple-Inserted_example :
    Ends
      (Exhausted counter counter_laws)
      (Inserted counter counter_laws small_segment (11 ∷ 12 ∷ []))
      (NotInserted counter counter_laws small_segment (11 ∷ 12 ∷ []))
      (insert_tuple counter (11 ∷ 12 ∷ []) small_segment)
insert_tuple-Inserted_example =
    insert_tuple-Inserted counter counter_laws (11 ∷ 12 ∷ []) small_segment small-HoldsTuples
      (omega arith)

get_tuple-insert_tuple_of_example :
    Ends
      (Exhausted counter counter_laws)
      (Fetches segment_class students)
      (NotInserted counter counter_laws small_segment (segment_to_disk students))
      (insert_tuple_of counter segment_class students small_segment)
get_tuple-insert_tuple_of_example =
    get_tuple-insert_tuple_of counter counter_laws segment_class students small_segment
      small-HoldsTuples students-IsReadBack (omega arith)

-- Each data page shows four valid records.
abbrev full_segment : Segment ℕ
full_segment = record small_segment { sp_content = λ m. raw_sp }

lists-scan_example :
    lists (record { page_no = 3; tuple_no = 2 }) (scan full_segment)
    ≡ (contains 3 full_segment.pages && is_some (get_record (full_segment.sp_content 3) 2))
lists-scan_example = lists-scan full_segment (record { page_no = 3; tuple_no = 2 })

load_segment-store_segment_example :
    Ends ⊥ (λ u t. Reloads 3 small_segment t) (λ t. ⊥) (store_segment small_segment)
load_segment-store_segment_example =
    load_segment-store_segment counter counter_laws 3 small_segment small-IsReady (omega arith)
      (omega arith) (omega arith)

-- A page of 200 bytes has fifteen buckets of 11 bytes.
abbrev huge : SegmentTuple
huge = record students { size = 166 }

insert_parts-IsEndless_example :
    IsEndless
      (Exhausted counter counter_laws)
      (insert_parts segment_class counter 9 (huge ∷ students ∷ []) small_segment)
insert_parts-IsEndless_example =
    insert_parts-IsEndless segment_class counter counter_laws 9 huge (students ∷ []) small_segment
      small-IsReady (omega arith) (omega arith)

abbrev byte_class : TupleClass ℕ
byte_class = record { size = λ a. 1; to_disk = put_le 1; to_memory = get_le 1 }

abbrev returns : {A : Type 0} → Outcome ℕ A → Bool
returns (done a s) = true
returns _ = false

-- The exceptions that the theorems allow do not occur here.
insert_returns : returns (insert_tuple counter (11 ∷ 12 ∷ []) small_segment) ≡ true
unfolding insert_tuple get_free_page search_fsm take_index Fsm.get_free_page calc_page_status
    find_fit add_data_page change_page_status get_page_status put_low put_high add_new_record memcpy
    init_new_page
insert_returns = refl
