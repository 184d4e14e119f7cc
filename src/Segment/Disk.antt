-- ===== src/Segment/Disk.antt =====
-- src/segment/segment_fsm.cc and segment_fsm_sp.cc: storing a segment on its index pages and loading it.
pub mod Index
pub mod Load
pub mod RoundTrip
use master_team_projekt.Prelude.{
  ℕ, zero, suc, ◌+◌, ◌-◌, ◌/◌, List, [], ◌∷◌, ◌++◌, Option, none, some, ◌==◌, if◌then◌else◌,
}
use master_team_projekt.Infra.Headers.{BasicHeader, SegmentFsmHeader, segment_fsm_header_size}
use master_team_projekt.Interpreter.Fsm.{FsmPage}
use master_team_projekt.Segment.State.{
  IndexPage, Segment, Outcome, done, partition_exception, out_of_range, undefined, out_of_fuel,
  bind, set_content,
}

-- How many page numbers an index page holds.
abbrev pub entries_per_page : ℕ → ℕ
entries_per_page page_size = (page_size - segment_fsm_header_size) / 4

-- The inner loop of `storeSegment` from entry `k` on: the number of entries, what is left of the pages,
-- and the entries.
unfoldable pub write_entries : ℕ → ℕ → List ℕ → (ℕ → ℕ) → ℕ × List ℕ × (ℕ → ℕ)
write_entries zero k ps e = (k, ps, e)
write_entries (suc room) k [] e = (k, [], e)
write_entries (suc room) k (p ∷ ps) e = write_entries room (k + 1) ps (set_content k p e)

-- The index page `j` with the header that `storeSegment` makes, and the one after it.
abbrev pub index_header : ℕ → ℕ → ℕ → ℕ → ℕ → ℕ → SegmentFsmHeader
index_header curr_size first_fsm j next seg_id file_id = record {
  curr_size = curr_size;
  first_fsm = first_fsm;
  next_index_page = next;
  seg_id = seg_id;
  version = 1;
  basic_header = record { lsn = 0; page_index = j; pid = file_id; version = 1 };
}

-- The outer loop, over the index pages that are left, the last of which is the 0 pushed before.
unfoldable pub store_from : ℕ → ℕ → ℕ → ℕ → List ℕ → List ℕ → (ℕ → IndexPage) → ℕ → IndexPage
unfolding write_entries
store_from per_page first_fsm seg_id file_id [] ps content = content
store_from per_page first_fsm seg_id file_id (j ∷ []) ps content = content
store_from per_page first_fsm seg_id file_id (j ∷ (next ∷ js)) ps content =
    let w = write_entries per_page 0 ps (content j).entries in
    let page : IndexPage = record {
      entries = w.2;
      header = index_header w.0 first_fsm j next seg_id file_id;
    } in
    store_from per_page first_fsm seg_id file_id (next ∷ js) w.1 (set_content j page content)

-- `_indexPages.push_back(0)`, then the loop; `_fsmPages.at(0)` throws if there is a page to store and no
-- management page.
abbrev pub store_with : {P : Type 0} → List ℕ → List ℕ → Segment P → Outcome P (Unit {0})
store_with [] fsm_pages s = done tt (record s { index_pages = 0 ∷ [] })
store_with (j ∷ js) [] s = out_of_range
store_with (j ∷ js) (f ∷ fs) s =
    let all = (j ∷ js) ++ (0 ∷ []) in
    let content =
      store_from (entries_per_page s.page_size) f s.seg_id s.file_id all s.pages s.index_content in
    done tt (record s { index_pages = all; index_content = content })

unfoldable pub store_segment : {P : Type 0} → Segment P → Outcome P (Unit {0})
unfolding store_from
store_segment s = store_with s.index_pages s.fsm_pages s

-- The first `left` entries of an index page from entry `k` on.
unfoldable pub read_entries : ℕ → ℕ → (ℕ → ℕ) → List ℕ
read_entries zero k e = []
read_entries (suc left) k e = e k ∷ read_entries left (k + 1) e

-- The loop of `loadSegment` over the index pages; `l1FSM` is `none` until it is set.
unfoldable pub load_index : {P : Type 0} → ℕ → ℕ → Option ℕ → Segment P → Outcome P (Option ℕ)
unfolding read_entries
load_index zero n first_fsm s = out_of_fuel
load_index (suc fuel) n first_fsm s =
    let p = s.index_content n in
    let h = p.header in
    let later = load_index fuel h.next_index_page (some h.first_fsm) (record s {
      index_pages = s.index_pages ++ (n ∷ []);
      seg_id = h.seg_id;
      pages = s.pages ++ read_entries h.curr_size 0 p.entries;
    }) in
    if n == 0 then done first_fsm s else later

-- The loop over the management pages, behind `f`, which was pushed last.
unfoldable pub load_fsm : {P : Type 0} → ℕ → ℕ → Segment P → Outcome P (Unit {0})
load_fsm zero f s = out_of_fuel
load_fsm (suc fuel) f s =
    let next = (s.fsm_content f).next_fsm in
    let later = load_fsm fuel next (record s { fsm_pages = s.fsm_pages ++ (next ∷ []) }) in
    if f == 0 then done tt s else later

abbrev pub load_chain : {P : Type 0} → ℕ → Option ℕ → Segment P → Outcome P (Unit {0})
load_chain fuel none s = undefined
load_chain fuel (some f) s = load_fsm fuel f (record s { fsm_pages = s.fsm_pages ++ (f ∷ []) })

-- `_fsmPages.erase(_fsmPages.end()-1)` behind a last page 0.
unfoldable pub drop_zero : List ℕ → List ℕ
drop_zero [] = []
drop_zero (f ∷ []) = if f == 0 then [] else f ∷ []
drop_zero (f ∷ (g ∷ gs)) = f ∷ drop_zero (g ∷ gs)

-- `loadSegmentUnbuffered`, which reads the pages from the partition: the segment is given with what is
-- stored there. The last 0 stays on `_fsmPages`.
unfoldable pub load_segment_unbuffered : {P : Type 0} → ℕ → ℕ → Segment P → Outcome P (Unit {0})
unfolding load_index load_fsm
load_segment_unbuffered fuel n s =
    bind (load_index fuel n none s) (λ first_fsm t. load_chain fuel first_fsm t)

-- `loadSegment`, which reads the pages through the buffer.
unfoldable pub load_segment : {P : Type 0} → ℕ → ℕ → Segment P → Outcome P (Unit {0})
unfolding load_index load_fsm drop_zero
load_segment fuel n s = bind (load_index fuel n none s) (λ first_fsm t.
    bind (load_chain fuel first_fsm t)
      (λ u v. done tt (record v { fsm_pages = drop_zero v.fsm_pages })))
