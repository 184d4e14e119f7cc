-- ===== src/Segment/Fsm.antt =====
-- src/segment/segment_fsm.cc: the choice of a page with enough free bytes along the free space management
-- pages of a segment.
pub mod Owned
pub mod Chain
pub mod Reserve
pub mod Append
pub mod Choose
pub mod Takes
pub mod Create
use master_team_projekt.Prelude.{
  ℕ, ◌+◌, ◌-◌, ◌*◌, ◌/◌, ◌%◌, List, [], ◌∷◌, ◌++◌, Option, none, some, Bool, true, false, ltb, leb,
  ◌==◌, if◌then◌else◌, length, get_elem?,
}
use master_team_projekt.Prelude.Word.{mod_64, add_64, sub_32}
use master_team_projekt.Infra.Types.{PageStatus, bucket, invalid_32}
use master_team_projekt.Infra.Headers.{basic_header_size, fsm_header_size}
use master_team_projekt.Interpreter.Fsm
use master_team_projekt.Interpreter.Fsm.{
  FsmPage, get_max_pages_per_fsm, init_new_fsm, calc_page_status,
}
use master_team_projekt.Segment.Space.{Space}
use master_team_projekt.Segment.State.{
  Segment, Outcome, done, nsm_exception, out_of_range, undefined, bind, push_index, push_page,
  push_fsm, set_content, allocate, new_base, reserve_index, free_pages, erase_base,
}

-- The page that was chosen, and whether it is new (`emptyfix`).
pub record Choice : Type 0 where
  pub page_no : ℕ
  pub emptyfix : Bool

abbrev pub write_fsm : {P : Type 0} → ℕ → FsmPage → Segment P → Segment P
write_fsm f c s = record s { fsm_content = set_content f c s.fsm_content }

-- `_nextFSM` of a page in the buffer.
abbrev pub link_fsm : {P : Type 0} → ℕ → ℕ → Segment P → Segment P
link_fsm f next s =
    let c = s.fsm_content f in
    write_fsm f (record c { header = record (c.header) { next_fsm = next } }) s

abbrev pub known_page : {P : Type 0} → Option ℕ → Segment P → Outcome P Choice
known_page none s = out_of_range
known_page (some n) s = done (record { page_no = n; emptyfix = false }) s

module _ {P : Type 0} (space : Space P) where
  -- A new data page.
  unfoldable pub append_page : Segment P → Outcome P Choice
  append_page s = bind (allocate space s) (λ n t.
      bind (reserve_index space (push_page n t))
        (λ u v. done (record { page_no = n; emptyfix = true }) v))

  -- The management page number `i` answered with a page of its own.
  unfoldable pub take_index : ℕ → ℕ → Segment P → Outcome P Choice
  take_index i index s =
      let k = add_64 index (i * get_max_pages_per_fsm s.page_size % mod_64) in
      if leb (length s.pages) k then append_page s else known_page (get_elem? s.pages k) s

  -- Behind the last management page `last`: one more management page and the data page behind it.
  unfoldable pub append_fsm : ℕ → Segment P → Outcome P Choice
  append_fsm last s = bind (allocate space s) (λ f t.
      let linked = link_fsm last f (push_fsm f t) in
      let pages_per_fsm = get_max_pages_per_fsm t.page_size in
      let fresh = init_new_fsm t.page_size (linked.fsm_content f) 0 f t.file_id pages_per_fsm in
      append_page (write_fsm f fresh linked))

  -- The loop over `_fsmPages`: the pages from number `i` on, and the page before them.
  unfoldable pub search_fsm : ℕ → ℕ → ℕ → List ℕ → Option ℕ → Segment P → Outcome P Choice
  search_fsm size bytes i [] none s = undefined
  search_fsm size bytes i [] (some last) s = append_fsm last s
  search_fsm size bytes i (f ∷ fs) last s = elim (calc_page_status size bytes) [
    | PageStatus.no_type ↦ nsm_exception s
    | PageStatus.bucket level ↦
        let r = Fsm.get_free_page s.page_size (s.fsm_content f) level in
        let t = write_fsm f r.1 s in
        let later = search_fsm size bytes (i + 1) fs (some f) t in
        if r.0 == invalid_32 then later else take_index i r.0 t
  ]

  -- `SegmentFSM::getFreePage`.
  unfoldable pub get_free_page : ℕ → ℕ → Segment P → Outcome P Choice
  get_free_page bytes overhead s =
      let size = sub_32 s.page_size overhead in
      if ltb size bytes then nsm_exception s else search_fsm size bytes 0 s.fsm_pages none s

  -- `SegmentFSM::getNewPage`, with the default `aSizeOfOverhead`.
  unfoldable pub get_new_page : Segment P → Outcome P Choice
  get_new_page s = get_free_page (sub_32 s.page_size basic_header_size) basic_header_size s

  -- `SegmentFSM::SegmentFSM`, on the constructor of the base class.
  unfoldable pub new_segment : ℕ → Segment P → Outcome P (Unit {0})
  new_segment seg_id s = bind (new_base space seg_id s) (λ u t. bind (allocate space t) (λ f v.
      let pages = (v.page_size - fsm_header_size) * 8 / 4 in
      let fresh = init_new_fsm v.page_size (v.fsm_content f) 0 f v.file_id pages in
      done tt (write_fsm f fresh (push_fsm f v))))

  -- `SegmentFSM::erase`.
  unfoldable pub erase : Segment P → Outcome P (Unit {0})
  erase s = bind (free_pages space s.fsm_pages s) (λ u t. erase_base space t)
