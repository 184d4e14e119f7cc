-- ===== src/Buffer/Free.antt =====
-- src/buffer/buf_mngr.{hh,cc} and buf_hash_table.{hh,cc}: the free frames, the list of free control blocks
-- and the hash chains. A control block is its number in `_BCBs`, and `next` is `_nextInChain` of each; the
-- two kinds of list share it. The mutexes that the methods hold meanwhile are left out.
pub mod Chain
pub mod Frames
pub mod Lists
pub mod Table
use master_team_projekt.Prelude.{
  ℕ, zero, suc, ◌+◌, ◌-◌, ◌%◌, Bool, true, false, ltb, ◌==◌, if◌then◌else◌, Option, none, some,
}
use master_team_projekt.Prelude.Word.{mod_64, add_64, sub_64}
use master_team_projekt.Infra.Types.{PageId, page_id_eq, invalid}

-- `BufferManager::FreeFrames`: an array that is used as a stack.
pub record FreeFrames : Type 0 where
  pub allocated : Bool
  pub free_frame_list : ℕ → ℕ
  pub no_free_frames : ℕ

unfoldable pub init_frames : ℕ → FreeFrames → FreeFrames
init_frames n f = if f.allocated then f else record {
  allocated = true;
  free_frame_list = λ i. if ltb i n then i else f.free_frame_list i;
  no_free_frames = n;
}

unfoldable pub pop_frame : FreeFrames → ℕ × FreeFrames
pop_frame f =
    if ltb 0 f.no_free_frames
    then (
      f.free_frame_list (f.no_free_frames - 1),
      record f { no_free_frames = f.no_free_frames - 1 },
    )
    else (invalid, f)

unfoldable pub push_frame : ℕ → FreeFrames → FreeFrames
push_frame frame f = record f {
  free_frame_list = λ i. if i == f.no_free_frames then frame else f.free_frame_list i;
  no_free_frames = add_64 f.no_free_frames 1;
}

-- The control blocks with `FreeBCBs` and the buckets of the hash table.
pub record Blocks : Type 0 where
  pub next : ℕ → Option ℕ
  pub page_id : ℕ → PageId
  pub frame_index : ℕ → ℕ
  pub modified : ℕ → Bool
  pub free_bcb_list : Option ℕ
  pub no_free_bcbs : ℕ
  pub bucket : ℕ → Option ℕ
  pub table_size : ℕ
  pub free_frames : FreeFrames

abbrev pub set_next : ℕ → Option ℕ → Blocks → Blocks
set_next i p s = record s { next = λ j. if j == i then p else s.next j }

-- The loop of `FreeBCBs::init` over the blocks from `i` on, behind the block `new`.
unfoldable pub link_from : ℕ → ℕ → ℕ → Blocks → Blocks
link_from zero i new s = s
link_from (suc n) i new s = link_from n (i + 1) i (set_next new (some i) s)

-- Called once, when there is no list, with at least one block; a new block has no next one.
unfoldable pub init_bcbs : ℕ → Blocks → Blocks
unfolding link_from
init_bcbs n s = link_from n 0 0 (record s {
  next = λ j. if ltb j n then none else s.next j;
  free_bcb_list = some 0;
  no_free_bcbs = n;
})

-- `popFromList`, or `none` for a `NoFreeBCBsException`.
unfoldable pub pop_bcb : Blocks → Option (ℕ × Blocks)
pop_bcb s = elim s.free_bcb_list [
  | none ↦ none
  | some i ↦ some (
    i,
    set_next i none (record s { free_bcb_list = s.next i; no_free_bcbs = sub_64 s.no_free_bcbs 1 }),
  )
]

unfoldable pub insert_bcb : ℕ → Blocks → Blocks
insert_bcb i s =
    let linked = set_next i s.free_bcb_list s in
    record linked { free_bcb_list = some i; no_free_bcbs = add_64 s.no_free_bcbs 1 }

-- `BufferHashTable::hash`, with `std::hash<uint>` as a parameter.
abbrev pub hash : (ℕ → ℕ) → Blocks → PageId → ℕ
hash std_hash s p = add_64 (std_hash p.file_id) (std_hash p.page_no) % s.table_size

abbrev pub set_bucket : ℕ → Option ℕ → Blocks → Blocks
set_bucket h p s = record s { bucket = λ k. if k == h then p else s.bucket k }

-- `locatePage` up to the search for a frame: the block becomes the first in its chain.
unfoldable pub link_block : (ℕ → ℕ) → PageId → ℕ → Blocks → Blocks
link_block std_hash p i s =
    let h = hash std_hash s p in
    let named = record s {
      page_id = λ j. if j == i then p else s.page_id j;
      frame_index = λ j. if j == i then invalid else s.frame_index j;
      modified = λ j. if j == i then false else s.modified j;
    } in
    set_bucket h (some i) (set_next i (s.bucket h) named)

-- The search of `fix` along a chain.
unfoldable pub find_from : ℕ → Option ℕ → PageId → Blocks → Option ℕ
find_from zero q p s = none
find_from (suc fuel) none p s = none
find_from (suc fuel) (some i) p s =
    let later = find_from fuel (s.next i) p s in
    if page_id_eq (s.page_id i) p then some i else later

-- The frame and the block of a victim are given back.
abbrev pub give_back : ℕ → Blocks → Blocks
give_back i s = insert_bcb i (record s { free_frames = push_frame (s.frame_index i) s.free_frames })

-- The loop of `resetBCB` at the block `i`, whose next one is given.
unfoldable pub unlink_from : ℕ → ℕ → Option ℕ → PageId → Blocks → Blocks
unlink_from zero i q p s = s
unlink_from (suc fuel) i none p s = s
unlink_from (suc fuel) i (some j) p s =
    let later = unlink_from fuel j (s.next j) p s in
    if page_id_eq (s.page_id j) p then set_next i (s.next j) (give_back j s) else later

-- `resetBCB` on the chain of bucket `h`, whose first block is given.
unfoldable pub reset_in : ℕ → ℕ → Option ℕ → PageId → Blocks → Blocks
unfolding unlink_from
reset_in fuel h none p s = s
reset_in fuel h (some i) p s =
    let later = unlink_from fuel i (s.next i) p s in
    if page_id_eq (s.page_id i) p then give_back i (set_bucket h (s.next i) s) else later

unfoldable pub reset_bcb : (ℕ → ℕ) → ℕ → PageId → Blocks → Blocks
unfolding reset_in
reset_bcb std_hash fuel p s = let h = hash std_hash s p in reset_in fuel h (s.bucket h) p s
