-- ===== src/Buffer/Pool.antt =====
-- src/buffer/buf_mngr.cc: the buffer with its frames, its control blocks and the disk behind them. A frame is a
-- page, as the partitions have it. The random choice of a bucket is a list of buckets. One call
-- runs at a time, so the mutexes of buckets and lists are free; a control block may be locked from
-- before. Pages are read and written through partitions, which are a parameter that Disk
-- fills. What an operation that fails leaves behind is left out.
pub mod Chains
pub mod Links
pub mod Victim
pub mod Evict
pub mod Search
pub mod Grant
pub mod Link
pub mod Locate
pub mod Fix
pub mod Flush
pub mod Create
pub mod Init
mod Tests
pub mod Busy
pub mod Coherent
pub mod Disk
use master_team_projekt.Prelude.{
  ◌≡◌, ◌≢◌, arith, ℕ, zero, suc, ◌+◌, ◌*◌, ◌/◌, List, [], ◌∷◌, ◌++◌, Option, none, some, Bool, true,
  false, ltb, ◌==◌, ◌&&◌, if◌then◌else◌,
}
use master_team_projekt.Infra.Types.{PageId, LockMode, invalid}
use master_team_projekt.Infra.Headers.{BasicHeader}
use master_team_projekt.Interpreter.Fsip.{FsipPage}
use master_team_projekt.Buffer.Block.{
  Block, lock_exclusive, lock_shared, lock_mode, new_block, unlock,
}
use master_team_projekt.Buffer.Free.{
  FreeFrames, Blocks, pop_bcb, insert_bcb, pop_frame, hash, set_bucket, set_next, link_block,
  find_from, init_frames, init_bcbs,
}

-- A page in memory, with the fields of the partitions' view of it.
abbrev pub Frame : Type 0
Frame = FsipPage

-- The basic header at the end of a page is written.
abbrev pub set_header : BasicHeader → Frame → Frame
set_header h c = record c { header = record (c.header) { basic_header = h } }

-- `open`, `readPage` or `writePage`, and `close` of the partition of a page; `none` for an exception. `serves` tells
-- the pages that the partitions keep apart.
pub record Device (D : Type 0) : Type 0 where
  pub serves : PageId → Bool
  pub read_page : PageId → D → Option Frame
  pub write_page : PageId → Frame → D → Option D

pub record Pool (D : Type 0) : Type 0 where
  pub blocks : Blocks
  pub locks : ℕ → Block
  pub frame : ℕ → Frame
  pub no_frames : ℕ
  pub disk : D

-- `waits` is for a lock that another thread has to release; `no_free_bcbs` is the exception that leaves the
-- `noexcept` function `locatePage`; `disk_exception` is one of a partition; `assertion_failed` that of
-- `getFramePtr`; `no_choice` is the end of the list of buckets, `out_of_fuel` that of the fuel for a chain.
pub data Failure : Type 0 where
  waits no_free_bcbs disk_exception assertion_failed no_choice out_of_fuel : Failure

pub data Answer (D : Type 0) (A : Type 0) : Type 0 where
  done : A → Pool D → Answer D A
  fails : Failure → Answer D A

abbrev pub bind : {D A B : Type 0} → Answer D A → (A → Pool D → Answer D B) → Answer D B
bind (done a s) f = f a s
bind (fails e) f = fails e

abbrev pub or_fail : {D A B : Type 0} → Failure → Option A → (A → Answer D B) → Answer D B
or_fail e none f = fails e
or_fail e (some a) f = f a

abbrev pub set_at : {A : Type 0} → ℕ → A → (ℕ → A) → ℕ → A
set_at i a f j = if j == i then a else f j

pub set_at_self : {A : Type 0} (i : ℕ) (a : A) (f : ℕ → A) → set_at i a f i ≡ a
set_at_self i a f = ground arith

pub set_at_ne : {A : Type 0} (i : ℕ) (a : A) (f : ℕ → A) (j : ℕ) → j ≢ i → set_at i a f j ≡ f j
set_at_ne i a f j ne = ground (arith, ne)

abbrev pub set_lock : {D : Type 0} → ℕ → Block → Pool D → Pool D
set_lock i b s = record s { locks = set_at i b s.locks }

abbrev pub set_frame_index : {D : Type 0} → ℕ → ℕ → Pool D → Pool D
set_frame_index i f s = record s {
  blocks = record (s.blocks) { frame_index = set_at i f s.blocks.frame_index };
}

abbrev pub set_modified : {D : Type 0} → ℕ → Bool → Pool D → Pool D
set_modified i m s = record s {
  blocks = record (s.blocks) { modified = set_at i m s.blocks.modified };
}

-- A page is written to its frame.
abbrev pub set_frame : {D : Type 0} → ℕ → Frame → Pool D → Pool D
set_frame f c s = record s { frame = set_at f c s.frame }

-- A lock of a control block, and `BufferControlBlock::unlock`.
abbrev pub acquire : {D : Type 0} → ℕ → (Block → Option Block) → Pool D → Answer D (Unit {0})
acquire i lock s = or_fail Failure.waits (lock (s.locks i)) (λ b. done tt (set_lock i b s))

abbrev pub release : {D : Type 0} → ℕ → Pool D → Pool D
release i s = set_lock i (unlock (s.locks i)) s

-- `getFramePtr`, as the number of the frame.
unfoldable pub get_frame_ptr : {D : Type 0} → ℕ → Pool D → Answer D ℕ
get_frame_ptr i s =
    if ltb (s.blocks.frame_index i) s.no_frames
    then done (s.blocks.frame_index i) s
    else fails Failure.assertion_failed

-- `getFixCount() == 0 && try_lock()`; the state of the lock behind it is `locked`.
abbrev pub try_lock : {D : Type 0} → ℕ → Pool D → Option Block
try_lock i s = if (s.locks i).fix_count == 0 then lock_exclusive (s.locks i) else none

-- `initNewPage`, which keeps the bytes before the header.
unfoldable pub init_new_page : {D : Type 0} → ℕ → PageId → ℕ → Pool D → Answer D (Unit {0})
unfolding get_frame_ptr
init_new_page i p lsn s = bind (get_frame_ptr i s) (λ f t. done tt (
    set_frame f
      (set_header (record { lsn = lsn; page_index = p.page_no; pid = p.file_id; version = 1 })
        (t.frame f))
      t))

-- The blocks of a chain, and of all chains from bucket `h` on.
unfoldable pub walk : ℕ → (ℕ → Option ℕ) → Option ℕ → List ℕ
walk zero next q = []
walk (suc fuel) next none = []
walk (suc fuel) next (some i) = i ∷ walk fuel next (next i)

unfoldable pub valid_from : ℕ → ℕ → ℕ → Blocks → List ℕ
unfolding walk
valid_from fuel zero h s = []
valid_from fuel (suc n) h s = walk fuel s.next (s.bucket h) ++ valid_from fuel n (h + 1) s

-- `getAllValidBCBs`.
unfoldable pub get_all_valid_bcbs : ℕ → Blocks → List ℕ
unfolding valid_from
get_all_valid_bcbs fuel s = valid_from fuel s.table_size 0 s

module _ {D : Type 0} (device : Device D) where
  unfoldable pub flush : ℕ → Pool D → Answer D (Unit {0})
  unfolding get_frame_ptr
  flush i s =
      if s.blocks.modified i
      then bind (get_frame_ptr i s) (λ f t.
        or_fail Failure.disk_exception (device.write_page (t.blocks.page_id i) (t.frame f) t.disk)
          (λ d. done tt (record t { disk = d })))
      else done tt s

  unfoldable pub flush_list : List ℕ → Pool D → Answer D (Unit {0})
  flush_list [] s = done tt s
  flush_list (i ∷ is) s = bind (flush i s) (λ u t. flush_list is t)

  unfoldable pub flush_all : ℕ → Pool D → Answer D (Unit {0})
  flush_all fuel s = flush_list (get_all_valid_bcbs fuel s.blocks) s

  -- The victim `i` in `getFrame`, which `b` locks and `relink` takes out of its chain.
  unfoldable pub take_victim : ℕ → (Blocks → Blocks) → Block → Pool D → Answer D ℕ
  take_victim i relink b s = bind (flush i (set_lock i b s)) (λ u t.
      let given = record t { blocks = insert_bcb i (relink t.blocks) } in
      done (t.blocks.frame_index i) (release i given))

  -- `getFrame` at the block `i` of a chain, whose next one is given; `none` if there is no victim.
  unfoldable pub evict_after : ℕ → ℕ → Option ℕ → Pool D → Option (Answer D ℕ)
  evict_after zero i q s = some (fails Failure.out_of_fuel)
  evict_after (suc fuel) i none s = none
  evict_after (suc fuel) i (some j) s =
      let later = evict_after fuel j (s.blocks.next j) s in
      elim (try_lock j s) [
        | none ↦ later
        | some b ↦ some (take_victim j (set_next i (s.blocks.next j)) b s)
      ]

  -- `getFrame` on the chain of bucket `h`, whose first block is given.
  unfoldable pub evict_in : ℕ → ℕ → Option ℕ → Pool D → Option (Answer D ℕ)
  evict_in fuel h none s = none
  evict_in fuel h (some i) s = elim (try_lock i s) [
    | none ↦ evict_after fuel i (s.blocks.next i) s
    | some b ↦ some (take_victim i (set_bucket h (s.blocks.next i)) b s)
  ]

  -- The loop of `getFrame` over the buckets that are chosen.
  unfoldable pub evict : ℕ → List ℕ → Pool D → Answer D ℕ
  evict fuel [] s = fails Failure.no_choice
  evict fuel (h ∷ hs) s = elim (evict_in fuel h (s.blocks.bucket h) s) [
    | none ↦ evict fuel hs s
    | some r ↦ r
  ]

  unfoldable pub get_frame : ℕ → List ℕ → Pool D → Answer D ℕ
  get_frame fuel choices s =
      let popped = pop_frame s.blocks.free_frames in
      if popped.0 == invalid
      then evict fuel choices s
      else done popped.0 (record s { blocks = record (s.blocks) { free_frames = popped.1 } })

  unfoldable pub read_page_in : ℕ → PageId → Pool D → Answer D (Unit {0})
  read_page_in i p s = bind (acquire i lock_shared s) (λ u t. bind (get_frame_ptr i t) (λ f v.
      or_fail Failure.disk_exception (device.read_page p v.disk)
        (λ c. done tt (release i (set_frame f c v)))))

  module _ (std_hash : ℕ → ℕ) where
    unfoldable pub locate_page : ℕ → List ℕ → PageId → Pool D → Answer D ℕ
    locate_page fuel choices p s = or_fail Failure.no_free_bcbs (pop_bcb s.blocks) (λ r.
        bind (acquire r.0 lock_exclusive (record s { blocks = r.1 })) (λ u t.
          bind (get_frame fuel choices (record t { blocks = link_block std_hash p r.0 t.blocks }))
            (λ f v. done r.0 (release r.0 (set_frame_index r.0 f v)))))

    -- The two ways of `fix`: a page that is found is waited for while it is brought in.
    unfoldable pub fix_found : ℕ → LockMode → Pool D → Answer D ℕ
    fix_found i mode s =
        if s.blocks.frame_index i == invalid
        then fails Failure.waits
        else bind (acquire i (lock_mode mode) s) (λ u t. done i t)

    unfoldable pub fix_missing : ℕ → List ℕ → PageId → LockMode → Pool D → Answer D ℕ
    fix_missing fuel choices p mode s = bind (locate_page fuel choices p s) (λ i t.
        bind (read_page_in i p t) (λ u v. bind (acquire i (lock_mode mode) v) (λ u w. done i w)))

    unfoldable pub fix : ℕ → List ℕ → PageId → LockMode → Pool D → Answer D ℕ
    fix fuel choices p mode s =
        elim (find_from fuel (s.blocks.bucket (hash std_hash s.blocks p)) p s.blocks) [
          | none ↦ fix_missing fuel choices p mode s
          | some i ↦ fix_found i mode s
        ]

    unfoldable pub emptyfix : ℕ → List ℕ → PageId → Pool D → Answer D ℕ
    emptyfix fuel choices p s = bind (locate_page fuel choices p s) (λ i t.
        bind (acquire i lock_exclusive t)
          (λ u v. bind (init_new_page i p 1 (set_modified i true v)) (λ u w. done i w)))

unfoldable pub unfix : {D : Type 0} → ℕ → Pool D → Pool D
unfix i s = release i s

-- `init`, for `n` frames, on the members of a new object.
unfoldable pub init : {D : Type 0} → ℕ → Pool D → Pool D
init n s = record s {
  blocks = init_bcbs (n * 6 / 5) (record (s.blocks) {
    table_size = n;
    bucket = λ h. none;
    free_frames = init_frames n s.blocks.free_frames;
  });
  locks = λ i. new_block;
  no_frames = n;
}
