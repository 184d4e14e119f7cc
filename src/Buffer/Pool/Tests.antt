-- ===== src/Buffer/Pool/Tests.antt =====
-- A buffer of two frames with one page that was changed.
use master_team_projekt.Prelude.{
  ℕ, ◌<◌, ◌≡◌, ◌≢◌, refl, sym, Bool, true, false, Option, none, some, List, [], ◌∷◌, ◌==◌,
  if◌then◌else◌, Bool-cases, inl, inr, count, length, arith,
}
use master_team_projekt.Infra.Types.{PageId, LockMode, page_id_eq, page_id_eq_iff}
use master_team_projekt.Buffer.Block.{Block, new_block}
use master_team_projekt.Buffer.Free.Frames.{below}
use master_team_projekt.Buffer.Free.Chain.{IsChain}
use master_team_projekt.Buffer.Pool.{
  Frame, Device, Pool, Failure, fails, try_lock, fix, emptyfix, flush_all, init,
}
use master_team_projekt.Buffer.Pool.Coherent.{Answers, IsDevice, IsCoherent, IsBuffer, idle}
use master_team_projekt.Partition.Base.{open_file, close_file, read_page}
use master_team_projekt.Buffer.Pool.Disk.{Files, partitions, partitions-IsDevice, read_closed}
use master_team_projekt.Buffer.Pool.Links.{IsAway}
use master_team_projekt.Buffer.Pool.Victim.{OnlyDisk}
use master_team_projekt.Buffer.Pool.Locate.{NotLocated}
use master_team_projekt.Buffer.Pool.Fix.{NotFixed, Fixes, fix-Fixes}
use master_team_projekt.Buffer.Pool.Flush.{IsFlushed, flush_all-IsFlushed}
use master_team_projekt.Buffer.Pool.Create.{update, Creates, emptyfix-Creates}
use master_team_projekt.Buffer.Pool.Busy.{fix-endless}
use master_team_projekt.Buffer.Pool.Init.{init-IsBuffer}

-- Partitions of 100 pages of 4096 bytes.
abbrev memory : Device Files
memory = partitions 4096 100 false true true

memory-IsDevice : IsDevice memory
memory-IsDevice = partitions-IsDevice 4096 100 false true true (omega arith)

abbrev frame_with : ℕ → Frame
frame_with n = record {
  bits = λ k. k == n;
  header = record {
    free_blocks_count = n;
    next_free_page = 0;
    managed_pages = 0;
    version = 0;
    basic_header = record { lsn = 0; page_index = 0; pid = 0; version = 0 };
  };
}

abbrev page : ℕ → PageId
page n = record { file_id = 1; page_no = n }

-- Block 0 holds page 5 in frame 0; block 1 and frame 1 are free.
abbrev small_pool : Pool Files
small_pool = record {
  blocks = record {
    next = λ i. none;
    page_id = λ i. page 5;
    frame_index = λ i. 0;
    modified = λ i. true;
    free_bcb_list = some 1;
    no_free_bcbs = 1;
    bucket = λ h. if h == 0 then some 0 else none;
    table_size = 2;
    free_frames = record { allocated = true; free_frame_list = λ i. 1; no_free_frames = 1 };
  };
  locks = λ i. new_block;
  frame = λ f. frame_with 7;
  no_frames = 2;
  disk = λ id o. frame_with 3;
}

abbrev pages : PageId → Option Frame
pages = update (λ q. some (frame_with 3)) (page 5) (frame_with 7)

abbrev chains : ℕ → List ℕ
chains h = if h == 0 then 0 ∷ [] else []

only_zero : (h i : ℕ) → 0 < count i (chains h) → (h ≡ 0) × (i ≡ 0)
only_zero h i on = ground (arith, on)

in_bucket : (h : ℕ) → IsChain small_pool.blocks.next (small_pool.blocks.bucket h) (chains h)
in_bucket h = elim (Bool-cases (h == 0)) [ inl e ↦ rw e (refl, refl) | inr e ↦ rw e refl ]

small-IsCoherent : IsCoherent memory (λ n. n) pages idle chains (1 ∷ []) small_pool
unfolding below page_id_eq read_closed open_file close_file read_page
small-IsCoherent = record {
  linked = record {
    chains = in_bucket;
    free_list = (refl, refl);
    hashed = λ h i on. sym (only_zero h i on).0;
    once = λ h i. ground arith;
    single = λ h i j on on' e. omega (arith, (only_zero h i on).1, (only_zero h j on').1);
  };
  framed = record {
    owned = λ h i on known. (omega arith, refl);
    sole = λ h k i j on on' known e. omega (arith, (only_zero h i on).1, (only_zero k j on').1);
    free_once = λ f. ground arith;
    free_small = λ f on. ground (arith, on);
    number = omega arith;
  };
  shows = record {
    brought = λ h i on l z. omega (arith, z);
    cached = λ h i on l. refl;
    known = λ h i on. refl;
    stored = λ p has clean. elim (Bool-cases (page_id_eq p (page 5))) [
      | inl e ↦
          absurd (clash (clean 0 0 (omega arith) refl (sym ((page_id_eq_iff p (page 5)).0 e))))
      | inr e ↦ rw e refl
    ];
  };
  unlocked = λ i on. (refl, refl);
}
  where
    clash : ◌≡◌ {A = Bool} true false → ⊥
    clash e = cc

abbrev small_buffer : IsBuffer memory (λ n. n) pages small_pool
small_buffer = record { chain = chains; free = 1 ∷ []; coherent = small-IsCoherent }

short_chains : (h : ℕ) → length (chains h) < 2
short_chains h = ground arith

away : IsAway chains (page 9) small_pool.blocks
away h i on e = absurd (differs e)
  where
    differs : page 5 ≢ page 9
    differs e = ground (arith, e)

-- Page 9 takes the free block and the free frame.
fix-Fixes_example :
    Answers
      (NotFixed memory chains [] (page 9) LockMode.shared small_pool)
      (Fixes memory (λ n. n) pages (page 9) LockMode.shared)
      (fix memory (λ n. n) 2 [] (page 9) LockMode.shared small_pool)
fix-Fixes_example =
    fix-Fixes memory memory-IsDevice (λ n. n) pages (page 9) LockMode.shared small_pool small_buffer
      2 short_chains [] refl

emptyfix-Creates_example :
    Answers
      (NotLocated memory chains [] small_pool)
      (Creates memory (λ n. n) pages (page 9))
      (emptyfix memory (λ n. n) 2 [] (page 9) small_pool)
emptyfix-Creates_example =
    emptyfix-Creates memory (λ n. n) pages (page 9) 2 [] small_pool small_buffer memory-IsDevice
      refl away short_chains

flush_all-IsFlushed_example :
    Answers
      (OnlyDisk memory)
      (λ u t. IsFlushed memory (λ n. n) pages small_pool t)
      (flush_all memory 2 small_pool)
flush_all-IsFlushed_example =
    flush_all-IsFlushed memory (λ n. n) pages 2 small_pool small_buffer memory-IsDevice short_chains
      (omega arith)

abbrev raw_pool : Pool Files
raw_pool = record small_pool {
  blocks = record (small_pool.blocks) {
    free_frames = record { allocated = false; free_frame_list = λ i. 0; no_free_frames = 0 };
  };
}

init-IsBuffer_example :
    IsBuffer memory (λ n. n) (λ q. memory.read_page q raw_pool.disk) (init 4 raw_pool)
init-IsBuffer_example = init-IsBuffer memory (λ n. n) 4 raw_pool (omega arith) (omega arith) refl

-- Page 5 is held, and no frame is free.
abbrev one_writer : Block
one_writer = record { readers = 0; writer = true; mode = LockMode.exclusive; fix_count = 1 }

abbrev busy_pool : Pool Files
busy_pool = record small_pool {
  blocks = record (small_pool.blocks) {
    free_frames = record { allocated = true; free_frame_list = λ i. 1; no_free_frames = 0 };
  };
  locks = λ i. if i == 0 then one_writer else new_block;
}

busy-IsCoherent : IsCoherent memory (λ n. n) pages idle chains (1 ∷ []) busy_pool
unfolding below
busy-IsCoherent = record {
  linked = record {
    chains = small-IsCoherent.linked.chains;
    free_list = small-IsCoherent.linked.free_list;
    hashed = small-IsCoherent.linked.hashed;
    once = small-IsCoherent.linked.once;
    single = small-IsCoherent.linked.single;
  };
  framed = record {
    owned = λ h i on known. (omega arith, refl);
    sole = small-IsCoherent.framed.sole;
    free_once = λ f. omega arith;
    free_small = λ f on. absurd (omega (arith, on));
    number = omega arith;
  };
  shows = record {
    brought = small-IsCoherent.shows.brought;
    cached = small-IsCoherent.shows.cached;
    known = small-IsCoherent.shows.known;
    stored = small-IsCoherent.shows.stored;
  };
  unlocked = λ i on. ground (arith, on);
}

abbrev busy_buffer : IsBuffer memory (λ n. n) pages busy_pool
busy_buffer = record { chain = chains; free = 1 ∷ []; coherent = busy-IsCoherent }

-- Page 9 is asked for while page 5 is held.
fix-endless_example :
    fix memory (λ n. n) 2 (0 ∷ 1 ∷ 0 ∷ []) (page 9) LockMode.shared busy_pool
    ≡ fails Failure.no_choice
unfolding below
fix-endless_example =
    fix-endless memory (λ n. n) pages (page 9) LockMode.shared 2 busy_pool busy_buffer away
      short_chains free_block refl (λ h i on. all_held i (only_zero h i on).1) refl (0 ∷ 1 ∷ 0 ∷ [])
  where
    all_held : (i : ℕ) → i ≡ 0 → try_lock i busy_pool ≡ none
    all_held i e = ground (arith, e)

    free_block : busy_pool.blocks.free_bcb_list ≢ none
    free_block e = cc
