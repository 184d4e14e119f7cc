-- ===== src/Buffer/Pool/Victim.antt =====
-- The frame that `getFrame` takes away from a page that is in the buffer.
use master_team_projekt.Prelude.{
  ℕ, ◌<◌, ◌≡◌, ◌≢◌, refl, Bool, Option, none, some, List, true, false, ltb, ◌⊎◌, Bool-cases, inl,
  inr, count, arith,
}
use master_team_projekt.Infra.Types.{PageId}
use master_team_projekt.Buffer.Block.{Block, lock_exclusive, unlock, unlock_by}
use master_team_projekt.Buffer.Free.Frames.{frames}
use master_team_projekt.Buffer.Pool.{
  Frame, Device, Pool, Failure, done, get_frame_ptr, try_lock, flush, or_fail,
}
use master_team_projekt.Buffer.Pool.Coherent.{Answers, IsDevice, IsCoherent}

-- A lock that `try_lock` gets is free again once it is released.
pub try_lock-unlock :
    {D : Type 0} (i : ℕ) (b : Block) (s : Pool D)
    → try_lock i s ≡ some b
    → ((unlock b).readers ≡ 0) × ((unlock b).writer ≡ false) × ((s.locks i).fix_count ≡ 0)
unfolding lock_exclusive unlock unlock_by
try_lock-unlock i b s e = ground (arith, e)

-- The disk refuses a page.
abbrev pub DeviceFails : {D : Type 0} → Device D → Type 0
DeviceFails {D} device =
    ((p : PageId) × (d : D) × (device.read_page p d ≡ none))
    ⊎ ((p : PageId) × (c : Frame) × (d : D) × (device.write_page p c d ≡ none))

module _ {D : Type 0} (device : Device D) where
  -- What a flush of the block `i` leaves: nothing but the disk changes, which then holds the page.
  pub record Flushes (i : ℕ) (s t : Pool D) : Type 0 where
    pub rest : t ≡ record s { disk = t.disk }
    pub stored :
        s.blocks.modified i ≡ true
        → device.read_page (s.blocks.page_id i) t.disk ≡ some (s.frame (s.blocks.frame_index i))
    pub others :
        (q : PageId)
        → device.serves q ≡ true
        → ((s.blocks.modified i ≡ true) → q ≢ s.blocks.page_id i)
        → device.read_page q t.disk ≡ device.read_page q s.disk

  abbrev pub OnlyDisk : Failure → Type 0
  OnlyDisk Failure.disk_exception = DeviceFails device
  OnlyDisk _ = ⊥

  pub flush-Flushes :
      (laws : IsDevice device) (i : ℕ) (s : Pool D)
      → (s.blocks.modified i ≡ true → s.blocks.frame_index i < s.no_frames)
      → device.serves (s.blocks.page_id i) ≡ true
      → Answers OnlyDisk (λ u t. Flushes i s t) (flush device i s)
  unfolding flush get_frame_ptr
  flush-Flushes laws i s small served = elim (Bool-cases (s.blocks.modified i)) [
    | inr clean ↦
        rw clean (record { rest = refl; stored = λ dirty. absurd cc; others = λ q has other. refl })
    | inl dirty ↦
        let inside : ltb (s.blocks.frame_index i) s.no_frames ≡ true =
          ground (arith, small dirty) in
        rw (dirty, inside)
          (written dirty
            (device.write_page (s.blocks.page_id i) (s.frame (s.blocks.frame_index i)) s.disk) refl)
  ]
    where
      written :
          s.blocks.modified i ≡ true
          → (r : Option D)
          → device.write_page (s.blocks.page_id i) (s.frame (s.blocks.frame_index i)) s.disk ≡ r
          → Answers OnlyDisk
              (λ u t. Flushes i s t)
              (or_fail Failure.disk_exception r (λ d. done tt (record s { disk = d })))
      written dirty none e = inr (_, _, _, e)
      written dirty (some d) e = record {
        rest = refl;
        stored = λ m. laws.read-write _ _ _ d served e;
        others = λ q has other. laws.read-write_ne _ q _ _ d (other dirty) served has e;
      }

module _ {D : Type 0} (device : Device D) (std_hash : ℕ → ℕ) (a : PageId → Option Frame)
    (loading : ℕ → Bool) where
  -- A frame `f` that no page has, while nothing else of the buffer changes but the pages that leave it, which
  -- nobody holds.
  pub record Grants (chain : ℕ → List ℕ) (s : Pool D) (f : ℕ) (t : Pool D) : Type 0 where
    pub chain' : ℕ → List ℕ
    pub free' : List ℕ
    pub coherent : IsCoherent device std_hash a loading chain' free' t
    pub in_range : f < s.no_frames
    pub unused : (h i : ℕ) → 0 < count i (chain' h) → t.blocks.frame_index i ≢ f
    pub not_free : count f (frames t.blocks.free_frames) ≡ 0
    pub fewer : (h i : ℕ) → 0 < count i (chain' h) → 0 < count i (chain h)
    pub stays :
        (h i : ℕ) → (s.locks i).fix_count ≢ 0 → 0 < count i (chain h) → 0 < count i (chain' h)
    pub locks : (i : ℕ) → (s.locks i).fix_count ≢ 0 → t.locks i ≡ s.locks i
    pub frame : t.frame ≡ s.frame
    pub page_id : t.blocks.page_id ≡ s.blocks.page_id
    pub frame_index : t.blocks.frame_index ≡ s.blocks.frame_index
    pub modified : t.blocks.modified ≡ s.blocks.modified
    pub table_size : t.blocks.table_size ≡ s.blocks.table_size
    pub no_frames : t.no_frames ≡ s.no_frames
