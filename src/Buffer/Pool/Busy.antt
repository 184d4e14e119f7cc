-- ===== src/Buffer/Pool/Busy.antt =====
-- `fix` when all pages of the buffer are held.
use master_team_projekt.Prelude.{
  ℕ, zero, suc, ◌≤◌, ◌<◌, ◌≡◌, ◌≢◌, refl, ap, ◌∙◌, Option, none, some, List, [], ◌∷◌, count, length,
  arith, true, false, ◌==◌, ◌⊎◌, if◌then◌else◌, Bool-cases, ==→≡, ==→≢, inl, inr,
}
use master_team_projekt.Infra.Types.{PageId, LockMode, invalid}
use master_team_projekt.Buffer.Block.{Block, lock_exclusive}
use master_team_projekt.Buffer.Free.{pop_frame, hash, find_from}
use master_team_projekt.Buffer.Free.Chain.{IsChain}
use master_team_projekt.Buffer.Free.Frames.{frames, uncons, pop_frame-frames}
use master_team_projekt.Buffer.Free.Table.{first_for, first_for-some, find_from-first_for}
use master_team_projekt.Buffer.Pool.{
  Frame, Device, Pool, Failure, fails, try_lock, evict_after, evict_in, evict, get_frame,
  locate_page, fix_missing, fix,
}
use master_team_projekt.Buffer.Pool.Coherent.{IsBuffer, IsCoherent, idle}
use master_team_projekt.Buffer.Pool.Links.{IsAway, pop_bcb-some}
use master_team_projekt.Buffer.Pool.Link.{
  Locks, free-Locks, with_block, with_chain, with_block-IsCoherent, same_frames, was_on,
}

module _ {D : Type 0} (device : Device D) (s : Pool D) where
  -- The blocks of a list are held.
  AreHeld : List ℕ → Type 0
  AreHeld is = (i : ℕ) → 0 < count i is → try_lock i s ≡ none

  evict_after-held :
      (fuel i : ℕ) (q : Option ℕ) (js : List ℕ)
      → IsChain s.blocks.next q js
      → AreHeld js
      → length js < fuel
      → evict_after device fuel i q s ≡ none
  unfolding evict_after AreHeld
  evict_after-held zero i q js c held enough = absurd (omega (arith, enough))
  evict_after-held (suc fuel) i q [] c held enough = rw c refl
  evict_after-held (suc fuel) i q (j ∷ js) (head, tail) held enough = rw head (
      rw (held j (ground arith), evict_after)
        (evict_after-held fuel j (s.blocks.next j) js tail (λ k on. held k (omega (arith, on)))
          (omega (arith, enough))))

  evict_in-held :
      (fuel h : ℕ) (q : Option ℕ) (is : List ℕ)
      → IsChain s.blocks.next q is
      → AreHeld is
      → length is ≤ fuel
      → evict_in device fuel h q s ≡ none
  unfolding evict_in AreHeld
  evict_in-held fuel h q [] c held enough = rw c refl
  evict_in-held fuel h q (i ∷ is) (head, tail) held enough = rw head (
      rw (held i (ground arith), evict_in)
        (evict_after-held fuel i (s.blocks.next i) is tail (λ k on. held k (omega (arith, on)))
          (omega (arith, enough))))

-- While no frame is free and each block of the chains is held, the loop of `getFrame` finds no victim, whatever
-- buckets are chosen.
get_frame-held :
    {D : Type 0} (device : Device D) (fuel : ℕ) (s : Pool D) (chain : ℕ → List ℕ)
    → ((h : ℕ) → IsChain s.blocks.next (s.blocks.bucket h) (chain h))
    → frames s.blocks.free_frames ≡ []
    → ((h i : ℕ) → 0 < count i (chain h) → try_lock i s ≡ none)
    → ((h : ℕ) → length (chain h) ≤ fuel)
    → (choices : List ℕ) → get_frame device fuel choices s ≡ fails Failure.no_choice
unfolding get_frame evict AreHeld
get_frame-held {D} device fuel s chain is_chain empty held enough choices =
    let first : (pop_frame s.blocks.free_frames).0 ≡ invalid =
      ap (λ r. r.0) (pop_frame-frames s.blocks.free_frames ∙ ap uncons empty) in
    rw first (by_choice choices)
  where
    none_in : (h : ℕ) → evict_in device fuel h (s.blocks.bucket h) s ≡ none
    none_in h =
        evict_in-held device s fuel h (s.blocks.bucket h) (chain h) (is_chain h) (held h) (enough h)

    by_choice : (choices : List ℕ) → evict device fuel choices s ≡ fails Failure.no_choice
    by_choice [] = refl
    by_choice (h ∷ hs) = rw (none_in h, evict) (by_choice hs)

module _ {D : Type 0} (device : Device D) (std_hash : ℕ → ℕ) (a : PageId → Option Frame)
    (chain : ℕ → List ℕ) (p : PageId) (s : Pool D) (away : IsAway chain p s.blocks) (fuel : ℕ)
    (enough : (h : ℕ) → length (chain h) < fuel) (empty : frames s.blocks.free_frames ≡ [])
    (held : (h i : ℕ) → 0 < count i (chain h) → try_lock i s ≡ none) (choices : List ℕ)
    (served : device.serves p ≡ true) where
  -- The block of the page is linked in and locked before a frame is asked for.
  located :
      (i : ℕ) (free : List ℕ)
      → IsCoherent device std_hash a idle chain (i ∷ free) s
      → (b : Block) → Locks (s.locks i) b
      → locate_page device std_hash fuel choices p s ≡ fails Failure.no_choice
  unfolding locate_page
  located i free w b l =
      rw
        (
          pop_bcb-some i s.blocks w.linked.free_list.0,
          l.taken,
          get_frame-held device fuel asking longer asking_w.linked.chains
              (same_frames device std_hash a chain i free s w p away b ∙ empty) all_held
              longer_enough choices,
        )
        refl
    where
      asking : Pool D
      asking = with_block device std_hash a chain i free s w p away b

      longer : ℕ → List ℕ
      longer = with_chain device std_hash a chain i free s w p away b

      asking_w : IsCoherent device std_hash a (λ j. j == i) longer free asking
      asking_w = with_block-IsCoherent device std_hash a chain i free s w p away b served

      longer_enough : (h : ℕ) → length (longer h) ≤ fuel
      longer_enough h = elim (Bool-cases (h == hash std_hash s.blocks p)) [
        | inl e ↦ rw e (omega (arith, enough (hash std_hash s.blocks p)))
        | inr e ↦ rw e (omega (arith, enough h))
      ]

      all_held : (h j : ℕ) → 0 < count j (longer h) → try_lock j asking ≡ none
      all_held h j on = elim (Bool-cases (j == i)) [
        | inl e ↦ rw e (fixed (Bool-cases (b.fix_count == 0)))
        | inr e ↦
            rw e (held h j (was_on device std_hash a chain i free s w p away b h j on (==→≢ j i e)))
      ]
        where
          fixed :
              ((b.fix_count == 0) ≡ true) ⊎ ((b.fix_count == 0) ≡ false)
              → (if b.fix_count == 0 then lock_exclusive b else none) ≡ none
          fixed (inl z) = absurd (l.held (==→≡ b.fix_count 0 z))
          fixed (inr z) = rw z refl

  locate_page-held :
      (free : List ℕ)
      → IsCoherent device std_hash a idle chain free s
      → s.blocks.free_bcb_list ≢ none
      → locate_page device std_hash fuel choices p s ≡ fails Failure.no_choice
  locate_page-held [] w some_block = absurd (some_block w.linked.free_list)
  locate_page-held (i ∷ free) w some_block =
      let u = w.unlocked i (ground arith) in
      let l = free-Locks (s.locks i) u.0 u.1 in located i free w l.0 l.1

-- Let the buffer be in order, with a free control block and without a free frame, and let each of its blocks be held.
-- Then `fix` for a page of the disk that is not in the buffer does not return: its block is linked in and locked, and
-- whatever buckets are chosen, the loop of `getFrame` asks for another one.
pub fix-endless :
    {D : Type 0} (device : Device D) (std_hash : ℕ → ℕ) (a : PageId → Option Frame) (p : PageId)
    (mode : LockMode) (fuel : ℕ) (s : Pool D) (w : IsBuffer device std_hash a s)
    → IsAway w.chain p s.blocks
    → ((h : ℕ) → length (w.chain h) < fuel)
    → s.blocks.free_bcb_list ≢ none
    → frames s.blocks.free_frames ≡ []
    → ((h i : ℕ) → 0 < count i (w.chain h) → try_lock i s ≡ none)
    → device.serves p ≡ true
    → (choices : List ℕ) → fix device std_hash fuel choices p mode s ≡ fails Failure.no_choice
unfolding fix fix_missing
fix-endless device std_hash a p mode fuel s w away enough some_block empty held served choices =
    rw (fix, not_found, fix_missing)
      (rw
        (locate_page-held device std_hash a w.chain p s away fuel enough empty held choices served
          w.free w.coherent some_block)
        refl)
  where
    h : ℕ
    h = hash std_hash s.blocks p

    not_found : find_from fuel (s.blocks.bucket h) p s.blocks ≡ none
    not_found =
        find_from-first_for fuel (s.blocks.bucket h) (w.chain h) p s.blocks
          (w.coherent.linked.chains h) (enough h)
        ∙ by_search (first_for p s.blocks (w.chain h)) refl
      where
        by_search :
            (r : Option ℕ)
            → first_for p s.blocks (w.chain h) ≡ r
            → first_for p s.blocks (w.chain h) ≡ none
        by_search none e = e
        by_search (some i) e =
            let found = first_for-some p s.blocks (w.chain h) i e in
            absurd (away h i found.0 found.1)
