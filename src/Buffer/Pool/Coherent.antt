-- ===== src/Buffer/Pool/Coherent.antt =====
-- When the buffer is in order, and what its pages are: a page is what its frame holds while it is in the buffer,
-- and what the disk holds otherwise.
use master_team_projekt.Prelude.{
  ℕ, ◌+◌, ◌≤◌, ◌<◌, ◌≡◌, ◌≢◌, Bool, true, false, Option, some, List, count,
}
use master_team_projekt.Infra.Types.{PageId, invalid}
use master_team_projekt.Buffer.Free.{Blocks, hash}
use master_team_projekt.Buffer.Free.Chain.{IsChain}
use master_team_projekt.Buffer.Free.Frames.{frames}
use master_team_projekt.Buffer.Pool.{Frame, Device, Pool, Failure, Answer, done, fails, bind}

-- What an operation answers: `Q` of its result, or `E` of the way in which it fails.
abbrev pub Answers :
    {D A : Type 0} → (Failure → Type 0) → (A → Pool D → Type 0) → Answer D A → Type 0
Answers E Q (done a s) = Q a s
Answers E Q (fails e) = E e

-- What the buffer relies on: a page of the disk that was written is read back, and no other page of it changes.
pub record IsDevice {D : Type 0} (device : Device D) : Type 0 where
  pub read-write :
      (p : PageId) (c : Frame) (d d' : D)
      → device.serves p ≡ true
      → device.write_page p c d ≡ some d'
      → device.read_page p d' ≡ some c
  pub read-write_ne :
      (p q : PageId) (c : Frame) (d d' : D)
      → q ≢ p
      → device.serves p ≡ true
      → device.serves q ≡ true
      → device.write_page p c d ≡ some d'
      → device.read_page q d' ≡ device.read_page q d

-- The chains of the buckets and the list of free blocks share no block, no page has two blocks, and a block is
-- in the chain of its page.
pub record IsLinked (std_hash : ℕ → ℕ) (chain : ℕ → List ℕ) (free : List ℕ) (s : Blocks)
    : Type 0 where
  pub chains : (h : ℕ) → IsChain s.next (s.bucket h) (chain h)
  pub free_list : IsChain s.next s.free_bcb_list free
  pub hashed : (h i : ℕ) → 0 < count i (chain h) → hash std_hash s (s.page_id i) ≡ h
  pub once : (h i : ℕ) → count i (chain h) + count i free ≤ 1
  pub single :
      (h i j : ℕ)
      → 0 < count i (chain h)
      → 0 < count j (chain h)
      → s.page_id i ≡ s.page_id j
      → i ≡ j

-- No frame is used twice, and none that is used is free.
pub record IsFramed {D : Type 0} (chain : ℕ → List ℕ) (s : Pool D) : Type 0 where
  pub owned :
      (h i : ℕ)
      → 0 < count i (chain h)
      → s.blocks.frame_index i ≢ invalid
      → (s.blocks.frame_index i < s.no_frames)
        × (count (s.blocks.frame_index i) (frames s.blocks.free_frames) ≡ 0)
  pub sole :
      (h k i j : ℕ)
      → 0 < count i (chain h)
      → 0 < count j (chain k)
      → s.blocks.frame_index i ≢ invalid
      → s.blocks.frame_index i ≡ s.blocks.frame_index j
      → i ≡ j
  pub free_once : (f : ℕ) → count f (frames s.blocks.free_frames) ≤ 1
  pub free_small : (f : ℕ) → 0 < count f (frames s.blocks.free_frames) → f < s.no_frames
  pub number : s.no_frames < invalid

-- The pages are `a`, and those in the buffer are pages of the disk. A block that is being brought in says nothing yet; a block that is not modified holds what
-- the disk holds.
pub record Shows {D : Type 0} (device : Device D) (a : PageId → Option Frame) (loading : ℕ → Bool)
    (chain : ℕ → List ℕ) (s : Pool D) : Type 0 where
  pub brought :
      (h i : ℕ) → 0 < count i (chain h) → loading i ≡ false → s.blocks.frame_index i ≢ invalid
  pub cached :
      (h i : ℕ)
      → 0 < count i (chain h)
      → loading i ≡ false
      → a (s.blocks.page_id i) ≡ some (s.frame (s.blocks.frame_index i))
  pub known : (h i : ℕ) → 0 < count i (chain h) → device.serves (s.blocks.page_id i) ≡ true
  pub stored :
      (p : PageId)
      → device.serves p ≡ true
      → ((h i : ℕ)
          → 0 < count i (chain h)
          → loading i ≡ false
          → s.blocks.page_id i ≡ p
          → s.blocks.modified i ≡ false)
      → device.read_page p s.disk ≡ a p

-- Nobody holds a free block.
abbrev pub IsUnlocked : {D : Type 0} → List ℕ → Pool D → Type 0
IsUnlocked free s =
    (i : ℕ) → 0 < count i free → ((s.locks i).readers ≡ 0) × ((s.locks i).writer ≡ false)

pub record IsCoherent {D : Type 0} (device : Device D) (std_hash : ℕ → ℕ)
    (a : PageId → Option Frame) (loading : ℕ → Bool) (chain : ℕ → List ℕ) (free : List ℕ)
    (s : Pool D) : Type 0 where
  pub linked : IsLinked std_hash chain free s.blocks
  pub framed : IsFramed chain s
  pub shows : Shows device a loading chain s
  pub unlocked : IsUnlocked free s

-- Nothing is being brought in.
abbrev pub idle : ℕ → Bool
idle i = false

-- The buffer is in order and its pages are `a`.
pub record IsBuffer {D : Type 0} (device : Device D) (std_hash : ℕ → ℕ) (a : PageId → Option Frame)
    (s : Pool D) : Type 0 where
  pub chain : ℕ → List ℕ
  pub free : List ℕ
  pub coherent : IsCoherent device std_hash a idle chain free s

-- The frame of a block, behind a disk or a lock that changed.
abbrev pub page_of : {D : Type 0} → ℕ → Pool D → Frame
page_of i s = s.frame (s.blocks.frame_index i)

pub Answers-bind :
    {D A B : Type 0} (E : Failure → Type 0) (Q : A → Pool D → Type 0) (R : B → Pool D → Type 0)
    (m : Answer D A) (f : A → Pool D → Answer D B)
    → Answers E Q m
    → ((x : A) (s : Pool D) → Q x s → Answers E R (f x s))
    → Answers E R (bind m f)
Answers-bind E Q R (done x s) f h k = k x s h
Answers-bind E Q R (fails e) f h k = h

pub Answers-weaken :
    {D A : Type 0} (E F : Failure → Type 0) (Q : A → Pool D → Type 0) (m : Answer D A)
    → ((e : Failure) → E e → F e)
    → Answers E Q m
    → Answers F Q m
Answers-weaken E F Q (done x s) h k = k
Answers-weaken E F Q (fails e) h k = h e k

pub Answers-map :
    {D A : Type 0} (E : Failure → Type 0) (Q R : A → Pool D → Type 0) (m : Answer D A)
    → ((x : A) (s : Pool D) → Q x s → R x s)
    → Answers E Q m
    → Answers E R m
Answers-map E Q R (done x s) h k = h x s k
Answers-map E Q R (fails e) h k = k
