-- ===== src/Buffer/Pool/Fix.antt =====
-- `fix`: a page is given as it is, from its frame or from the disk.
use master_team_projekt.Prelude.{
  ℕ, ◌+◌, ◌≤◌, ◌<◌, ◌≡◌, ◌≢◌, refl, sym, ap, ◌∙◌, subst, Bool, Option, none, some, List, true,
  false, ltb, ◌==◌, Bool-cases, ==→≡, ==→≢, inl, inr, count, length, arith,
}
use master_team_projekt.Infra.Types.{PageId, LockMode, invalid}
use master_team_projekt.Buffer.Block.{
  Block, lock_exclusive, lock_shared, lock_mode, unlock, unlock_by, add_reader, set_exclusive,
}
use master_team_projekt.Buffer.Free.{hash, find_from}
use master_team_projekt.Buffer.Free.Table.{
  first_for, first_for-some, first_for-none, find_from-first_for,
}
use master_team_projekt.Buffer.Pool.{
  Frame, Device, Pool, Failure, done, bind, or_fail, set_at, set_at_self, set_at_ne, set_lock,
  set_frame, release, get_frame_ptr, acquire, read_page_in, fix_found, fix_missing, fix,
}
use master_team_projekt.Buffer.Pool.Coherent.{
  Answers, Answers-bind, Answers-weaken, IsDevice, IsCoherent, IsBuffer, idle, page_of,
}
use master_team_projekt.Buffer.Pool.Chains.{one_block}
use master_team_projekt.Buffer.Pool.Links.{IsAway}
use master_team_projekt.Buffer.Pool.Victim.{DeviceFails}
use master_team_projekt.Buffer.Pool.Grant.{IsBusy}
use master_team_projekt.Buffer.Pool.Locate.{Locates, NotLocated, locate_page-Locates}

-- A lock of a block that is in a chain says nothing about the pages.
pub relocked :
    {D : Type 0} (device : Device D) (std_hash : ℕ → ℕ) (a : PageId → Option Frame)
    (loading : ℕ → Bool) (chain : ℕ → List ℕ) (free : List ℕ) (h i : ℕ) (b : Block) (s : Pool D)
    → 0 < count i (chain h)
    → IsCoherent device std_hash a loading chain free s
    → IsCoherent device std_hash a loading chain free (set_lock i b s)
relocked device std_hash a loading chain free h i b s on w = record {
  linked = w.linked;
  framed = record {
    owned = w.framed.owned;
    sole = w.framed.sole;
    free_once = w.framed.free_once;
    free_small = w.framed.free_small;
    number = w.framed.number;
  };
  shows = record {
    brought = w.shows.brought;
    cached = w.shows.cached;
    known = w.shows.known;
    stored = w.shows.stored;
  };
  unlocked = λ j on'.
      subst (λ l. (l.readers ≡ 0) × (l.writer ≡ false))
        (sym (set_at_ne i b s.locks j (λ e. apart j e on' (w.linked.once h i)))) (w.unlocked j on');
}
  where
    apart : (j : ℕ) → j ≡ i → 0 < count j free → count i (chain h) + count i free ≤ 1 → ⊥
    apart j e on' le = let here = rw e at on' in omega (arith, here, le, on)

abbrev one_reader : Block → Block
one_reader l = add_reader (record l { readers = l.readers + 1 })

-- A free lock can be taken in each mode.
pub lock_mode-free :
    (mode : LockMode) (l : Block)
    → l.readers ≡ 0
    → l.writer ≡ false
    → (b : Block) × (lock_mode mode l ≡ some b)
unfolding lock_mode lock_shared lock_exclusive
lock_mode-free LockMode.no_type l r e = (l, refl)
lock_mode-free LockMode.no_lock l r e = (l, refl)
lock_mode-free LockMode.shared l r e = (one_reader l, rw e refl)
lock_mode-free LockMode.exclusive l r e =
    (set_exclusive (record l { writer = true }), rw (e, r) refl)

shared-unlock :
    (l : Block)
    → l.readers ≡ 0
    → l.writer ≡ false
    → (lock_shared l ≡ some (one_reader l))
      × ((unlock (one_reader l)).readers ≡ 0)
      × ((unlock (one_reader l)).writer ≡ false)
unfolding lock_shared unlock unlock_by
shared-unlock l r e = (rw e refl, omega (arith, r), e)

module _ {D : Type 0} (device : Device D) (std_hash : ℕ → ℕ) (a : PageId → Option Frame)
    (p : PageId) where
  -- The block `i` holds the page `p` as it is, nothing is being brought in, and no page has changed.
  pub record Holds (i : ℕ) (t : Pool D) : Type 0 where
    pub buffer : IsBuffer device std_hash a t
    pub home : ℕ
    pub on : 0 < count i (buffer.chain home)
    pub page : t.blocks.page_id i ≡ p
    pub content : a p ≡ some (page_of i t)

  -- What was read is in the frame.
  module _ (s : Pool D) (i : ℕ) (t : Pool D) (w : Locates device std_hash a p s i t) (b : Block)
      (c : Frame) (is_c : a p ≡ some c) where
    abbrev loaded : Pool D
    loaded = set_frame (t.blocks.frame_index i) c t

    known : t.blocks.frame_index i ≢ invalid
    known z = omega (arith, z, w.framed, w.coherent.framed.number)

    own_frame : loaded.frame (t.blocks.frame_index i) ≡ c
    own_frame = set_at_self (t.blocks.frame_index i) c t.frame

    loaded-IsCoherent : IsCoherent device std_hash a idle w.chain' w.free' loaded
    loaded-IsCoherent = record {
      linked = w.coherent.linked;
      framed = record {
        owned = w.coherent.framed.owned;
        sole = w.coherent.framed.sole;
        free_once = w.coherent.framed.free_once;
        free_small = w.coherent.framed.free_small;
        number = w.coherent.framed.number;
      };
      shows = record {
        brought = λ h j on l z. elim (Bool-cases (j == i)) [
          | inl e ↦ known (ap t.blocks.frame_index (sym (==→≡ j i e)) ∙ z)
          | inr e ↦ w.coherent.shows.brought h j on e z
        ];
        cached = λ h j on l. elim (Bool-cases (j == i)) [
          | inl e ↦
              subst (λ k. a (t.blocks.page_id k) ≡ some (loaded.frame (t.blocks.frame_index k)))
                (sym (==→≡ j i e)) (ap a w.page ∙ is_c ∙ ap (λ f. some f) (sym own_frame))
          | inr e ↦
              w.coherent.shows.cached h j on e
              ∙ ap (λ f. some f)
                  (sym (
                    set_at_ne (t.blocks.frame_index i) c t.frame (t.blocks.frame_index j) (λ same.
                      ==→≢ j i e (
                        w.coherent.framed.sole h w.home j i on w.on
                          (w.coherent.shows.brought h j on e) same))))
        ];
        known = w.coherent.shows.known;
        stored = λ q has clean. w.coherent.shows.stored q has (λ h j on l e. clean h j on refl e);
      };
      unlocked = w.coherent.unlocked;
    }

    pub filled-Holds : Holds i (release i (set_frame (t.blocks.frame_index i) c (set_lock i b t)))
    filled-Holds = record {
      buffer = record {
        chain = w.chain';
        free = w.free';
        coherent =
            relocked device std_hash a idle w.chain' w.free' w.home i _ (set_lock i b loaded) w.on (
              relocked device std_hash a idle w.chain' w.free' w.home i b loaded w.on
                loaded-IsCoherent);
      };
      home = w.home;
      on = w.on;
      page = w.page;
      content = is_c ∙ ap (λ f. some f) (sym own_frame);
    }

  -- It is locked in the mode.
  pub record Fixes (mode : LockMode) (i : ℕ) (t : Pool D) : Type 0 where
    pub holds : Holds i t
    pub lock : (l : Block) × (lock_mode mode l ≡ some (t.locks i))

  -- The page was read in, and nobody holds it yet.
  pub record ReadIn (i : ℕ) (t : Pool D) : Type 0 where
    pub holds : Holds i t
    pub free : ((t.locks i).readers ≡ 0) × ((t.locks i).writer ≡ false)

  read_page_in-ReadIn :
      (E : Failure → Type 0) (s : Pool D) (i : ℕ) (t : Pool D)
      → device.serves p ≡ true
      → ((d : D) → device.read_page p d ≡ none → E Failure.disk_exception)
      → Locates device std_hash a p s i t
      → Answers E (λ u v. ReadIn i v) (read_page_in device i p t)
  unfolding read_page_in get_frame_ptr
  read_page_in-ReadIn E s i t served refused w =
      let l = shared-unlock (t.locks i) w.lock.0 w.lock.1 in
      let inside : ltb (t.blocks.frame_index i) t.no_frames ≡ true = ground (arith, w.framed) in
      rw (l.0, inside)
        (by_disk (one_reader (t.locks i)) (l.1, l.2) (device.read_page p t.disk) refl)
    where
      its_page : device.read_page p t.disk ≡ a p
      its_page = w.coherent.shows.stored p served (λ h j on l e. absurd (
          ==→≢ j i l (
            one_block std_hash w.chain' w.free' t.blocks w.coherent.linked h w.home j i on w.on
              (e ∙ sym w.page))))

      by_disk :
          (b : Block)
          → ((unlock b).readers ≡ 0) × ((unlock b).writer ≡ false)
          → (r : Option Frame) → device.read_page p t.disk ≡ r
          → Answers E
              (λ u v. ReadIn i v)
              (or_fail Failure.disk_exception r
                (λ c. done tt (release i (set_frame (t.blocks.frame_index i) c (set_lock i b t)))))
      by_disk b free_again none e = refused t.disk e
      by_disk b free_again (some c) e = record {
        holds = filled-Holds s i t w b c (sym its_page ∙ e);
        free =
            subst (λ k. (k.readers ≡ 0) × (k.writer ≡ false))
              (sym (
                set_at_self i (unlock (set_at i b t.locks i)) (set_at i b t.locks)
                ∙ ap unlock (set_at_self i b t.locks)))
              free_again;
      }

-- Why `fix` does not return: the lock of the page is held in a mode that excludes the one asked for, or the page is
-- not in the buffer and no block or frame can be had for it, or the disk refuses a page.
abbrev pub NotFixed :
    {D : Type 0} → Device D → (ℕ → List ℕ) → List ℕ → PageId → LockMode → Pool D → Failure → Type 0
NotFixed device chain choices p mode s Failure.waits =
    (i : ℕ) × (s.blocks.page_id i ≡ p) × (lock_mode mode (s.locks i) ≡ none)
NotFixed device chain choices p mode s Failure.no_free_bcbs = s.blocks.free_bcb_list ≡ none
NotFixed device chain choices p mode s Failure.disk_exception = DeviceFails device
NotFixed device chain choices p mode s Failure.assertion_failed = ⊥
NotFixed device chain choices p mode s Failure.no_choice = IsBusy chain choices s
NotFixed device chain choices p mode s Failure.out_of_fuel = ⊥

module _ {D : Type 0} (device : Device D) (laws : IsDevice device) (std_hash : ℕ → ℕ)
    (a : PageId → Option Frame) (p : PageId) (mode : LockMode) where
  -- The last step of both ways: the lock in the mode.
  lock-Fixes :
      (E : Failure → Type 0) (i : ℕ) (s : Pool D)
      → Holds device std_hash a p i s
      → (lock_mode mode (s.locks i) ≡ none → E Failure.waits)
      → Answers E
          (Fixes device std_hash a p mode)
          (bind (acquire i (lock_mode mode) s) (λ u t. done i t))
  lock-Fixes E i s w waiting = by_lock (lock_mode mode (s.locks i)) refl
    where
      by_lock :
          (r : Option Block)
          → lock_mode mode (s.locks i) ≡ r
          → Answers E
              (Fixes device std_hash a p mode)
              (bind (or_fail Failure.waits r (λ b. done tt (set_lock i b s))) (λ u t. done i t))
      by_lock none e = waiting e
      by_lock (some b) e = record {
        holds = record {
          buffer = record {
            chain = w.buffer.chain;
            free = w.buffer.free;
            coherent =
                relocked device std_hash a idle w.buffer.chain w.buffer.free w.home i b s w.on
                  w.buffer.coherent;
          };
          home = w.home;
          on = w.on;
          page = w.page;
          content = w.content;
        };
        lock = (s.locks i, e ∙ ap (λ l. some l) (sym (set_at_self i b s.locks)));
      }

  module _ (s : Pool D) (w : IsBuffer device std_hash a s) (fuel : ℕ)
      (enough : (h : ℕ) → length (w.chain h) < fuel) (choices : List ℕ)
      (served : device.serves p ≡ true) where
    Ends : Failure → Type 0
    Ends = NotFixed device w.chain choices p mode s

    fix_missing-Fixes :
        IsAway w.chain p s.blocks
        → Answers Ends
            (Fixes device std_hash a p mode)
            (fix_missing device std_hash fuel choices p mode s)
    unfolding fix_missing Ends
    fix_missing-Fixes away =
        Answers-bind Ends (Locates device std_hash a p s) (Fixes device std_hash a p mode) _ _
          (Answers-weaken (NotLocated device w.chain choices s) Ends (Locates device std_hash a p s)
            _ same_reason
            (locate_page-Locates device laws std_hash a w.chain p s away fuel enough choices served
              w.free w.coherent))
          (λ i t l.
            Answers-bind Ends (λ u v. ReadIn device std_hash a p i v)
              (Fixes device std_hash a p mode) _ _
              (read_page_in-ReadIn device std_hash a p Ends s i t served (λ d e. inl (p, d, e)) l)
              (λ u v r. lock-Fixes Ends i v r.holds (λ e.
                let f = lock_mode-free mode (v.locks i) r.free.0 r.free.1 in absurd (clash f.1 e))))
      where
        clash : {l : Option Block} {b : Block} → l ≡ some b → l ≡ none → ⊥
        clash e e' = cc

        same_reason : (e : Failure) → NotLocated device w.chain choices s e → Ends e
        same_reason Failure.waits k = elim k [ ]
        same_reason Failure.no_free_bcbs k = k
        same_reason Failure.disk_exception k = k
        same_reason Failure.assertion_failed k = k
        same_reason Failure.no_choice k = k
        same_reason Failure.out_of_fuel k = k

    fix_found-Fixes :
        (h i : ℕ)
        → 0 < count i (w.chain h)
        → s.blocks.page_id i ≡ p
        → Answers Ends (Fixes device std_hash a p mode) (fix_found device std_hash i mode s)
    unfolding fix_found Ends
    fix_found-Fixes h i on e =
        let brought : (s.blocks.frame_index i == invalid) ≡ false =
          ground (arith, w.coherent.shows.brought h i on refl) in
        rw brought (
          lock-Fixes Ends i s
            (record {
              buffer = w;
              home = h;
              on = on;
              page = e;
              content = ap a (sym e) ∙ w.coherent.shows.cached h i on refl;
            })
            (λ waiting. (i, e, waiting)))

    -- Let the buffer be in order with the pages `a`, and let the disk keep what was written to its pages, as the
    -- partitions do. Then `fix` for a page of the disk returns a block that holds the page `p` as `a` has it, locked in the mode, and afterwards the buffer is in order with
    -- the same pages: a page that had to leave can be read back. It fails only if the lock of the
    -- page is held in a mode that excludes the one asked for, no control block is free, the disk refuses a page,
    -- or no frame is free and all blocks of the buckets that are chosen are held.
    pub fix-Fixes :
        Answers
          (NotFixed device w.chain choices p mode s)
          (Fixes device std_hash a p mode)
          (fix device std_hash fuel choices p mode s)
    unfolding fix Ends
    fix-Fixes = by_search (first_for p s.blocks (w.chain h)) refl (
        find_from-first_for fuel (s.blocks.bucket h) (w.chain h) p s.blocks
          (w.coherent.linked.chains h) (enough h))
      where
        h : ℕ
        h = hash std_hash s.blocks p

        by_search :
            (r : Option ℕ)
            → first_for p s.blocks (w.chain h) ≡ r
            → find_from fuel (s.blocks.bucket h) p s.blocks ≡ first_for p s.blocks (w.chain h)
            → Answers
                (NotFixed device w.chain choices p mode s)
                (Fixes device std_hash a p mode)
                (fix device std_hash fuel choices p mode s)
        by_search none e f =
            rw (f ∙ e, fix)
              (fix_missing-Fixes (λ k i on same.
                first_for-none p s.blocks (w.chain h) e i
                  (subst (λ l. 0 < count i (w.chain l))
                    (sym (w.coherent.linked.hashed k i on) ∙ ap (hash std_hash s.blocks) same) on)
                  same))
        by_search (some i) e f =
            let found = first_for-some p s.blocks (w.chain h) i e in
            rw (f ∙ e, fix) (fix_found-Fixes h i found.0 found.1)
