-- ===== src/Buffer/Pool/Grant.antt =====
-- `getFrame`: a free frame, or that of a page which leaves the buffer.
use master_team_projekt.Prelude.{
  ℕ, ◌+◌, ◌≤◌, ◌<◌, ◌≡◌, ◌≢◌, refl, sym, ap, ◌∙◌, subst, Bool, Option, none, List, [], ◌∷◌, true,
  false, ◌==◌, if◌then◌else◌, Bool-cases, ==→≡, inl, inr, count, length, arith,
}
use master_team_projekt.Infra.Types.{PageId, invalid}
use master_team_projekt.Buffer.Free.{FreeFrames, pop_frame}
use master_team_projekt.Buffer.Free.Frames.{frames, uncons, pop_frame-frames}
use master_team_projekt.Buffer.Pool.{
  Frame, Device, Pool, Answer, Failure, try_lock, evict_in, evict, get_frame,
}
use master_team_projekt.Buffer.Pool.Coherent.{Answers, Answers-weaken, IsDevice, IsCoherent}
use master_team_projekt.Buffer.Pool.Victim.{Grants, OnlyDisk, DeviceFails}
use master_team_projekt.Buffer.Pool.Search.{Searches, evict_in-Searches}

-- No frame is free, and each block of the buckets that were chosen is held.
abbrev pub IsBusy : {D : Type 0} → (ℕ → List ℕ) → List ℕ → Pool D → Type 0
IsBusy chain choices s =
    (frames s.blocks.free_frames ≡ [])
    × ((h i : ℕ) → 0 < count h choices → 0 < count i (chain h) → try_lock i s ≡ none)

-- Why `getFrame` does not return a frame.
abbrev pub NoGrant : {D : Type 0} → Device D → (ℕ → List ℕ) → List ℕ → Pool D → Failure → Type 0
NoGrant device chain choices s Failure.waits = ⊥
NoGrant device chain choices s Failure.no_free_bcbs = ⊥
NoGrant device chain choices s Failure.disk_exception = DeviceFails device
NoGrant device chain choices s Failure.assertion_failed = ⊥
NoGrant device chain choices s Failure.no_choice = IsBusy chain choices s
NoGrant device chain choices s Failure.out_of_fuel = ⊥

module _ {D : Type 0} (device : Device D) (laws : IsDevice device) (std_hash : ℕ → ℕ)
    (a : PageId → Option Frame) (loading : ℕ → Bool) (chain : ℕ → List ℕ) (free : List ℕ)
    (s : Pool D) (w : IsCoherent device std_hash a loading chain free s)
    (held : (i : ℕ) → loading i ≡ true → (s.locks i).fix_count ≢ 0) (fuel : ℕ)
    (enough : (h : ℕ) → length (chain h) ≤ fuel) where
  evict-Grants :
      (choices : List ℕ)
      → frames s.blocks.free_frames ≡ []
      → Answers
          (NoGrant device chain choices s)
          (Grants device std_hash a loading chain s)
          (evict device fuel choices s)
  unfolding evict
  evict-Grants [] empty = (empty, λ h i chosen. absurd (omega (arith, chosen)))
  evict-Grants (h ∷ hs) empty =
      found (evict_in device fuel h (s.blocks.bucket h) s) refl
        (evict_in-Searches device laws std_hash a loading chain free s w held fuel h (enough h))
        (evict-Grants hs empty)
    where
      only_disk : (e : Failure) → OnlyDisk device e → NoGrant device chain (h ∷ hs) s e
      only_disk Failure.waits k = k
      only_disk Failure.no_free_bcbs k = k
      only_disk Failure.disk_exception k = k
      only_disk Failure.assertion_failed k = k
      only_disk Failure.no_choice k = elim k [ ]
      only_disk Failure.out_of_fuel k = k

      widen :
          ((i : ℕ) → 0 < count i (chain h) → try_lock i s ≡ none)
          → (e : Failure) → NoGrant device chain hs s e
          → NoGrant device chain (h ∷ hs) s e
      widen all Failure.waits k = k
      widen all Failure.no_free_bcbs k = k
      widen all Failure.disk_exception k = k
      widen all Failure.assertion_failed k = k
      widen all Failure.no_choice k = (
        k.0,
        λ l i chosen on. elim (Bool-cases (h == l)) [
          | inl e ↦ all i (subst (λ m. 0 < count i (chain m)) (sym (==→≡ h l e)) on)
          | inr e ↦ k.1 l i (ground (arith, chosen, e)) on
        ],
      )
      widen all Failure.out_of_fuel k = k

      found :
          (r : Option (Answer D ℕ))
          → evict_in device fuel h (s.blocks.bucket h) s ≡ r
          → Searches device laws std_hash a loading chain free s w held (chain h) r
          → Answers
              (NoGrant device chain hs s)
              (Grants device std_hash a loading chain s)
              (evict device fuel hs s)
          → Answers
              (NoGrant device chain (h ∷ hs) s)
              (Grants device std_hash a loading chain s)
              (evict device fuel (h ∷ hs) s)
      found r e (inl (is_none, all)) later =
          rw (e ∙ is_none, evict)
            (Answers-weaken (NoGrant device chain hs s) (NoGrant device chain (h ∷ hs) s)
              (Grants device std_hash a loading chain s) (evict device fuel hs s) (widen all) later)
      found r e (inr (o, is_some, answer)) later =
          rw (e ∙ is_some, evict)
            (Answers-weaken (OnlyDisk device) (NoGrant device chain (h ∷ hs) s)
              (Grants device std_hash a loading chain s) o only_disk answer)

  -- The frame `f` is taken from the free ones, of which `fs` are left.
  pop-Grants :
      (f : ℕ) (fs : List ℕ) (left : FreeFrames)
      → frames s.blocks.free_frames ≡ f ∷ fs
      → frames left ≡ fs
      → Grants device std_hash a loading chain s f
          (record s { blocks = record (s.blocks) { free_frames = left } })
  pop-Grants f fs left e e' = record {
    chain' = chain;
    free' = free;
    coherent = record {
      linked = record {
        chains = w.linked.chains;
        free_list = w.linked.free_list;
        hashed = w.linked.hashed;
        once = w.linked.once;
        single = w.linked.single;
      };
      framed = record {
        owned = λ h i on known. (
          (w.framed.owned h i on known).0,
          omega (arith, (w.framed.owned h i on known).1, split (s.blocks.frame_index i)),
        );
        sole = w.framed.sole;
        free_once = λ g. omega (arith, w.framed.free_once g, split g);
        free_small = λ g on. w.framed.free_small g (omega (arith, on, split g));
        number = w.framed.number;
      };
      shows = record {
        brought = w.shows.brought;
        cached = w.shows.cached;
        known = w.shows.known;
        stored = w.shows.stored;
      };
      unlocked = w.unlocked;
    };
    in_range = inside;
    unused = λ h i on same.
        clash (s.blocks.frame_index i) same (λ known. (w.framed.owned h i on known).1);
    not_free = ground (arith, split f, w.framed.free_once f);
    fewer = λ h i on. on;
    stays = λ h i l on. on;
    locks = λ i l. refl;
    frame = refl;
    page_id = refl;
    frame_index = refl;
    modified = refl;
    table_size = refl;
    no_frames = refl;
  }
    where
      split :
          (g : ℕ)
          → count g (frames s.blocks.free_frames)
            ≡ (if f == g then 1 else 0) + count g (frames left)
      split g = ap (count g) e ∙ ap (λ l. (if f == g then 1 else 0) + count g l) (sym e')

      inside : f < s.no_frames
      inside = w.framed.free_small f (ground (arith, split f))

      clash : (g : ℕ) → g ≡ f → (g ≢ invalid → count g (frames s.blocks.free_frames) ≡ 0) → ⊥
      clash g same none_free =
          let here = none_free (λ z. omega (arith, same, z, inside, w.framed.number)) in
          ground (arith, split g, same, here)

  pub get_frame-Grants :
      (choices : List ℕ)
      → Answers
          (NoGrant device chain choices s)
          (Grants device std_hash a loading chain s)
          (get_frame device fuel choices s)
  unfolding get_frame
  get_frame-Grants choices =
      by_frames (frames s.blocks.free_frames) refl (pop_frame-frames s.blocks.free_frames)
    where
      by_frames :
          (fs : List ℕ)
          → frames s.blocks.free_frames ≡ fs
          → ((pop_frame s.blocks.free_frames).0, frames (pop_frame s.blocks.free_frames).1)
            ≡ uncons fs
          → Answers
              (NoGrant device chain choices s)
              (Grants device std_hash a loading chain s)
              (get_frame device fuel choices s)
      by_frames [] e p =
          let first : (pop_frame s.blocks.free_frames).0 ≡ invalid = ap (λ r. r.0) p in
          rw first (evict-Grants choices e)
      by_frames (f ∷ fs) e p =
          let first : (pop_frame s.blocks.free_frames).0 ≡ f = ap (λ r. r.0) p in
          let g = pop-Grants f fs (pop_frame s.blocks.free_frames).1 e (ap (λ r. r.1) p) in
          let valid : (f == invalid) ≡ false = ground (arith, g.in_range, w.framed.number) in
          rw (first, valid) g
