-- ===== src/Buffer/Free/Frames.antt =====
-- The free frames are a stack.
use master_team_projekt.Prelude.{
  count, ◌≤◌, ℕ, zero, suc, ◌+◌, ◌-◌, ◌<◌, ◌≡◌, refl, ap, ◌∙◌, ◌%◌, true, false, ltb, List, [], ◌∷◌,
  arith,
}
use master_team_projekt.Prelude.Word.{mod_64}
use master_team_projekt.Infra.Types.{invalid}
use master_team_projekt.Buffer.Free.{FreeFrames, init_frames, pop_frame, push_frame}

-- The entries below `n`, the last one first.
unfoldable pub below : (ℕ → ℕ) → ℕ → List ℕ
below f zero = []
below f (suc n) = f n ∷ below f n

-- The free frames, with the one that is handed out next in front.
abbrev pub frames : FreeFrames → List ℕ
frames f = below f.free_frame_list f.no_free_frames

below-agree : (f g : ℕ → ℕ) (n : ℕ) → ((i : ℕ) → i < n → f i ≡ g i) → below f n ≡ below g n
unfolding below
below-agree f g zero h = refl
below-agree f g (suc n) h =
    rw (h n (omega arith), below-agree f g n (λ i p. h i (omega arith))) refl

pub count-below :
    (n f : ℕ) → (count f (below (λ i. i) n) ≤ 1) × (0 < count f (below (λ i. i) n) → f < n)
unfolding below
count-below zero f = (omega arith, λ on. absurd (omega (arith, on)))
count-below (suc n) f = ground (arith, count-below n f)

-- What `pop` does to the stack: the frame on top, or `INVALID` if there is none.
abbrev pub uncons : List ℕ → ℕ × List ℕ
uncons [] = (invalid, [])
uncons (i ∷ is) = (i, is)

positive : (n : ℕ) → ltb 0 (suc n) ≡ true
positive n = ground arith

predecessor : (n : ℕ) → suc n - 1 ≡ n
predecessor n = omega arith

pub pop_frame-frames :
    (f : FreeFrames) → ((pop_frame f).0, frames (pop_frame f).1) ≡ uncons (frames f)
unfolding pop_frame below
pop_frame-frames f = popped f.no_free_frames refl
  where
    popped :
        (n : ℕ)
        → f.no_free_frames ≡ n
        → ((pop_frame f).0, frames (pop_frame f).1) ≡ uncons (below f.free_frame_list n)
    popped zero e = simp e refl
    popped (suc n) e = simp (e, positive n, predecessor n) refl

-- On the stack of free frames `push` adds a frame on top and `pop` takes it off, and on an empty stack
-- `pop` returns `INVALID` and changes nothing, as long as the counter does not overflow.
pub push_pop-frames :
    (f : FreeFrames) (frame : ℕ)
    → f.no_free_frames + 1 < mod_64
    → (frames (push_frame frame f) ≡ frame ∷ frames f)
      × (((pop_frame f).0, frames (pop_frame f).1) ≡ uncons (frames f))
unfolding push_frame pop_frame below
push_pop-frames f frame small = (pushed, pop_frame-frames f)
  where
    exact : (f.no_free_frames + 1) % mod_64 ≡ suc f.no_free_frames
    exact = omega (arith, small)

    pushed : frames (push_frame frame f) ≡ frame ∷ frames f
    pushed =
        ap (below (push_frame frame f).free_frame_list) (exact)
        ∙ rw
            (below-agree (push_frame frame f).free_frame_list f.free_frame_list f.no_free_frames
              (λ i h. ground (arith, h)))
            (ap (λ i. i ∷ frames f) (ground arith))

-- The first initialisation makes all frames free, each of them once, from the last one down; a second
-- one changes nothing.
pub init_frames_lem :
    (n m : ℕ) (f : FreeFrames)
    → f.allocated ≡ false
    → (frames (init_frames n f) ≡ below (λ i. i) n)
      × (init_frames m (init_frames n f) ≡ init_frames n f)
unfolding init_frames
init_frames_lem n m f fresh = rw fresh (below-agree _ _ n (λ i h. ground (arith, h)), refl)
