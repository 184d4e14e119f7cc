-- ===== src/Buffer/Pool/Locate.antt =====
-- `locatePage`: a block with a frame for a page that is not in the buffer.
use master_team_projekt.Prelude.{
  ℕ, ◌+◌, ◌≤◌, ◌<◌, ◌≡◌, ◌≢◌, sym, ap, ◌∙◌, subst, Option, none, some, List, [], ◌∷◌, true, false,
  ◌==◌, ◌⊎◌, if◌then◌else◌, Bool-cases, ==→≡, ==→≢, inl, inr, count, length, arith,
}
use master_team_projekt.Infra.Types.{PageId, invalid}
use master_team_projekt.Buffer.Block.{Block, lock_exclusive, unlock}
use master_team_projekt.Buffer.Free.{hash}
use master_team_projekt.Buffer.Free.Frames.{frames}
use master_team_projekt.Buffer.Pool.{
  Frame, Device, Pool, Failure, set_at_self, set_at_ne, set_frame_index, release, locate_page,
}
use master_team_projekt.Buffer.Pool.Coherent.{
  Answers, Answers-bind, Answers-weaken, IsDevice, IsFramed, IsCoherent, idle,
}
use master_team_projekt.Buffer.Pool.Links.{IsAway, pop_bcb-some, pop_bcb-none, own_page, count-with}
use master_team_projekt.Buffer.Pool.Link.{
  Locks, free-Locks, with_block, with_chain, with_block-IsCoherent, none_there, still_on,
  new_modified, same_frames,
}
use master_team_projekt.Buffer.Pool.Victim.{Grants, DeviceFails}
use master_team_projekt.Buffer.Pool.Grant.{NoGrant, IsBusy, get_frame-Grants}

-- The block `i` is for the page `p`, not modified and held by nobody, and has a frame; the page is to be
-- brought into it. All other pages are as they were.
pub record Locates {D : Type 0} (device : Device D) (std_hash : ℕ → ℕ) (a : PageId → Option Frame)
    (p : PageId) (s : Pool D) (i : ℕ) (t : Pool D) : Type 0 where
  pub chain' : ℕ → List ℕ
  pub free' : List ℕ
  pub coherent : IsCoherent device std_hash a (λ j. j == i) chain' free' t
  pub home : ℕ
  pub on : 0 < count i (chain' home)
  pub page : t.blocks.page_id i ≡ p
  pub framed : t.blocks.frame_index i < t.no_frames
  pub modified : t.blocks.modified i ≡ false
  pub lock : ((t.locks i).readers ≡ 0) × ((t.locks i).writer ≡ false)

-- The frame `f` is given to the block `i`, which was without.
module _ {D : Type 0} (device : Device D) (std_hash : ℕ → ℕ) (a : PageId → Option Frame)
    (chain : ℕ → List ℕ) (free : List ℕ) (i f h : ℕ) (s : Pool D)
    (w : IsCoherent device std_hash a (λ j. j == i) chain free s) (on : 0 < count i (chain h))
    (in_range : f < s.no_frames)
    (unused : (k j : ℕ) → 0 < count j (chain k) → s.blocks.frame_index j ≢ f)
    (not_free : count f (frames s.blocks.free_frames) ≡ 0) where
  abbrev given : Pool D
  given = release i (set_frame_index i f s)

  own : given.blocks.frame_index i ≡ f
  own = set_at_self i f s.blocks.frame_index

  other : (j : ℕ) → j ≢ i → given.blocks.frame_index j ≡ s.blocks.frame_index j
  other = set_at_ne i f s.blocks.frame_index

  given-IsFramed : IsFramed chain given
  given-IsFramed = record {
    owned = λ k j on' known. elim (Bool-cases (j == i)) [
      | inl e ↦
          subst Fits (sym (ap given.blocks.frame_index (==→≡ j i e) ∙ own)) (in_range, not_free)
      | inr e ↦
          let eq = other j (==→≢ j i e) in
          subst Fits (sym eq) (w.framed.owned k j on' (λ z. known (eq ∙ z)))
    ];
    sole = λ k l j m on' on'' known e.
        one_of k l j m on' on'' known e (Bool-cases (j == i)) (Bool-cases (m == i));
    free_once = w.framed.free_once;
    free_small = w.framed.free_small;
    number = w.framed.number;
  }
    where
      one_of :
          (k l j m : ℕ)
          → 0 < count j (chain k)
          → 0 < count m (chain l)
          → given.blocks.frame_index j ≢ invalid
          → given.blocks.frame_index j ≡ given.blocks.frame_index m
          → ((j == i) ≡ true) ⊎ ((j == i) ≡ false)
          → ((m == i) ≡ true) ⊎ ((m == i) ≡ false)
          → j ≡ m
      one_of k l j m on' on'' known e (inl x) (inl y) = ==→≡ j i x ∙ sym (==→≡ m i y)
      one_of k l j m on' on'' known e (inl x) (inr y) = absurd (
          unused l m on''
            (sym (other m (==→≢ m i y)) ∙ sym e ∙ ap given.blocks.frame_index (==→≡ j i x) ∙ own))
      one_of k l j m on' on'' known e (inr x) (inl y) = absurd (
          unused k j on'
            (sym (other j (==→≢ j i x)) ∙ e ∙ ap given.blocks.frame_index (==→≡ m i y) ∙ own))
      one_of k l j m on' on'' known e (inr x) (inr y) =
          let eq = other j (==→≢ j i x) in
          w.framed.sole k l j m on' on'' (λ z. known (eq ∙ z)) (sym eq ∙ e ∙ other m (==→≢ m i y))

      Fits : ℕ → Type 0
      Fits g = (g < s.no_frames) × (count g (frames s.blocks.free_frames) ≡ 0)

  pub given-IsCoherent : IsCoherent device std_hash a (λ j. j == i) chain free given
  given-IsCoherent = record {
    linked = record {
      chains = w.linked.chains;
      free_list = w.linked.free_list;
      hashed = w.linked.hashed;
      once = w.linked.once;
      single = w.linked.single;
    };
    framed = given-IsFramed;
    shows = record {
      brought = λ k j on' l z. w.shows.brought k j on' l (sym (other j (==→≢ j i l)) ∙ z);
      cached = λ k j on' l.
          w.shows.cached k j on' l ∙ sym (ap (λ g. some (s.frame g)) (other j (==→≢ j i l)));
      known = w.shows.known;
      stored = w.shows.stored;
    };
    unlocked = λ j on'.
        subst (λ l. (l.readers ≡ 0) × (l.writer ≡ false))
          (sym
            (set_at_ne i (unlock (s.locks i)) s.locks j (λ e. apart j e on' (w.linked.once h i))))
          (w.unlocked j on');
  }
    where
      apart : (j : ℕ) → j ≡ i → 0 < count j free → count i (chain h) + count i free ≤ 1 → ⊥
      apart j e on' le = let here = rw e at on' in omega (arith, here, le, on)

-- Why `locatePage` does not return.
abbrev pub NotLocated : {D : Type 0} → Device D → (ℕ → List ℕ) → List ℕ → Pool D → Failure → Type 0
NotLocated device chain choices s Failure.waits = ⊥
NotLocated device chain choices s Failure.no_free_bcbs = s.blocks.free_bcb_list ≡ none
NotLocated device chain choices s Failure.disk_exception = DeviceFails device
NotLocated device chain choices s Failure.assertion_failed = ⊥
NotLocated device chain choices s Failure.no_choice = IsBusy chain choices s
NotLocated device chain choices s Failure.out_of_fuel = ⊥

module _ {D : Type 0} (device : Device D) (laws : IsDevice device) (std_hash : ℕ → ℕ)
    (a : PageId → Option Frame) (chain : ℕ → List ℕ) (p : PageId) (s : Pool D)
    (away : IsAway chain p s.blocks) (fuel : ℕ) (enough : (h : ℕ) → length (chain h) < fuel)
    (choices : List ℕ) (served : device.serves p ≡ true) where
  module _ (i : ℕ) (free : List ℕ) (w : IsCoherent device std_hash a idle chain (i ∷ free) s)
      (b : Block) (l : Locks (s.locks i) b) where
    -- The state in which a frame is asked for.
    abbrev asking : Pool D
    asking = with_block device std_hash a chain i free s w p away b

    abbrev longer : ℕ → List ℕ
    longer = with_chain device std_hash a chain i free s w p away b

    lock_of_it : asking.locks i ≡ b
    lock_of_it = set_at_self i b s.locks

    it_is_held : (asking.locks i).fix_count ≢ 0
    it_is_held z = l.held (sym (ap (λ k. k.fix_count) lock_of_it) ∙ z)

    longer_enough : (h : ℕ) → length (longer h) ≤ fuel
    longer_enough h = elim (Bool-cases (h == hash std_hash s.blocks p)) [
      | inl e ↦ rw e (omega (arith, enough (hash std_hash s.blocks p)))
      | inr e ↦ rw e (omega (arith, enough h))
    ]

    on_longer : 0 < count i (longer (hash std_hash s.blocks p))
    on_longer =
        ground
          (arith, count-with std_hash chain i free p s.blocks w.linked (hash std_hash s.blocks p) i)

    why_not :
        (e : Failure) → NoGrant device longer choices asking e → NotLocated device chain choices s e
    why_not Failure.waits k = elim k [ ]
    why_not Failure.no_free_bcbs k = elim k [ ]
    why_not Failure.disk_exception k = k
    why_not Failure.assertion_failed k = k
    why_not Failure.no_choice k = (
      sym (same_frames device std_hash a chain i free s w p away b) ∙ k.0,
      λ h j chosen on.
          subst (λ l. (if l.fix_count == 0 then lock_exclusive l else none) ≡ none)
            (set_at_ne i b s.locks j (λ e.
              none_there device std_hash a chain i free s w p away b h
                (subst (λ m. 0 < count m (chain h)) e on)))
            (k.1 h j chosen (still_on device std_hash a chain i free s w p away b h j on)),
    )
    why_not Failure.out_of_fuel k = k

    placed :
        (f : ℕ) (v : Pool D)
        → Grants device std_hash a (λ j. j == i) longer asking f v
        → Locates device std_hash a p s i (release i (set_frame_index i f v))
    placed f v g = record {
      chain' = g.chain';
      free' = g.free';
      coherent =
          given-IsCoherent device std_hash a g.chain' g.free' i f (hash std_hash s.blocks p) v
            g.coherent on_it in_range g.unused g.not_free;
      home = hash std_hash s.blocks p;
      on = on_it;
      page = ap (λ m. m i) g.page_id ∙ own_page std_hash chain i free p s.blocks w.linked;
      framed = subst (λ k. k < v.no_frames) (sym (set_at_self i f v.blocks.frame_index)) in_range;
      modified =
          ap (λ m. m i) g.modified ∙ new_modified device std_hash a chain i free s w p away b;
      lock =
          subst (λ k. (k.readers ≡ 0) × (k.writer ≡ false))
            (sym (
              set_at_self i (unlock (v.locks i)) v.locks
              ∙ ap unlock (g.locks i it_is_held ∙ lock_of_it)))
            l.free_again;
    }
      where
        on_it : 0 < count i (g.chain' (hash std_hash s.blocks p))
        on_it = g.stays (hash std_hash s.blocks p) i it_is_held on_longer

        in_range : f < v.no_frames
        in_range = subst (λ n. f < n) (sym g.no_frames) g.in_range

    located :
        Answers
          (NotLocated device chain choices s)
          (Locates device std_hash a p s)
          (locate_page device std_hash fuel choices p s)
    unfolding locate_page
    located =
        rw (pop_bcb-some i s.blocks w.linked.free_list.0, l.taken)
          (Answers-bind (NotLocated device chain choices s)
            (Grants device std_hash a (λ j. j == i) longer asking) (Locates device std_hash a p s) _
            _
            (Answers-weaken (NoGrant device longer choices asking)
              (NotLocated device chain choices s)
              (Grants device std_hash a (λ j. j == i) longer asking) _ why_not
              (get_frame-Grants device laws std_hash a (λ j. j == i) longer free asking
                (with_block-IsCoherent device std_hash a chain i free s w p away b served)
                (λ j e z. it_is_held (ap (λ k. (asking.locks k).fix_count) (sym (==→≡ j i e)) ∙ z))
                fuel longer_enough choices))
            placed)

  pub locate_page-Locates :
      (free : List ℕ)
      → IsCoherent device std_hash a idle chain free s
      → Answers
          (NotLocated device chain choices s)
          (Locates device std_hash a p s)
          (locate_page device std_hash fuel choices p s)
  unfolding locate_page
  locate_page-Locates [] w = rw (pop_bcb-none s.blocks w.linked.free_list) w.linked.free_list
  locate_page-Locates (i ∷ free) w =
      let u = w.unlocked i (ground arith) in
      let l = free-Locks (s.locks i) u.0 u.1 in located i free w l.0 l.1
