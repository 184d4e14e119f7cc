-- ===== src/Buffer/Pool/Link.antt =====
-- The state in which `locatePage` asks for a frame: the block of the page is linked in and locked, and has no
-- frame yet.
use master_team_projekt.Prelude.{
  ℕ, ◌+◌, ◌≤◌, ◌<◌, ◌≡◌, ◌≢◌, refl, sym, ap, ◌∙◌, subst, Option, some, List, ◌∷◌, true, false, ◌==◌,
  ==→≢, ==→≡, Bool-cases, inl, inr, count, arith,
}
use master_team_projekt.Infra.Types.{PageId, invalid, LockMode}
use master_team_projekt.Buffer.Block.{Block, lock_exclusive, unlock, unlock_by}
use master_team_projekt.Buffer.Free.{link_block}
use master_team_projekt.Buffer.Free.Frames.{frames}
use master_team_projekt.Buffer.Pool.{Frame, Device, Pool, set_at, set_at_ne}
use master_team_projekt.Buffer.Pool.Coherent.{IsFramed, Shows, IsCoherent, IsUnlocked, idle}
use master_team_projekt.Buffer.Pool.Links.{
  IsAway, linked_in, chain_with, Links-IsLinked, was_free, count-with, linked_page, on_chain,
  own_page,
}

-- A free lock, taken and given back.
pub record Locks (l b : Block) : Type 0 where
  pub taken : lock_exclusive l ≡ some b
  pub held : b.fix_count ≢ 0
  pub free_again : ((unlock b).readers ≡ 0) × ((unlock b).writer ≡ false)

pub free-Locks : (l : Block) → l.readers ≡ 0 → l.writer ≡ false → (b : Block) × Locks l b
unfolding lock_exclusive unlock unlock_by
free-Locks l r e = (
  record l { writer = true; mode = LockMode.exclusive; fix_count = 1 },
  record { taken = rw (e, r) refl; held = omega arith; free_again = (ground (arith, r), refl) },
)

module _ {D : Type 0} (device : Device D) (std_hash : ℕ → ℕ) (a : PageId → Option Frame)
    (chain : ℕ → List ℕ) (i : ℕ) (free : List ℕ) (s : Pool D)
    (w : IsCoherent device std_hash a idle chain (i ∷ free) s) (p : PageId)
    (away : IsAway chain p s.blocks) (b : Block) where
  abbrev pub with_block : Pool D
  with_block = record s {
    blocks = linked_in std_hash chain i free p s.blocks w.linked;
    locks = set_at i b s.locks;
  }

  abbrev pub with_chain : ℕ → List ℕ
  with_chain = chain_with std_hash chain i free p s.blocks w.linked

  pub was_on : (h j : ℕ) → 0 < count j (with_chain h) → j ≢ i → 0 < count j (chain h)
  was_on = on_chain std_hash chain i free p s.blocks w.linked

  pub no_frame_yet : with_block.blocks.frame_index i ≡ invalid
  unfolding link_block
  no_frame_yet = ground arith

  other_frame : (j : ℕ) → j ≢ i → with_block.blocks.frame_index j ≡ s.blocks.frame_index j
  unfolding link_block
  other_frame j ne = ground (arith, ne)

  other_modified : (j : ℕ) → j ≢ i → with_block.blocks.modified j ≡ s.blocks.modified j
  unfolding link_block
  other_modified j ne = ground (arith, ne)

  not_i : (j : ℕ) → with_block.blocks.frame_index j ≢ invalid → j ≢ i
  not_i j known e = known (ap with_block.blocks.frame_index e ∙ no_frame_yet)

  with_block-IsFramed : IsFramed with_chain with_block
  unfolding link_block
  with_block-IsFramed = record {
    owned = λ h j on known.
        let ne = not_i j known in
        let eq = other_frame j ne in
        subst (λ f. (f < s.no_frames) × (count f (frames s.blocks.free_frames) ≡ 0)) (sym eq)
          (w.framed.owned h j (was_on h j on ne) (λ z. known (eq ∙ z)));
    sole = λ h k j m on on' known e.
        let ne = not_i j known in
        let ne' = not_i m (λ z. known (e ∙ z)) in
        w.framed.sole h k j m (was_on h j on ne) (was_on k m on' ne')
          (λ z. known (other_frame j ne ∙ z)) (sym (other_frame j ne) ∙ e ∙ other_frame m ne');
    free_once = w.framed.free_once;
    free_small = w.framed.free_small;
    number = w.framed.number;
  }

  page_kept : (j : ℕ) → j ≢ i → with_block.blocks.page_id j ≡ s.blocks.page_id j
  page_kept = linked_page std_hash chain i free p s.blocks w.linked

  pub none_there : (h : ℕ) → 0 < count i (chain h) → ⊥
  none_there h on =
      let off = was_free std_hash chain i free p s.blocks w.linked h in omega (arith, on, off)

  pub still_on : (h j : ℕ) → 0 < count j (chain h) → 0 < count j (with_chain h)
  still_on h j on = omega (arith, on, count-with std_hash chain i free p s.blocks w.linked h j)

  own_page_served :
      device.serves p ≡ true → (j : ℕ) → j ≡ i → device.serves (with_block.blocks.page_id j) ≡ true
  own_page_served served j e =
      ap (λ m. device.serves (with_block.blocks.page_id m)) e
      ∙ ap device.serves (own_page std_hash chain i free p s.blocks w.linked)
      ∙ served

  with_block-Shows : device.serves p ≡ true → Shows device a (λ j. j == i) with_chain with_block
  with_block-Shows served = record {
    known = λ h j on. elim (Bool-cases (j == i)) [
      | inl e ↦ own_page_served served j (==→≡ j i e)
      | inr e ↦
          let ne = ==→≢ j i e in
          ap device.serves (page_kept j ne) ∙ w.shows.known h j (was_on h j on ne)
    ];
    brought = λ h j on l. λ z.
        let ne = ==→≢ j i l in
        w.shows.brought h j (was_on h j on ne) refl (sym (other_frame j ne) ∙ z);
    cached = λ h j on l.
        let ne = ==→≢ j i l in
        ap a (page_kept j ne)
        ∙ w.shows.cached h j (was_on h j on ne) refl
        ∙ sym (ap (λ f. some (s.frame f)) (other_frame j ne));
    stored = λ q has clean. w.shows.stored q has (λ h j on l e.
        let ne : j ≢ i = λ j_i. none_there h (subst (λ m. 0 < count m (chain h)) j_i on) in
        sym (other_modified j ne)
        ∙ clean h j (still_on h j on) (ground (arith, ne)) (page_kept j ne ∙ e));
  }

  kept-IsUnlocked : IsUnlocked free with_block
  kept-IsUnlocked j on =
      let ne : j ≢ i = λ e. twice e on (w.linked.once 0 i) in
      subst (λ l. (l.readers ≡ 0) × (l.writer ≡ false)) (sym (set_at_ne i b s.locks j ne))
        (w.unlocked j (omega (arith, on)))
    where
      twice : j ≡ i → 0 < count j free → count i (chain 0) + count i (i ∷ free) ≤ 1 → ⊥
      twice e on le = let on' = rw e at on in ground (arith, on', le)

  pub new_modified : with_block.blocks.modified i ≡ false
  unfolding link_block
  new_modified = ground arith

  pub same_frames : frames with_block.blocks.free_frames ≡ frames s.blocks.free_frames
  unfolding link_block
  same_frames = refl

  pub with_block-IsCoherent :
      device.serves p ≡ true → IsCoherent device std_hash a (λ j. j == i) with_chain free with_block
  with_block-IsCoherent served = record {
    linked = Links-IsLinked std_hash chain i free p s.blocks w.linked away;
    framed = with_block-IsFramed;
    shows = with_block-Shows served;
    unlocked = kept-IsUnlocked;
  }
