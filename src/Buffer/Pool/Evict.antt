-- ===== src/Buffer/Pool/Evict.antt =====
-- The buffer without a page that left it.
use master_team_projekt.Prelude.{
  ℕ, ◌<◌, ◌≡◌, ◌≢◌, refl, sym, ap, ◌∙◌, subst, Bool, Option, List, ◌∷◌, true, false, ◌==◌, ◌⊎◌,
  Bool-cases, ==→≡, ==→≢, inl, inr, count, arith,
}
use master_team_projekt.Infra.Types.{PageId, page_id_eq, page_id_eq_iff}
use master_team_projekt.Buffer.Block.{Block, unlock}
use master_team_projekt.Buffer.Free.{Blocks, insert_bcb}
use master_team_projekt.Buffer.Free.Frames.{frames}
use master_team_projekt.Buffer.Pool.{
  Frame, Device, Pool, set_lock, set_at, set_at_self, set_at_ne, release,
}
use master_team_projekt.Buffer.Pool.Coherent.{IsFramed, Shows, IsCoherent, IsUnlocked}
use master_team_projekt.Buffer.Pool.Chains.{
  Cuts, replace, one_block, Cuts-IsLinked, count-cut, was_chained, is_chained, cut_off,
}
use master_team_projekt.Buffer.Pool.Victim.{Grants, Flushes}

-- The block `j` of the chain of `h` is cut out, its lock `b` released and its page on the disk `d`.
module _ {D : Type 0} (device : Device D) (std_hash : ℕ → ℕ) (a : PageId → Option Frame)
    (loading : ℕ → Bool) (chain : ℕ → List ℕ) (free : List ℕ) (s : Pool D)
    (w : IsCoherent device std_hash a loading chain free s) (h j : ℕ) (rest : List ℕ)
    (next bucket : ℕ → Option ℕ) where
  abbrev cut : Blocks
  cut = record (s.blocks) { next = next; bucket = bucket }

  -- The blocks behind the eviction.
  abbrev evicted : Block → D → Pool D
  evicted b d =
      release j (record s { locks = set_at j b s.locks; disk = d; blocks = insert_bcb j cut })

  module _ (c : Cuts h j (chain h) rest s.blocks cut) (ready : loading j ≡ false) where
    chained : (k i : ℕ) → 0 < count i (replace h rest chain k) → 0 < count i (chain k)
    chained = was_chained std_hash chain free h j rest s.blocks cut w.linked c

    evicted-IsFramed : (b : Block) (d : D) → IsFramed (replace h rest chain) (evicted b d)
    unfolding insert_bcb
    evicted-IsFramed b d = record {
      owned = λ k i on. w.framed.owned k i (chained k i on);
      sole = λ k l i m on on'. w.framed.sole k l i m (chained k i on) (chained l m on');
      free_once = w.framed.free_once;
      free_small = w.framed.free_small;
      number = w.framed.number;
    }

    same_page : (k i : ℕ) → 0 < count i (chain k) → s.blocks.page_id i ≡ s.blocks.page_id j → i ≡ j
    same_page k i on =
        one_block std_hash chain free s.blocks w.linked k h i j on
          (is_chained std_hash chain free h j rest s.blocks cut w.linked c)

    evicted-Shows :
        (b : Block) (t : Pool D)
        → Flushes device j (set_lock j b s) t
        → Shows device a loading (replace h rest chain) (evicted b t.disk)
    unfolding insert_bcb
    evicted-Shows b t fl = record {
      brought = λ k i on. w.shows.brought k i (chained k i on);
      cached = λ k i on. w.shows.cached k i (chained k i on);
      known = λ k i on. w.shows.known k i (chained k i on);
      stored = λ p has clean. by_page p has clean (Bool-cases (page_id_eq p (s.blocks.page_id j)));
    }
      where
        still : (k i : ℕ) → 0 < count i (chain k) → i ≢ j → 0 < count i (replace h rest chain k)
        still k i on ne =
            ground
              (arith, on, ne, count-cut std_hash chain free h j rest s.blocks cut w.linked c k i)

        Clean : PageId → Type 0
        Clean p =
            (k i : ℕ)
            → 0 < count i (replace h rest chain k)
            → loading i ≡ false
            → s.blocks.page_id i ≡ p
            → s.blocks.modified i ≡ false

        its_page_served : device.serves (s.blocks.page_id j) ≡ true
        its_page_served =
            w.shows.known h j (is_chained std_hash chain free h j rest s.blocks cut w.linked c)

        its_page : device.read_page (s.blocks.page_id j) t.disk ≡ a (s.blocks.page_id j)
        its_page = elim (Bool-cases (s.blocks.modified j)) [
          | inl dirty ↦
              fl.stored dirty
              ∙ sym (
                  w.shows.cached h j
                    (is_chained std_hash chain free h j rest s.blocks cut w.linked c) ready)
          | inr clean ↦
              fl.others (s.blocks.page_id j) its_page_served (λ dirty. absurd cc)
              ∙ w.shows.stored (s.blocks.page_id j) its_page_served
                  (λ k i on l e. ap s.blocks.modified (same_page k i on e) ∙ clean)
        ]

        by_page :
            (p : PageId)
            → device.serves p ≡ true
            → Clean p
            → (page_id_eq p (s.blocks.page_id j) ≡ true)
              ⊎ (page_id_eq p (s.blocks.page_id j) ≡ false)
            → device.read_page p t.disk ≡ a p
        by_page p has clean (inl e) =
            subst (λ q. device.read_page q t.disk ≡ a q)
              (sym ((page_id_eq_iff p (s.blocks.page_id j)).0 e)) its_page
        by_page p has clean (inr e) =
            let ne : p ≢ s.blocks.page_id j =
              λ i. let yes = (page_id_eq_iff p (s.blocks.page_id j)).1 i in cc in
            fl.others p has (λ dirty. ne)
            ∙ w.shows.stored p has (λ k i on l e'.
              clean k i (still k i on (λ i_j. ne (sym e' ∙ ap s.blocks.page_id i_j))) l e')

    pub evicted-Grants :
        (b : Block) (t : Pool D)
        → ((i : ℕ) → (s.locks i).fix_count ≢ 0 → i ≢ j)
        → ((unlock b).readers ≡ 0) × ((unlock b).writer ≡ false)
        → Flushes device j (set_lock j b s) t
        → Grants device std_hash a loading chain s (s.blocks.frame_index j) (evicted b t.disk)
    unfolding insert_bcb
    evicted-Grants b t others unlocked fl = record {
      chain' = replace h rest chain;
      free' = j ∷ free;
      coherent = record {
        linked = Cuts-IsLinked std_hash chain free h j rest s.blocks cut w.linked c;
        framed = evicted-IsFramed b t.disk;
        shows = evicted-Shows b t fl;
        unlocked = free_unlocked;
      };
      in_range = owned.0;
      unused = λ k i on e. off k (
          subst (λ m. 0 < count m (replace h rest chain k))
            (w.framed.sole k h i j (chained k i on) in_h
              (λ z. w.shows.brought h j in_h ready (sym e ∙ z)) e)
            on);
      not_free = owned.1;
      fewer = chained;
      stays = λ k i l on. ground (
        arith,
        on,
        others i l,
        count-cut std_hash chain free h j rest s.blocks cut w.linked c k i,
      );
      locks = λ i l.
          set_at_ne j (unlock (set_at j b s.locks j)) (set_at j b s.locks) i (others i l)
          ∙ set_at_ne j b s.locks i (others i l);
      frame = refl;
      page_id = refl;
      frame_index = refl;
      modified = refl;
      table_size = refl;
      no_frames = refl;
    }
      where
        in_h : 0 < count j (chain h)
        in_h = is_chained std_hash chain free h j rest s.blocks cut w.linked c

        owned :
            (s.blocks.frame_index j < s.no_frames)
            × (count (s.blocks.frame_index j) (frames s.blocks.free_frames) ≡ 0)
        owned = w.framed.owned h j in_h (w.shows.brought h j in_h ready)

        off : (k : ℕ) → 0 < count j (replace h rest chain k) → ⊥
        off k on =
            let none_here = cut_off std_hash chain free h j rest s.blocks cut w.linked c k in
            omega (arith, on, none_here)

        IsFree : Block → Type 0
        IsFree l = (l.readers ≡ 0) × (l.writer ≡ false)

        free_unlocked : IsUnlocked (j ∷ free) (evicted b t.disk)
        free_unlocked i on = elim (Bool-cases (i == j)) [
          | inl e ↦
              subst (λ m. IsFree ((evicted b t.disk).locks m)) (sym (==→≡ i j e))
                (subst IsFree
                  (sym (set_at_self j (unlock (set_at j b s.locks j)) (set_at j b s.locks)))
                  (subst (λ l. IsFree (unlock l)) (sym (set_at_self j b s.locks)) unlocked))
          | inr e ↦
              let ne = ==→≢ i j e in
              subst IsFree
                (sym (
                  set_at_ne j (unlock (set_at j b s.locks j)) (set_at j b s.locks) i ne
                  ∙ set_at_ne j b s.locks i ne))
                (w.unlocked i (ground (arith, on, ne)))
        ]
