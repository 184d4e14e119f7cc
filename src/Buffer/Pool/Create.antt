-- ===== src/Buffer/Pool/Create.antt =====
-- `emptyfix`: a page that is new.
use master_team_projekt.Prelude.{
  ℕ, ◌<◌, ◌≡◌, ◌≢◌, refl, sym, ap, ◌∙◌, subst, Bool, Option, some, List, true, false, ltb, ◌==◌,
  if◌then◌else◌, Bool-cases, ==→≡, ==→≢, inl, inr, count, length, arith,
}
use master_team_projekt.Infra.Types.{PageId, page_id_eq, page_id_eq_iff}
use master_team_projekt.Infra.Headers.{BasicHeader}
use master_team_projekt.Buffer.Block.{Block, lock_exclusive}
use master_team_projekt.Buffer.Pool.{
  Frame, set_header, Device, Pool, set_at_self, set_at_ne, set_lock, set_modified, set_frame,
  get_frame_ptr, init_new_page, emptyfix,
}
use master_team_projekt.Buffer.Pool.Coherent.{
  Answers, Answers-bind, IsDevice, IsCoherent, IsBuffer, idle, page_of,
}
use master_team_projekt.Buffer.Pool.Chains.{one_block}
use master_team_projekt.Buffer.Pool.Links.{IsAway}
use master_team_projekt.Buffer.Pool.Link.{free-Locks}
use master_team_projekt.Buffer.Pool.Locate.{Locates, NotLocated, locate_page-Locates}
use master_team_projekt.Buffer.Pool.Fix.{relocked}

-- The pages with one that is new.
abbrev pub update : (PageId → Option Frame) → PageId → Frame → PageId → Option Frame
update a p c q = if page_id_eq q p then some c else a q

abbrev pub first_header : PageId → BasicHeader
first_header p = record { lsn = 1; page_index = p.page_no; pid = p.file_id; version = 1 }

-- The block `i` holds the new page, and the other pages are as they were.
pub record Creates {D : Type 0} (device : Device D) (std_hash : ℕ → ℕ) (a : PageId → Option Frame)
    (p : PageId) (i : ℕ) (t : Pool D) : Type 0 where
  pub buffer : IsBuffer device std_hash (update a p (page_of i t)) t
  pub page : t.blocks.page_id i ≡ p
  pub header : (page_of i t).header.basic_header ≡ first_header p
  pub modified : t.blocks.modified i ≡ true
  pub lock : (l : Block) × (lock_exclusive l ≡ some (t.locks i))

module _ {D : Type 0} (device : Device D) (std_hash : ℕ → ℕ) (a : PageId → Option Frame)
    (p : PageId) (s : Pool D) (i : ℕ) (t : Pool D) (w : Locates device std_hash a p s i t)
    (c : Frame) where
  abbrev created : Pool D
  created = set_frame (t.blocks.frame_index i) c (set_modified i true t)

  update_self : (q : PageId) → q ≡ p → update a p c q ≡ some c
  update_self q e = let yes = (page_id_eq_iff q p).1 e in rw yes refl

  update_ne : (q : PageId) → q ≢ p → update a p c q ≡ a q
  update_ne q ne = elim (Bool-cases (page_id_eq q p)) [
    | inl e ↦ absurd (ne ((page_id_eq_iff q p).0 e))
    | inr e ↦ rw e refl
  ]

  own_frame : created.frame (t.blocks.frame_index i) ≡ c
  own_frame = set_at_self (t.blocks.frame_index i) c t.frame

  other_page : (h j : ℕ) → 0 < count j (w.chain' h) → j ≢ i → t.blocks.page_id j ≢ p
  other_page h j on ne e = ne (
      one_block std_hash w.chain' w.free' t.blocks w.coherent.linked h w.home j i on w.on
        (e ∙ sym w.page))

  kept :
      (h j : ℕ)
      → 0 < count j (w.chain' h)
      → (j == i) ≡ false
      → created.frame (t.blocks.frame_index j) ≡ t.frame (t.blocks.frame_index j)
  kept h j on e = set_at_ne (t.blocks.frame_index i) c t.frame (t.blocks.frame_index j) (λ same.
      ==→≢ j i e
        (w.coherent.framed.sole h w.home j i on w.on (w.coherent.shows.brought h j on e) same))

  pub created-IsCoherent : IsCoherent device std_hash (update a p c) idle w.chain' w.free' created
  created-IsCoherent = record {
    linked = record {
      chains = w.coherent.linked.chains;
      free_list = w.coherent.linked.free_list;
      hashed = w.coherent.linked.hashed;
      once = w.coherent.linked.once;
      single = w.coherent.linked.single;
    };
    framed = record {
      owned = w.coherent.framed.owned;
      sole = w.coherent.framed.sole;
      free_once = w.coherent.framed.free_once;
      free_small = w.coherent.framed.free_small;
      number = w.coherent.framed.number;
    };
    shows = record {
      brought = λ h j on l z. elim (Bool-cases (j == i)) [
        | inl e ↦
            let z' = ap t.blocks.frame_index (sym (==→≡ j i e)) ∙ z in
            omega (arith, z', w.framed, w.coherent.framed.number)
        | inr e ↦ w.coherent.shows.brought h j on e z
      ];
      cached = λ h j on l. elim (Bool-cases (j == i)) [
        | inl e ↦
            subst
              (λ k.
                update a p c (t.blocks.page_id k) ≡ some (created.frame (t.blocks.frame_index k)))
              (sym (==→≡ j i e))
              (update_self (t.blocks.page_id i) w.page ∙ ap (λ f. some f) (sym own_frame))
        | inr e ↦
            update_ne (t.blocks.page_id j) (other_page h j on (==→≢ j i e))
            ∙ w.coherent.shows.cached h j on e
            ∙ ap (λ f. some f) (sym (kept h j on e))
      ];
      known = w.coherent.shows.known;
      stored = λ q has clean. elim (Bool-cases (page_id_eq q p)) [
        | inl e ↦
            let dirty = set_at_self i true t.blocks.modified in
            let q_p = (page_id_eq_iff q p).0 e in
            absurd (clash (sym dirty ∙ clean w.home i w.on refl (w.page ∙ sym q_p)))
        | inr e ↦
            let ne : q ≢ p = λ i. let yes = (page_id_eq_iff q p).1 i in cc in
            w.coherent.shows.stored q has (λ h j on l e'.
              sym (set_at_ne i true t.blocks.modified j (==→≢ j i l)) ∙ clean h j on refl e')
            ∙ sym (update_ne q ne)
      ];
    };
    unlocked = w.coherent.unlocked;
  }
    where
      clash : ◌≡◌ {A = Bool} true false → ⊥
      clash e = cc

-- Let the buffer be in order with the pages `a`, without the page of the disk that is asked for, and let the disk
-- keep what was written to its pages, as the partitions do. Then `emptyfix` returns a block that is locked exclusively and holds a page with a new
-- header, the buffer is in order, and all other pages are as they were. It fails only if no control block
-- is free, the disk refuses a page, or no frame is free and all blocks of the buckets that are chosen are held.
pub emptyfix-Creates :
    {D : Type 0} (device : Device D) (std_hash : ℕ → ℕ) (a : PageId → Option Frame) (p : PageId)
    (fuel : ℕ) (choices : List ℕ) (s : Pool D) (w : IsBuffer device std_hash a s)
    → IsDevice device
    → device.serves p ≡ true
    → IsAway w.chain p s.blocks
    → ((h : ℕ) → length (w.chain h) < fuel)
    → Answers
        (NotLocated device w.chain choices s)
        (Creates device std_hash a p)
        (emptyfix device std_hash fuel choices p s)
unfolding emptyfix init_new_page get_frame_ptr
emptyfix-Creates {D} device std_hash a p fuel choices s w laws served away enough =
    Answers-bind (NotLocated device w.chain choices s) (Locates device std_hash a p s)
      (Creates device std_hash a p) _ _
      (locate_page-Locates device laws std_hash a w.chain p s away fuel enough choices served w.free
        w.coherent)
      (λ i t l.
        let f = free-Locks (t.locks i) l.lock.0 l.lock.1 in
        let inside : ltb (t.blocks.frame_index i) t.no_frames ≡ true = ground (arith, l.framed) in
        rw (f.1.taken, inside) (created_here i t l f.0 f.1.taken))
  where
    made : ℕ → Pool D → Block → Frame → Pool D
    made i t b c = set_frame (t.blocks.frame_index i) c (set_modified i true (set_lock i b t))

    created_here :
        (i : ℕ) (t : Pool D) (l : Locates device std_hash a p s i t) (b : Block)
        → lock_exclusive (t.locks i) ≡ some b
        → Creates device std_hash a p i (
            set_frame
              (t.blocks.frame_index i)
              (set_header (first_header p) (t.frame (t.blocks.frame_index i)))
              (set_modified i true (set_lock i b t)))
    created_here i t l b taken =
        let c : Frame = set_header (first_header p) (t.frame (t.blocks.frame_index i)) in
        let own = set_at_self (t.blocks.frame_index i) c t.frame in
        record {
          buffer = record {
            chain = l.chain';
            free = l.free';
            coherent =
                subst
                  (λ x.
                    IsCoherent device std_hash (update a p x) idle l.chain' l.free' (made i t b c))
                  (sym own)
                  (relocked device std_hash (update a p c) idle l.chain' l.free' l.home i b
                    (created device std_hash a p s i t l c) l.on
                    (created-IsCoherent device std_hash a p s i t l c));
          };
          page = l.page;
          header = ap (λ f. f.header.basic_header) own;
          modified = set_at_self i true t.blocks.modified;
          lock = (t.locks i, taken ∙ ap (λ k. some k) (sym (set_at_self i b t.locks)));
        }
