-- ===== src/Buffer/Pool/Flush.antt =====
-- `flushAll` and `unfix`.
use master_team_projekt.Prelude.{true}
use master_team_projekt.Prelude.{
  ℕ, zero, suc, ◌+◌, ◌%◌, ◌≤◌, ◌<◌, ◌≡◌, refl, sym, ap, ◌∙◌, subst, Option, none, some, List, [],
  ◌∷◌, ◌++◌, ◌==◌, ◌⊎◌, Bool-cases, ==→≡, ==→≢, inl, inr, count, count-append, length, arith,
}
use native.Mathlib.Nat.{mod-lt}
use master_team_projekt.Prelude.Word.{add_64}
use master_team_projekt.Infra.Types.{PageId, page_id_eq, page_id_eq_iff}
use master_team_projekt.Buffer.Free.{Blocks, hash}
use master_team_projekt.Buffer.Free.Chain.{IsChain}
use master_team_projekt.Buffer.Free.Table.{first_for, first_for-some, first_for-none}
use master_team_projekt.Buffer.Pool.{
  Frame, Device, Pool, walk, valid_from, get_all_valid_bcbs, flush, flush_list, flush_all,
}
use master_team_projekt.Buffer.Pool.Coherent.{
  Answers, Answers-bind, Answers-map, IsDevice, IsCoherent, IsBuffer, idle,
}
use master_team_projekt.Buffer.Pool.Chains.{one_block}
use master_team_projekt.Buffer.Pool.Victim.{Flushes, OnlyDisk, flush-Flushes}

walk-chain :
    (fuel : ℕ) (next : ℕ → Option ℕ) (q : Option ℕ) (is : List ℕ)
    → IsChain next q is
    → length is < fuel
    → walk fuel next q ≡ is
unfolding walk
walk-chain zero next q is c enough = absurd (omega (arith, enough))
walk-chain (suc fuel) next q [] c enough = rw c refl
walk-chain (suc fuel) next q (i ∷ is) (head, tail) enough =
    rw head (ap (λ l. i ∷ l) (walk-chain fuel next (next i) is tail (omega (arith, enough))))

module _ (chain : ℕ → List ℕ) (s : Blocks)
    (chains : (h : ℕ) → IsChain s.next (s.bucket h) (chain h)) (fuel : ℕ)
    (enough : (h : ℕ) → length (chain h) < fuel) where
  -- The blocks that are listed are those of the chains.
  count-valid :
      (n k i : ℕ)
      → (((h : ℕ) × (0 < count i (chain h))) ⊎ (count i (valid_from fuel n k s) ≡ 0))
        × ((h : ℕ)
            → k ≤ h
            → h < k + n
            → 0 < count i (chain h)
            → 0 < count i (valid_from fuel n k s))
  unfolding valid_from
  count-valid zero k i = (inr refl, λ h lo hi on. absurd (omega (arith, lo, hi)))
  count-valid (suc n) k i =
      rw (walk-chain fuel s.next (s.bucket k) (chain k) (chains k) (enough k))
        (both (count-append i (chain k) (valid_from fuel n (k + 1) s)) (count-valid n (k + 1) i))
    where
      both :
          count i (chain k ++ valid_from fuel n (k + 1) s)
            ≡ count i (chain k) + count i (valid_from fuel n (k + 1) s)
          → (((h : ℕ) × (0 < count i (chain h))) ⊎ (count i (valid_from fuel n (k + 1) s) ≡ 0))
            × ((h : ℕ)
                → k + 1 ≤ h
                → h < k + 1 + n
                → 0 < count i (chain h)
                → 0 < count i (valid_from fuel n (k + 1) s))
          → (((h : ℕ) × (0 < count i (chain h)))
              ⊎ (count i (chain k ++ valid_from fuel n (k + 1) s) ≡ 0))
            × ((h : ℕ)
                → k ≤ h
                → h < k + suc n
                → 0 < count i (chain h)
                → 0 < count i (chain k ++ valid_from fuel n (k + 1) s))
      both sum (source, covers) = (
        elim (Bool-cases (count i (chain k) == 0)) [
          | inl e ↦ elim source [
            | inl found ↦ inl found
            | inr off ↦ inr (omega (arith, sum, off, ==→≡ _ _ e))
          ]
          | inr e ↦ inl (k, omega (arith, ==→≢ _ _ e))
        ],
        λ h lo hi on. elim (Bool-cases (h == k)) [
          | inl e ↦
              let here : 0 < count i (chain k) =
                subst (λ l. 0 < count i (chain l)) (==→≡ h k e) on in
              omega (arith, sum, here)
          | inr e ↦
              let ne = ==→≢ h k e in
              omega (arith, sum, covers h (omega (arith, lo, ne)) (omega (arith, hi)) on)
        ],
      )

module _ {D : Type 0} (device : Device D) (laws : IsDevice device) (std_hash : ℕ → ℕ)
    (a : PageId → Option Frame) (chain : ℕ → List ℕ) (free : List ℕ) where
  -- The disk holds the page as it is.
  IsSaved : PageId → Pool D → Type 0
  IsSaved q t = device.read_page q t.disk ≡ a q

  -- Only the disk changes, which holds more pages as they are.
  record Saves (is : List ℕ) (s t : Pool D) : Type 0 where
    pub coherent : IsCoherent device std_hash a idle chain free t
    pub rest : t ≡ record s { disk = t.disk }
    pub kept : (q : PageId) → device.serves q ≡ true → IsSaved q s → IsSaved q t
    pub saved : (i : ℕ) → 0 < count i is → IsSaved (s.blocks.page_id i) t

  flush-Saves :
      (i h : ℕ) (s : Pool D)
      → 0 < count i (chain h)
      → IsCoherent device std_hash a idle chain free s
      → Answers (OnlyDisk device) (λ u t. Saves (i ∷ []) s t) (flush device i s)
  unfolding IsSaved
  flush-Saves i h s on w =
      Answers-map (OnlyDisk device) (λ u t. Flushes device i s t) (λ u t. Saves (i ∷ []) s t) _
        (λ u t. flushed t)
        (flush-Flushes device laws i s
          (λ dirty. (w.framed.owned h i on (w.shows.brought h i on refl)).0) (w.shows.known h i on))
    where
      its_page : (t : Pool D) → Flushes device i s t → IsSaved (s.blocks.page_id i) t
      its_page t fl = elim (Bool-cases (s.blocks.modified i)) [
        | inl dirty ↦ fl.stored dirty ∙ sym (w.shows.cached h i on refl)
        | inr clean ↦
            fl.others (s.blocks.page_id i) (w.shows.known h i on) (λ dirty. absurd cc)
            ∙ w.shows.stored (s.blocks.page_id i) (w.shows.known h i on) (λ k j on' l e.
              ap s.blocks.modified
                (one_block std_hash chain free s.blocks w.linked k h j i on' on e)
              ∙ clean)
      ]

      every_page :
          (t : Pool D)
          → Flushes device i s t
          → (q : PageId) → device.serves q ≡ true
          → IsSaved q s
          → IsSaved q t
      every_page t fl q has e = elim (Bool-cases (page_id_eq q (s.blocks.page_id i))) [
        | inl same ↦
            subst (λ p. IsSaved p t) (sym ((page_id_eq_iff q (s.blocks.page_id i)).0 same))
              (its_page t fl)
        | inr differs ↦
            fl.others q has
              (λ dirty same. let yes = (page_id_eq_iff q (s.blocks.page_id i)).1 same in cc)
            ∙ e
      ]

      flushed : (t : Pool D) → Flushes device i s t → Saves (i ∷ []) s t
      flushed t fl = record {
        coherent = subst (IsCoherent device std_hash a idle chain free) (sym fl.rest) (record {
          linked = w.linked;
          framed = record {
            owned = w.framed.owned;
            sole = w.framed.sole;
            free_once = w.framed.free_once;
            free_small = w.framed.free_small;
            number = w.framed.number;
          };
          shows = record {
            brought = w.shows.brought;
            cached = w.shows.cached;
            known = w.shows.known;
            stored = λ q has clean. every_page t fl q has (w.shows.stored q has clean);
          };
          unlocked = w.unlocked;
        });
        rest = fl.rest;
        kept = every_page t fl;
        saved = λ k on'.
            let i_k : i ≡ k = ground (arith, on') in
            subst (λ m. IsSaved (s.blocks.page_id m) t) i_k (its_page t fl);
      }

  on_disk : D → Pool D → Pool D
  on_disk d x = record x { disk = d }

  flush_list-Saves :
      (is : List ℕ) (s : Pool D)
      → ((i : ℕ) → 0 < count i is → (h : ℕ) × (0 < count i (chain h)))
      → IsCoherent device std_hash a idle chain free s
      → Answers (OnlyDisk device) (λ u t. Saves is s t) (flush_list device is s)
  unfolding flush_list IsSaved on_disk
  flush_list-Saves [] s chained w = record {
    coherent = w;
    rest = refl;
    kept = λ q has e. e;
    saved = λ i on. absurd (omega (arith, on));
  }
  flush_list-Saves (i ∷ is) s chained w =
      let c = chained i (ground arith) in
      Answers-bind (OnlyDisk device) (λ u t. Saves (i ∷ []) s t) (λ u t. Saves (i ∷ is) s t) _ _
        (flush-Saves i c.0 s c.1 w)
        (λ u t f.
          Answers-map (OnlyDisk device) (λ u v. Saves is t v) (λ u v. Saves (i ∷ is) s v) _
            (λ u v g. record {
              coherent = g.coherent;
              rest = g.rest ∙ ap (on_disk v.disk) f.rest;
              kept = λ q has e. g.kept q has (f.kept q has e);
              saved = λ k on. elim (Bool-cases (i == k)) [
                | inl e ↦
                    g.kept (s.blocks.page_id k)
                      (ap (λ m. device.serves (s.blocks.page_id m)) (sym (==→≡ i k e))
                        ∙ w.shows.known c.0 i c.1)
                      (subst (λ m. IsSaved (s.blocks.page_id m) t) (==→≡ i k e)
                        (f.saved i (ground arith)))
                | inr e ↦
                    subst (λ x. IsSaved (x.blocks.page_id k) v) f.rest
                      (g.saved k (ground (arith, on, e)))
              ];
            })
            (flush_list-Saves is t (λ k on. chained k (omega (arith, on))) f.coherent))

-- Nothing of the buffer changes, and the disk holds all of its pages as they are.
pub record IsFlushed {D : Type 0} (device : Device D) (std_hash : ℕ → ℕ) (a : PageId → Option Frame)
    (s t : Pool D) : Type 0 where
  pub buffer : IsBuffer device std_hash a t
  pub rest : t ≡ record s { disk = t.disk }
  pub saved : (q : PageId) → device.serves q ≡ true → device.read_page q t.disk ≡ a q

-- Let the buffer be in order with the pages `a` and at least one bucket, and let the disk keep what was written
-- to its pages, as the partitions do. Then `flushAll` leaves a disk that holds each of its pages as `a` has it, and changes nothing else; it fails only if
-- the disk refuses a page.
pub flush_all-IsFlushed :
    {D : Type 0} (device : Device D) (std_hash : ℕ → ℕ) (a : PageId → Option Frame) (fuel : ℕ)
    (s : Pool D) (w : IsBuffer device std_hash a s)
    → IsDevice device
    → ((h : ℕ) → length (w.chain h) < fuel)
    → 0 < s.blocks.table_size
    → Answers (OnlyDisk device) (λ u t. IsFlushed device std_hash a s t) (flush_all device fuel s)
unfolding flush_all get_all_valid_bcbs IsSaved
flush_all-IsFlushed {D} device std_hash a fuel s w laws enough positive =
    Answers-map (OnlyDisk device) (λ u t. Saves device laws std_hash a w.chain w.free all s t)
      (λ u t. IsFlushed device std_hash a s t) _
      (λ u t v. record {
        buffer = record { chain = w.chain; free = w.free; coherent = v.coherent };
        rest = v.rest;
        saved = λ q has. by_search t v q has (first_for q s.blocks all) refl;
      })
      (flush_list-Saves device laws std_hash a w.chain w.free all s
        (λ i on. source i on (valid 0 i).0) w.coherent)
  where
    all : List ℕ
    all = valid_from fuel s.blocks.table_size 0 s.blocks

    valid :
        (k i : ℕ)
        → (((h : ℕ) × (0 < count i (w.chain h)))
            ⊎ (count i (valid_from fuel s.blocks.table_size k s.blocks) ≡ 0))
          × ((h : ℕ)
              → k ≤ h
              → h < k + s.blocks.table_size
              → 0 < count i (w.chain h)
              → 0 < count i (valid_from fuel s.blocks.table_size k s.blocks))
    valid k i =
        count-valid w.chain s.blocks w.coherent.linked.chains fuel enough s.blocks.table_size k i

    source :
        (i : ℕ)
        → 0 < count i all
        → ((h : ℕ) × (0 < count i (w.chain h))) ⊎ (count i all ≡ 0)
        → (h : ℕ) × (0 < count i (w.chain h))
    source i on (inl found) = found
    source i on (inr off) = absurd (omega (arith, on, off))

    remainder : (m n h : ℕ) → 0 < n → m % n ≡ h → h < 0 + n
    remainder m n h pos e = let lt : m % n < n = mod-lt m pos in omega (arith, lt, e)

    in_table :
        (h i : ℕ) → hash std_hash s.blocks (s.blocks.page_id i) ≡ h → h < 0 + s.blocks.table_size
    in_table h i e =
        remainder
          (add_64 (std_hash (s.blocks.page_id i).file_id) (std_hash (s.blocks.page_id i).page_no))
          s.blocks.table_size h positive e

    by_search :
        (t : Pool D)
        → Saves device laws std_hash a w.chain w.free all s t
        → (q : PageId) → device.serves q ≡ true
        → (r : Option ℕ) → first_for q s.blocks all ≡ r
        → device.read_page q t.disk ≡ a q
    by_search t v q has (some i) e =
        let found = first_for-some q s.blocks all i e in
        subst (λ p. device.read_page p t.disk ≡ a p) found.1 (v.saved i found.0)
    by_search t v q has none e = v.kept q has (
        w.coherent.shows.stored q has (λ h i on l same. absurd (
          first_for-none q s.blocks all e i
            ((valid 0 i).1 h (omega arith) (in_table h i (w.coherent.linked.hashed h i on)) on)
            same)))
