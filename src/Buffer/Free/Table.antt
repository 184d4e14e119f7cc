-- ===== src/Buffer/Free/Table.antt =====
-- The chains of the hash table: the search of `fix`, the entry of `locatePage`, the removal of `resetBCB`.
use master_team_projekt.Prelude.{
  ℕ, zero, suc, ◌≤◌, ◌≡◌, ◌≢◌, refl, ap, ◌∙◌, subst, true, false, ◌==◌, if◌then◌else◌, Option, none,
  some, sym, count, Bool-cases, ==→≡, inl, inr, ◌<◌, List, [], ◌∷◌, ◌++◌, length, arith,
}
use mathlib.Core.Option.{some_inj}
use master_team_projekt.Infra.Types.{PageId, page_id_eq, page_id_eq_iff}
use master_team_projekt.Buffer.Free.{
  Blocks, hash, set_next, insert_bcb, push_frame, link_block, find_from, give_back, unlink_from,
  reset_in, reset_bcb,
}
use master_team_projekt.Buffer.Free.Chain.{IsChain, IsAbsent, IsChain-relink}

-- The first block of a list that is for a page.
pub first_for : PageId → Blocks → List ℕ → Option ℕ
first_for p s [] = none
first_for p s (i ∷ is) = if page_id_eq (s.page_id i) p then some i else first_for p s is

-- On a chain without a cycle the search of `fix` returns the first control block that is for the page, and
-- the null pointer if there is none.
pub find_from-first_for :
    (fuel : ℕ) (q : Option ℕ) (is : List ℕ) (p : PageId) (s : Blocks)
    → IsChain s.next q is
    → length is < fuel
    → find_from fuel q p s ≡ first_for p s is
unfolding find_from first_for
find_from-first_for zero q is p s c enough = absurd (omega arith)
find_from-first_for (suc fuel) q [] p s c enough = rw c refl
find_from-first_for (suc fuel) q (i ∷ is) p s (head, tail) enough =
    rw (head, find_from-first_for fuel (s.next i) is p s tail (omega arith)) refl

-- The block that is found is one of the list, and it is for the page.
pub first_for-some :
    (p : PageId) (s : Blocks) (is : List ℕ) (i : ℕ)
    → first_for p s is ≡ some i
    → (0 < count i is) × (s.page_id i ≡ p)
unfolding first_for
first_for-some p s [] i e = absurd cc
first_for-some p s (j ∷ is) i e = elim (Bool-cases (page_id_eq (s.page_id j) p)) [
  | inl same ↦
      let j_i : j ≡ i = some_inj.0 (rw same at e) in
      (ground (arith, j_i), ap s.page_id (sym j_i) ∙ (page_id_eq_iff (s.page_id j) p).0 same)
  | inr differs ↦
      let later = first_for-some p s is i (rw differs at e) in (omega (arith, later.0), later.1)
]

pub first_for-none :
    (p : PageId) (s : Blocks) (is : List ℕ)
    → first_for p s is ≡ none
    → (i : ℕ) → 0 < count i is
    → s.page_id i ≢ p
unfolding first_for
first_for-none p s [] e i on same = omega (arith, on)
first_for-none p s (j ∷ is) e i on same = elim (Bool-cases (page_id_eq (s.page_id j) p)) [
  | inl found ↦ let e' = rw found at e in cc
  | inr differs ↦ elim (Bool-cases (j == i)) [
    | inl j_i ↦
        let yes = (page_id_eq_iff (s.page_id j) p).1 (ap s.page_id (==→≡ j i j_i) ∙ same) in cc
    | inr other ↦ first_for-none p s is (rw differs at e) i (ground (arith, on, other)) same
  ]
]

same_number : (n : ℕ) → (n == n) ≡ true
same_number n = ground arith

-- A block that is linked in for a page is the first in the chain of its bucket, where the others follow, and
-- a search for the page finds it.
pub link_block-IsChain :
    (std_hash : ℕ → ℕ) (p : PageId) (i fuel : ℕ) (is : List ℕ) (s : Blocks)
    → IsChain s.next (s.bucket (hash std_hash s p)) is
    → IsAbsent i is
    → let h = hash std_hash s p in
      let t = link_block std_hash p i s in
      IsChain t.next (t.bucket h) (i ∷ is) × (find_from (suc fuel) (t.bucket h) p t ≡ some i)
unfolding link_block find_from
link_block-IsChain std_hash p i fuel is s c absent = (
  (
    ground arith,
    subst (λ r. IsChain (link_block std_hash p i s).next r is) (ground arith)
        (IsChain-relink s.next i (s.bucket (hash std_hash s p)) (s.bucket (hash std_hash s p)) is
          absent c),
  ),
  rw (same_number (hash std_hash s p)) (rw (same_number i) (rw ((page_id_eq_iff p p).1 refl) refl)),
)

-- The links that `unlink_from` leaves behind the block `i`.
record Unlinks (i : ℕ) (is : List ℕ) (v : ℕ) (js fs : List ℕ) (s t : Blocks) : Type 0 where
  pub rest : IsChain t.next (t.next i) (is ++ js)
  pub free : IsChain t.next t.free_bcb_list (v ∷ fs)
  pub frame : t.free_frames ≡ push_frame (s.frame_index v) s.free_frames
  pub buckets : t.bucket ≡ s.bucket
  pub elsewhere : (k : ℕ) → IsAbsent k (i ∷ is) → k ≢ v → t.next k ≡ s.next k

abbrev AreAbsent : List ℕ → List ℕ → Type 0
AreAbsent [] js = Unit
AreAbsent (i ∷ is) js = IsAbsent i js × AreAbsent is js

abbrev AreOthers : PageId → Blocks → List ℕ → Type 0
AreOthers p s [] = Unit
AreOthers p s (i ∷ is) = (page_id_eq (s.page_id i) p ≡ false) × AreOthers p s is

abbrev AreDistinct : List ℕ → Type 0
AreDistinct [] = Unit
AreDistinct (i ∷ is) = IsAbsent i is × AreDistinct is

cut-Unlinks :
    (i v : ℕ) (js fs : List ℕ) (s : Blocks)
    → IsChain s.next (s.next v) js
    → IsChain s.next s.free_bcb_list fs
    → IsAbsent i js
    → IsAbsent i fs
    → i ≢ v
    → IsAbsent v js
    → IsAbsent v fs
    → Unlinks i [] v js fs s (set_next i (s.next v) (give_back v s))
unfolding insert_bcb
cut-Unlinks i v js fs s c f ij fi iv vj vf = record {
  rest =
      subst (λ r. IsChain outer r js) {x = s.next v} {y = outer i} (ground arith)
        (IsChain-relink inner i (s.next v) (s.next v) js ij
          (IsChain-relink s.next v s.free_bcb_list (s.next v) js vj c));
  free = (
    refl,
    subst (λ r. IsChain outer r fs) {x = s.free_bcb_list} {y = outer v} (ground (arith, iv))
        (IsChain-relink inner i (s.next v) s.free_bcb_list fs fi
          (IsChain-relink s.next v s.free_bcb_list s.free_bcb_list fs vf f)),
  );
  frame = refl;
  buckets = refl;
  elsewhere = λ k a ne. ground (arith, a.0, ne);
}
  where
    inner : ℕ → Option ℕ
    inner j = if j == v then s.free_bcb_list else s.next j

    outer : ℕ → Option ℕ
    outer j = if j == i then s.next v else inner j

unlink_from-Unlinks :
    (fuel i : ℕ) (is : List ℕ) (v : ℕ) (js fs : List ℕ) (q : Option ℕ) (p : PageId) (s : Blocks)
    → s.next i ≡ q
    → IsChain s.next q (is ++ v ∷ js)
    → IsChain s.next s.free_bcb_list fs
    → AreOthers p s is
    → page_id_eq (s.page_id v) p ≡ true
    → AreDistinct (i ∷ is)
    → AreAbsent (i ∷ is) js
    → AreAbsent (i ∷ is) fs
    → IsAbsent v (i ∷ is)
    → IsAbsent v js
    → IsAbsent v fs
    → length is < fuel
    → Unlinks i is v js fs s (unlink_from fuel i q p s)
unfolding unlink_from insert_bcb
unlink_from-Unlinks zero i is v js fs q p s e c f others mine d aj af vi vj vf enough =
    absurd (omega arith)
unlink_from-Unlinks (suc fuel) i [] v js fs q p s e c f others mine d aj af vi vj vf enough =
    rw (c.0, mine) (cut-Unlinks i v js fs s c.1 f aj.0 af.0 vi.0 vj vf)
unlink_from-Unlinks (suc fuel) i (j ∷ is) v js fs q p s e c f others mine d aj af vi vj vf enough =
    let later =
      unlink_from-Unlinks fuel j is v js fs (s.next j) p s refl c.1 f others.1 mine d.1 aj.1 af.1
        vi.1 vj vf (omega arith) in
    rw (c.0, others.0)
      (record {
        rest = (later.elsewhere i d.0 vi.0 ∙ e ∙ c.0, later.rest);
        free = later.free;
        frame = later.frame;
        buckets = later.buckets;
        elsewhere = λ k a ne. later.elsewhere k a.1 ne;
      })

-- A chain with the block `v` for a page behind blocks for other pages, and the list of free blocks, which
-- share no block.
pub record Holds (s : Blocks) (q : Option ℕ) (p : PageId) (is : List ℕ) (v : ℕ) (js fs : List ℕ)
    : Type 0 where
  pub chain : IsChain s.next q (is ++ v ∷ js)
  pub free : IsChain s.next s.free_bcb_list fs
  pub others : AreOthers p s is
  pub mine : page_id_eq (s.page_id v) p ≡ true
  pub distinct : AreDistinct is × AreAbsent is js
  pub apart : AreAbsent is fs × IsAbsent v is × IsAbsent v js × IsAbsent v fs

-- What `resetBCB` does with them: the block leaves the chain for the list of free blocks, and its frame is
-- pushed on the free frames.
pub record Resets (s : Blocks) (h : ℕ) (is : List ℕ) (v : ℕ) (js fs : List ℕ) (t : Blocks)
    : Type 0 where
  pub chain : IsChain t.next (t.bucket h) (is ++ js)
  pub free : IsChain t.next t.free_bcb_list (v ∷ fs)
  pub frame : t.free_frames ≡ push_frame (s.frame_index v) s.free_frames

reset_in-Resets :
    (fuel h : ℕ) (q : Option ℕ) (p : PageId) (is : List ℕ) (v : ℕ) (js fs : List ℕ) (s : Blocks)
    → s.bucket h ≡ q
    → Holds s q p is v js fs
    → length is ≤ fuel
    → Resets s h is v js fs (reset_in fuel h q p s)
unfolding reset_in insert_bcb
reset_in-Resets fuel h q p [] v js fs s e w enough =
    rw (w.chain.0, w.mine)
      (record {
        chain =
            subst (λ r. IsChain relinked r js) {x = s.next v} (ground arith)
              (IsChain-relink s.next v s.free_bcb_list (s.next v) js w.apart.2 w.chain.1);
        free = (
          refl,
          subst (λ r. IsChain relinked r fs) {x = s.free_bcb_list} (ground arith)
              (IsChain-relink s.next v s.free_bcb_list s.free_bcb_list fs w.apart.3 w.free),
        );
        frame = refl;
      })
  where
    relinked : ℕ → Option ℕ
    relinked j = if j == v then s.free_bcb_list else s.next j
reset_in-Resets fuel h q p (i ∷ is) v js fs s e w enough =
    rw (w.chain.0, w.others.0)
      (record {
        chain = (ap (λ b. b h) later.buckets ∙ e ∙ w.chain.0, later.rest);
        free = later.free;
        frame = later.frame;
      })
  where
    later : Unlinks i is v js fs s (unlink_from fuel i (s.next i) p s)
    later =
        unlink_from-Unlinks fuel i is v js fs (s.next i) p s refl w.chain.1 w.free w.others.1 w.mine
          w.distinct.0 w.distinct.1 w.apart.0 w.apart.1 w.apart.2 w.apart.3 (omega (arith, enough))

-- `resetBCB` for a page that has a control block takes exactly that block out of its chain, where the
-- others stay in their order, makes it the first of the free blocks and frees its frame. The chain and
-- the list of free blocks are taken to share no block and to hold none twice.
pub reset_bcb-Resets :
    (std_hash : ℕ → ℕ) (fuel : ℕ) (p : PageId) (is : List ℕ) (v : ℕ) (js fs : List ℕ) (s : Blocks)
    → let h = hash std_hash s p in
      Holds s (s.bucket h) p is v js fs
      → length is ≤ fuel
      → Resets s h is v js fs (reset_bcb std_hash fuel p s)
unfolding reset_bcb
reset_bcb-Resets std_hash fuel p is v js fs s w enough =
    let h = hash std_hash s p in reset_in-Resets fuel h (s.bucket h) p is v js fs s refl w enough
