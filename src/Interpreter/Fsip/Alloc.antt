-- ===== src/Interpreter/Fsip/Alloc.antt =====
-- `getNewPage` and `reservePage` of interpreter_fsip.cc.
use master_team_projekt.Prelude.{
  ℕ, ◌+◌, ◌<◌, ◌≡◌, refl, inl, inr, true, false, ltb, ◌==◌, if◌then◌else◌, Bool-cases, ltb→lt,
  arith,
}
use master_team_projekt.Prelude.Word.{mod_32, sub_32, add_32}
use master_team_projekt.Infra.Types.{invalid_32}
use master_team_projekt.Interpreter.Fsip.{
  FsipPage, get_new_page, take_page, get_next_free_page, reserve_page, bit_index, set_bit_8,
  set_bit_32,
}
use master_team_projekt.Interpreter.Fsip.Words.{set_bit_8-at, set_bit_32-at}
use master_team_projekt.Interpreter.Fsip.Bitmap.{
  IsFirstFree, count_free, count_free-take, count_free-pos,
}
use master_team_projekt.Interpreter.Fsip.Valid.{
  IsValid, capacity, count_free-le, get_next_free_page-first, mark-IsValid,
}

counter : (p : FsipPage) → 0 < p.free_blocks_count → (p.free_blocks_count == 0) ≡ false
counter p h = ground arith

-- What `getNewPage` promises while a page is free: it hands out the first free page, marks that
-- bit and no other, and keeps the invariant.
pub record Takes (page_size : ℕ) (p : FsipPage) (r : ℕ × FsipPage) : Type 0 where
  pub was_free : IsFirstFree p.bits 0 (capacity page_size) p.next_free_page
  pub managed : p.next_free_page < p.managed_pages
  pub number : r.0 ≡ add_32 (add_32 p.next_free_page 1) p.basic_header.page_index
  pub bits : (k : ℕ) → (r.1).bits k ≡ (if k == p.next_free_page then true else p.bits k)
  pub fewer : (r.1).free_blocks_count + 1 ≡ p.free_blocks_count
  pub same_header : ((r.1).managed_pages ≡ p.managed_pages) × ((r.1).basic_header ≡ p.basic_header)
  pub valid : IsValid page_size r.1

-- On a valid page with a free page left, `getNewPage` hands out the first free page of the
-- partition behind the indicator page, marks its bit and no other, counts it, and leaves a valid
-- page.
pub get_new_page-Takes :
    (page_size : ℕ) (p : FsipPage)
    → IsValid page_size p
    → 0 < p.free_blocks_count
    → Takes page_size p (get_new_page page_size p)
unfolding get_new_page
get_new_page-Takes page_size p v h = rw (counter p h) (record {
  was_free = f;
  managed = managed;
  number = refl;
  bits = bits;
  fewer = omega (arith, v.counted, count_free-le (capacity page_size) p.bits, v.small);
  same_header = (refl, refl);
  valid =
      mark-IsValid page_size p _ p.next_free_page v managed f.is_free bits (take_page page_size p)
        refl refl refl
        (λ more.
          get_next_free_page-first page_size marked f.below
            (λ i below. rw (set_bit_8-at p.bits p.next_free_page i) (ground (arith, f.least i)))
            (omega
              (arith, taken, more, v.counted, count_free-le (capacity page_size) p.bits, v.small)));
})
  where
    f : IsFirstFree p.bits 0 (capacity page_size) p.next_free_page
    f = v.first h

    managed : p.next_free_page < p.managed_pages
    managed = elim (Bool-cases (ltb p.next_free_page p.managed_pages)) [
      | inl e ↦ ltb→lt _ _ e
      | inr e ↦ absurd (ground (arith, f.is_free, v.closed p.next_free_page (ground arith) f.below))
    ]

    marked : FsipPage
    marked = record p { bits = set_bit_8 p.bits p.next_free_page }

    bits : (k : ℕ) → marked.bits k ≡ (if k == p.next_free_page then true else p.bits k)
    bits k = set_bit_8-at p.bits p.next_free_page k

    taken : count_free (capacity page_size) marked.bits + 1 ≡ count_free (capacity page_size) p.bits
    taken =
        count_free-take (capacity page_size) p.next_free_page p.bits marked.bits f.below f.is_free
          (rw bits (ground arith)) (λ k ne. rw bits (ground arith))

-- A page with no free page left refuses with `INVALID_32` and is not changed.
pub get_new_page_full :
    (page_size : ℕ) (p : FsipPage)
    → p.free_blocks_count ≡ 0
    → get_new_page page_size p ≡ (invalid_32, p)
unfolding get_new_page
get_new_page_full page_size p h = rw h

-- What `reservePage` promises for page `i` behind the indicator page, if it is free.
pub record Reserves (page_size : ℕ) (p : FsipPage) (i : ℕ) (q : FsipPage) : Type 0 where
  pub bits : (k : ℕ) → q.bits k ≡ (if k == i then true else p.bits k)
  pub fewer : q.free_blocks_count + 1 ≡ p.free_blocks_count
  pub same_header : (q.managed_pages ≡ p.managed_pages) × (q.basic_header ≡ p.basic_header)
  pub valid : IsValid page_size q

pub bit_index_lem :
    (p : FsipPage) (i : ℕ)
    → p.basic_header.page_index + 1 + i < mod_32
    → bit_index p (p.basic_header.page_index + 1 + i) ≡ i
bit_index_lem p i h = omega arith

-- Reserving a free page that a valid indicator page manages marks its bit and no other, counts it,
-- and leaves a valid page.
pub reserve_page-Reserves :
    (page_size : ℕ) (p : FsipPage) (i : ℕ)
    → IsValid page_size p
    → i < p.managed_pages
    → p.bits i ≡ false
    → p.basic_header.page_index + 1 + i < mod_32
    → Reserves page_size p i (reserve_page page_size p (p.basic_header.page_index + 1 + i))
unfolding reserve_page
reserve_page-Reserves page_size p i v managed free small = rw (bit_index_lem p i small) (record {
  bits = set_bit_32-at p.bits i;
  fewer = omega (arith, v.counted, count_free-le (capacity page_size) p.bits, v.small, some);
  same_header = (refl, refl);
  valid =
      mark-IsValid page_size p _ i v managed free (set_bit_32-at p.bits i)
        (record marked {
          header = record (marked.header) { next_free_page = get_next_free_page page_size marked };
        })
        refl refl refl
        (λ more.
          get_next_free_page-first page_size marked (v.first positive).below
            (λ k below. rw (set_bit_32-at p.bits i k) (ground (arith, (v.first positive).least k)))
            (omega
              (arith, taken, more, v.counted, count_free-le (capacity page_size) p.bits, v.small)));
})
  where
    some : 0 < count_free (capacity page_size) p.bits
    some = count_free-pos (capacity page_size) i p.bits (omega (arith, v.within)) free

    positive : 0 < p.free_blocks_count
    positive = omega (arith, some, v.counted)

    marked : FsipPage
    marked = record p {
      bits = set_bit_32 p.bits i;
      header = record (p.header) { free_blocks_count = sub_32 p.free_blocks_count 1 };
    }

    taken : count_free (capacity page_size) marked.bits + 1 ≡ count_free (capacity page_size) p.bits
    taken =
        count_free-take (capacity page_size) i p.bits marked.bits (omega (arith, v.within)) free
          (rw (set_bit_32-at p.bits i) (ground arith))
          (λ k ne. rw (set_bit_32-at p.bits i) (ground arith))
