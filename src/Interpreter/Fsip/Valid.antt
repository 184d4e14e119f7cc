-- ===== src/Interpreter/Fsip/Valid.antt =====
-- The invariant of an indicator page, and the two steps that the operations of interpreter_fsip.cc
-- share: the search for the next free page, and the marking of a bit.
use master_team_projekt.Prelude.{
  ℕ, zero, suc, ◌+◌, ◌-◌, ◌*◌, ◌/◌, ◌≤◌, ◌<◌, ◌≡◌, inl, inr, true, false, ltb, ◌==◌, if◌then◌else◌,
  Bool-cases, arith,
}
use master_team_projekt.Prelude.Word.{mod_32, sub_32}
use master_team_projekt.Prelude.Bits.{Bits}
use master_team_projekt.Infra.Headers.{fsip_header_size}
use master_team_projekt.Interpreter.Fsip.{FsipPage, get_next_free_page}
use master_team_projekt.Interpreter.Fsip.Bitmap.{
  IsFirstFree, Finds, scan_words-Finds, count_free, count_free-take, count_free-pos,
  count_free-none,
}

-- The number of bits in front of the header.
abbrev pub capacity : ℕ → ℕ
capacity page_size = (page_size - fsip_header_size) / 4 * 32

-- The unmanaged bits are marked as in use, the counter counts the free bits, and while there is a
-- free bit, `next_free_page` is the first.
pub record IsValid (page_size : ℕ) (p : FsipPage) : Type 0 where
  pub small : capacity page_size < mod_32
  pub within : p.managed_pages ≤ capacity page_size
  pub closed : (i : ℕ) → p.managed_pages ≤ i → i < capacity page_size → p.bits i ≡ true
  pub counted : p.free_blocks_count ≡ count_free (capacity page_size) p.bits
  pub first : 0 < p.free_blocks_count → IsFirstFree p.bits 0 (capacity page_size) p.next_free_page

pub count_free-le : (n : ℕ) (m : Bits) → count_free n m ≤ n
count_free-le zero m = omega arith
count_free-le (suc n) m = ground (arith, count_free-le n m)

-- From a position below which nothing is free, the search gives the first free bit, if there is one.
pub get_next_free_page-first :
    (page_size : ℕ) (p : FsipPage)
    → p.next_free_page < capacity page_size
    → ((i : ℕ) → i < p.next_free_page → p.bits i ≡ true)
    → 0 < count_free (capacity page_size) p.bits
    → IsFirstFree p.bits 0 (capacity page_size) (get_next_free_page page_size p)
unfolding get_next_free_page
get_next_free_page-first page_size p below used some_free =
    pick (scan_words-Finds (words - first) first p.bits)
  where
    words : ℕ
    words = (page_size - fsip_header_size) / 4

    first : ℕ
    first = p.next_free_page / 32

    pick :
        Finds p.bits (first * 32) ((first + (words - first)) * 32) (get_next_free_page page_size p)
        → IsFirstFree p.bits 0 (capacity page_size) (get_next_free_page page_size p)
    pick (inl f) = record {
      from = omega arith;
      below = omega (arith, f.below);
      is_free = f.is_free;
      least = λ i lo hi. elim (Bool-cases (ltb i (first * 32))) [
        | inl e ↦ used i (ground arith)
        | inr e ↦ f.least i (ground arith) hi
      ];
    }
    pick (inr (z, f)) = absurd (
        omega (
          arith,
          count_free-none (capacity page_size) p.bits (λ i hi.
              elim (Bool-cases (ltb i (first * 32))) [
                | inl e ↦ used i (ground arith)
                | inr e ↦ f i (ground arith) (ground arith)
              ]),
        ))

-- Marking a free bit keeps the invariant when the next free page is searched for afresh.
pub mark-IsValid :
    (page_size : ℕ) (p : FsipPage) (m : Bits) (i : ℕ)
    → IsValid page_size p
    → i < p.managed_pages
    → p.bits i ≡ false
    → ((k : ℕ) → m k ≡ (if k == i then true else p.bits k))
    → (q : FsipPage) → q.bits ≡ m
    → q.managed_pages ≡ p.managed_pages
    → q.free_blocks_count ≡ sub_32 p.free_blocks_count 1
    → (0 < q.free_blocks_count → IsFirstFree m 0 (capacity page_size) q.next_free_page)
    → IsValid page_size q
mark-IsValid page_size p m i v managed free bits q eb em ec first = record {
  small = v.small;
  within = omega (arith, v.within);
  closed = λ k lo hi. rw eb (ground (arith, bits k, v.closed k (omega arith) hi));
  counted = rw (eb, ec) (omega (arith, v.counted, taken, small_count));
  first = λ h. rw eb (first h);
}
  where
    taken : count_free (capacity page_size) m + 1 ≡ count_free (capacity page_size) p.bits
    taken =
        count_free-take (capacity page_size) i p.bits m (omega (arith, v.within)) free
          (rw bits (ground arith)) (λ k ne. rw bits (ground arith))

    small_count : count_free (capacity page_size) p.bits < mod_32
    small_count = omega (arith, count_free-le (capacity page_size) p.bits, v.small)

-- With nothing free the search ends with 0.
pub get_next_free_page-none :
    (page_size : ℕ) (p : FsipPage)
    → count_free (capacity page_size) p.bits ≡ 0
    → get_next_free_page page_size p ≡ 0
unfolding get_next_free_page
get_next_free_page-none page_size p none_free = pick (
    scan_words-Finds ((page_size - fsip_header_size) / 4 - p.next_free_page / 32)
      (p.next_free_page / 32) p.bits)
  where
    pick :
        Finds p.bits
          (p.next_free_page / 32 * 32)
          ((p.next_free_page / 32 + ((page_size - fsip_header_size) / 4 - p.next_free_page / 32))
            * 32)
          (get_next_free_page page_size p)
        → get_next_free_page page_size p ≡ 0
    pick (inr (z, _)) = z
    pick (inl f) = absurd (
        omega (
          arith,
          none_free,
          f.from,
          f.below,
          count_free-pos (capacity page_size) (get_next_free_page page_size p) p.bits
              (omega (arith, f.from, f.below)) f.is_free,
        ))
