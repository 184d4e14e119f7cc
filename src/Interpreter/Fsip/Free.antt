-- ===== src/Interpreter/Fsip/Free.antt =====
-- `freePage` of interpreter_fsip.cc, alone and together with `getNewPage`.
use master_team_projekt.Prelude.{
  ℕ, ◌+◌, ◌≤◌, ◌<◌, ◌≡◌, refl, ap, subst, ◌⊎◌, inl, inr, true, false, ltb, ◌==◌, if◌then◌else◌,
  Bool-cases, ltb→lt, arith,
}
use master_team_projekt.Prelude.Word.{mod_32, add_32}
use master_team_projekt.Infra.Headers.{BasicHeader}
use master_team_projekt.Interpreter.Fsip.{
  FsipPage, get_new_page, take_page, set_bit_8, free_page, bit_index, clear_bit_32,
}
use master_team_projekt.Interpreter.Fsip.Words.{clear_bit_32-at}
use master_team_projekt.Interpreter.Fsip.Bitmap.{
  IsFirstFree, count_free, count_free-take, count_free-pos,
}
use master_team_projekt.Interpreter.Fsip.Valid.{
  IsValid, capacity, count_free-le, get_next_free_page-none,
}
use master_team_projekt.Interpreter.Fsip.Alloc.{Takes, get_new_page-Takes, bit_index_lem}

-- What `freePage` promises for page `i` behind the indicator page.
pub record Frees (page_size : ℕ) (p : FsipPage) (i : ℕ) (q : FsipPage) : Type 0 where
  pub bits : (k : ℕ) → q.bits k ≡ (if k == i then false else p.bits k)
  pub more : q.free_blocks_count ≡ p.free_blocks_count + 1
  pub same_header : (q.managed_pages ≡ p.managed_pages) × (q.basic_header ≡ p.basic_header)
  pub valid : IsValid page_size q

count_free-freed :
    (page_size : ℕ) (p : FsipPage) (i : ℕ)
    → IsValid page_size p
    → i < p.managed_pages
    → p.bits i ≡ true
    → count_free (capacity page_size) (clear_bit_32 p.bits i) ≡ p.free_blocks_count + 1
count_free-freed page_size p i v managed used = omega (
  arith,
  v.counted,
  count_free-take (capacity page_size) i (clear_bit_32 p.bits i) p.bits (omega (arith, v.within))
      (rw (clear_bit_32-at p.bits i) (ground arith)) used
      (λ k ne. rw (clear_bit_32-at p.bits i) (ground arith)),
)

-- In a valid page whatever lies before the next free page is in use, even when no page is free.
pub used_below :
    (page_size : ℕ) (p : FsipPage)
    → IsValid page_size p
    → (k : ℕ) → k < p.next_free_page
    → k < capacity page_size
    → p.bits k ≡ true
used_below page_size p v k before inside = elim (Bool-cases (p.bits k)) [
  | inl e ↦ e
  | inr e ↦
      let some = count_free-pos (capacity page_size) k p.bits inside e in
      (v.first (omega (arith, some, v.counted))).least k (omega arith) before
]

freed_first :
    (page_size : ℕ) (p : FsipPage) (i : ℕ)
    → IsValid page_size p
    → i < capacity page_size
    → p.bits i ≡ true
    → (0 < p.free_blocks_count) ⊎ (i ≤ p.next_free_page)
    → IsFirstFree
        (clear_bit_32 p.bits i)
        0
        (capacity page_size)
        (if ltb i p.next_free_page then i else p.next_free_page)
freed_first page_size p i v inside used ready = elim (Bool-cases (ltb i p.next_free_page)) [
  | inl e ↦ rw e (record {
    from = omega arith;
    below = inside;
    is_free = rw (clear_bit_32-at p.bits i i) (ground arith);
    least = λ k lo hi.
        rw (clear_bit_32-at p.bits i k)
          (ground (arith, used_below page_size p v k, ltb→lt i p.next_free_page e));
  })
  | inr e ↦ rw e (record {
    from = omega arith;
    below = elim ready [ inl some ↦ (v.first some).below | inr near ↦ ground arith ];
    is_free = rw (clear_bit_32-at p.bits i p.next_free_page) (elim ready [
      | inl some ↦ ground (arith, (v.first some).is_free)
      | inr near ↦ ground arith
    ]);
    least = λ k lo hi. rw (clear_bit_32-at p.bits i k) (ground (arith, used_below page_size p v k));
  })
]

-- Freeing a used page that a valid indicator page manages clears its bit and no other, counts it,
-- and leaves a valid page, if some other page is free or the next free page does not lie before it.
pub free_page-Frees :
    (page_size : ℕ) (p : FsipPage) (i : ℕ)
    → IsValid page_size p
    → i < p.managed_pages
    → p.bits i ≡ true
    → p.basic_header.page_index + 1 + i < mod_32
    → (0 < p.free_blocks_count) ⊎ (i ≤ p.next_free_page)
    → Frees page_size p i (free_page p (p.basic_header.page_index + 1 + i))
unfolding free_page
free_page-Frees page_size p i v managed used small ready = rw (bit_index_lem p i small) (record {
  bits = clear_bit_32-at p.bits i;
  more = count;
  same_header = (refl, refl);
  valid = record {
    small = v.small;
    within = v.within;
    closed = λ k lo hi. rw (clear_bit_32-at p.bits i k) (ground (arith, v.closed k lo hi));
    counted = omega (arith, count, count_free-freed page_size p i v managed used);
    first = λ h. freed_first page_size p i v (omega (arith, managed, v.within)) used ready;
  };
})
  where
    count : add_32 p.free_blocks_count 1 ≡ p.free_blocks_count + 1
    count = omega (
      arith,
      count_free-freed page_size p i v managed used,
      count_free-le (capacity page_size) (clear_bit_32 p.bits i),
      v.small,
    )

-- Handing out the last free page sets the next free page to 0.
get_new_page-last :
    (page_size : ℕ) (p : FsipPage)
    → p.free_blocks_count ≡ 1
    → count_free (capacity page_size) (get_new_page page_size p).1.bits ≡ 0
    → (get_new_page page_size p).1.next_free_page ≡ 0
unfolding get_new_page take_page
get_new_page-last page_size p one none_free =
    let e : (p.free_blocks_count == 0) ≡ false = ground arith in
    rw e (
      get_next_free_page-none page_size (record p { bits = set_bit_8 p.bits p.next_free_page })
        (rw e at none_free))

-- On a full page whose next free page is 0, a freed page other than the first is not found again.
reissue :
    (page_size : ℕ) (q : FsipPage) (i : ℕ)
    → q.free_blocks_count ≡ 0
    → q.next_free_page ≡ 0
    → q.bits 0 ≡ true
    → 0 < i
    → q.basic_header.page_index + 1 + i < mod_32
    → let freed = free_page q (q.basic_header.page_index + 1 + i) in
      (freed.bits 0 ≡ true) × ((get_new_page page_size freed).0 ≡ q.basic_header.page_index + 1)
unfolding free_page get_new_page
reissue page_size q i none_free next used pos small =
    rw (bit_index_lem q i small)
      (rw (clear_bit_32-at q.bits i 0) (ground arith), rw (none_free, next) (ground arith))

-- A full page forgets where a freed page lies: when the last free page is handed out,
-- `_nextFreePage` becomes 0 and `freePage` only ever lowers it. So after one more `freePage`, of any
-- page but the first, `getNewPage` hands out the first page behind the indicator page although it
-- is in use and was not freed.
pub get_new_page-reissues :
    (page_size : ℕ) (p : FsipPage) (i : ℕ)
    → IsValid page_size p
    → p.free_blocks_count ≡ 1
    → 0 < i
    → i < p.managed_pages
    → p.basic_header.page_index + 1 + i < mod_32
    → let full = (get_new_page page_size p).1 in
      let freed = free_page full (p.basic_header.page_index + 1 + i) in
      (freed.bits 0 ≡ true) × ((get_new_page page_size freed).0 ≡ p.basic_header.page_index + 1)
unfolding take_page
get_new_page-reissues page_size p i v one pos managed small =
    subst
      (λ b.
        let freed = free_page full (b.page_index + 1 + i) in
        (freed.bits 0 ≡ true) × ((get_new_page page_size freed).0 ≡ b.page_index + 1))
      taken.same_header.1
      (reissue page_size full i none_free next (all_used 0 (omega arith)) pos
        (rw taken.same_header.1 small))
  where
    full : FsipPage
    full = (get_new_page page_size p).1

    taken : Takes page_size p (get_new_page page_size p)
    taken = get_new_page-Takes page_size p v (omega arith)

    none_free : full.free_blocks_count ≡ 0
    none_free = omega (arith, taken.fewer)

    all_used : (k : ℕ) → k < p.managed_pages → full.bits k ≡ true
    all_used k h = elim (Bool-cases (full.bits k)) [
      | inl e ↦ e
      | inr e ↦ absurd (
          omega (
            arith,
            none_free,
            taken.valid.counted,
            count_free-pos (capacity page_size) k full.bits (omega (arith, h, v.within)) e,
          ))
    ]

    next : full.next_free_page ≡ 0
    next = get_new_page-last page_size p one (omega (arith, none_free, taken.valid.counted))

-- Freeing the page that `getNewPage` has just handed out restores every bit, the counter and the next
-- free page, if it was not the last free page.
pub free_page-get_new_page :
    (page_size : ℕ) (p : FsipPage)
    → IsValid page_size p
    → 1 < p.free_blocks_count
    → p.basic_header.page_index + 1 + p.next_free_page < mod_32
    → let r = get_new_page page_size p in
      let q = free_page r.1 r.0 in
      ((k : ℕ) → q.bits k ≡ p.bits k)
      × (q.free_blocks_count ≡ p.free_blocks_count)
      × (q.next_free_page ≡ p.next_free_page)
unfolding free_page
free_page-get_new_page page_size p v h small =
    rw (number, index) (λ k. bits k, omega (arith, taken.fewer, v.counted, bound), next)
  where
    r : ℕ × FsipPage
    r = get_new_page page_size p

    taken : Takes page_size p r
    taken = get_new_page-Takes page_size p v (omega arith)

    number : r.0 ≡ p.basic_header.page_index + 1 + p.next_free_page
    number = omega (arith, taken.number)

    index : bit_index r.1 (p.basic_header.page_index + 1 + p.next_free_page) ≡ p.next_free_page
    index = omega (arith, small, ap (λ (b : BasicHeader). b.page_index) taken.same_header.1)

    bound : p.free_blocks_count < mod_32
    bound = omega (arith, v.counted, v.small, count_free-le (capacity page_size) p.bits)

    bits : (k : ℕ) → clear_bit_32 (r.1).bits p.next_free_page k ≡ p.bits k
    bits k =
        rw (clear_bit_32-at (r.1).bits p.next_free_page k)
          (ground (arith, taken.bits k, taken.was_free.is_free))

    next :
        (if ltb p.next_free_page (r.1).next_free_page
          then p.next_free_page
          else (r.1).next_free_page)
        ≡ p.next_free_page
    next =
        let later = taken.valid.first (omega (arith, taken.fewer)) in
        ground (
          arith,
          taken.bits (r.1).next_free_page,
          taken.was_free.least (r.1).next_free_page,
          later.is_free,
        )
