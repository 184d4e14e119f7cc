-- ===== src/Interpreter/Fsip/Grow.antt =====
-- `grow` of interpreter_fsip.cc.
use master_team_projekt.Prelude.{
  ℕ, zero, suc, ◌+◌, ◌-◌, ◌*◌, ◌/◌, ◌%◌, ◌≤◌, ◌<◌, ◌≡◌, refl, ◌∙◌, inl, inr, true, false, ◌&&◌, ltb,
  leb, ◌==◌, if◌then◌else◌, Bool-cases, min, arith,
}
use master_team_projekt.Prelude.Word.{mod_32, sub_32}
use master_team_projekt.Prelude.Bits.{Bits, ones, shift_left, bit_not, write_word}
use master_team_projekt.Interpreter.Fsip.Bitmap.{count_free, count_free-pos}
use master_team_projekt.Interpreter.Fsip.Valid.{IsValid, capacity}
use master_team_projekt.Interpreter.Fsip.{FsipPage, grow, grow_bits, clear_from}
use master_team_projekt.Interpreter.Fsip.Words.{clear_bytes-at}

clear_from-at :
    (start remaining : ℕ) (m : Bits) (k : ℕ)
    → clear_from start remaining m k
      ≡ (if leb (start * 8) k && ltb k (start * 8 + remaining) then false else m k)
unfolding clear_from
clear_from-at start remaining m k = ground (
  arith,
  clear_bytes-at (remaining / 8) start m k,
  clear_bytes-at (remaining / 8) start m ((remaining / 8 + start) * 8 + k % 8),
)

-- The bits from `managed` on become free, `remaining` of them, if those before are all in use and the
-- new ones reach the next byte.
grow_bits-at :
    (managed remaining : ℕ) (m : Bits) (k : ℕ)
    → ((i : ℕ) → i < managed → m i ≡ true)
    → 8 ≤ managed % 8 + remaining
    → remaining < mod_32
    → grow_bits managed remaining m k
      ≡ (if leb managed k && ltb k (managed + remaining) then false else m k)
unfolding grow_bits
grow_bits-at managed remaining m k used enough small = ground (
  arith,
  used k,
  clear_from-at (managed / 8) remaining m k,
  clear_from-at (managed / 8 + 1) (sub_32 remaining (8 - managed % 8))
      (write_word 8 m (managed / 8) (bit_not (shift_left ones (managed % 8)))) k,
)

-- What `grow` promises for `n` more pages: as many as there is room for become free, no other bit of
-- the data area changes, and the rest of the number is returned for the next indicator page.
pub record Grows (page_size : ℕ) (p : FsipPage) (n : ℕ) (r : ℕ × FsipPage) : Type 0 where
  pub added : ℕ
  pub added_lem : added ≡ min n (capacity page_size - p.managed_pages)
  pub left : r.0 + added ≡ n
  pub managed : (r.1).managed_pages ≡ p.managed_pages + added
  pub count : (r.1).free_blocks_count ≡ added
  pub bits :
      (k : ℕ)
      → k < capacity page_size
      → (r.1).bits k
        ≡ (if leb p.managed_pages k && ltb k (p.managed_pages + added) then false else p.bits k)
  pub same_header : (r.1).basic_header ≡ p.basic_header
  pub valid : IsValid page_size r.1

-- The number of free bits, when the free ones are those from `lo` to `hi - 1`.
count_free-between :
    (n lo hi : ℕ) (m : Bits)
    → ((k : ℕ) → k < n → m k ≡ (if leb lo k && ltb k hi then false else true))
    → count_free n m ≡ min n hi - min n lo
count_free-between zero lo hi m h = omega arith
count_free-between (suc n) lo hi m h =
    ground (arith, h n (omega arith), count_free-between n lo hi m (λ k p. h k (omega arith)))

full_used :
    (page_size : ℕ) (p : FsipPage)
    → IsValid page_size p
    → p.free_blocks_count ≡ 0
    → (k : ℕ) → k < capacity page_size
    → p.bits k ≡ true
full_used page_size p v full k h = elim (Bool-cases (p.bits k)) [
  | inl e ↦ e
  | inr e ↦
      absurd (omega (arith, full, v.counted, count_free-pos (capacity page_size) k p.bits h e))
]

-- The page that `grow` leaves when there is room: `added` pages are new.
grown-IsValid :
    (page_size added : ℕ) (p q : FsipPage)
    → IsValid page_size p
    → p.free_blocks_count ≡ 0
    → p.managed_pages + added ≤ capacity page_size
    → q.managed_pages ≡ p.managed_pages + added
    → q.free_blocks_count ≡ added
    → q.next_free_page ≡ p.managed_pages
    → ((k : ℕ)
        → k < capacity page_size
        → q.bits k
          ≡ (if leb p.managed_pages k && ltb k (p.managed_pages + added) then false else p.bits k))
    → IsValid page_size q
grown-IsValid page_size added p q v full fits managed count next bits = record {
  small = v.small;
  within = omega (arith, managed, fits);
  closed = λ i lo hi. bits i hi ∙ ground (arith, v.closed i);
  counted = omega (
    arith,
    count,
    count_free-between (capacity page_size) p.managed_pages (p.managed_pages + added) q.bits
        (λ k h. bits k h ∙ ground (arith, full_used page_size p v full k h)),
  );
  first = λ some. record {
    from = omega arith;
    below = omega (arith, next, some, count);
    is_free = bits q.next_free_page (omega (arith, next, some, count)) ∙ ground arith;
    least = λ i lo hi.
        bits i (omega (arith, next, v.within))
        ∙ ground (arith, full_used page_size p v full i (omega (arith, next, v.within)));
  };
}

grown-Grows :
    (page_size n left added : ℕ) (p q : FsipPage)
    → IsValid page_size p
    → p.free_blocks_count ≡ 0
    → added ≡ min n (capacity page_size - p.managed_pages)
    → left + added ≡ n
    → 8 ≤ p.managed_pages % 8 + added
    → q.managed_pages ≡ p.managed_pages + added
    → q.free_blocks_count ≡ added
    → q.next_free_page ≡ p.managed_pages
    → q.bits ≡ grow_bits p.managed_pages added p.bits
    → q.basic_header ≡ p.basic_header
    → Grows page_size p n (left, q)
grown-Grows page_size n left added p q v full ea el enough em ec en eb eh = record {
  added = added;
  added_lem = ea;
  left = el;
  managed = em;
  count = ec;
  bits = bits;
  same_header = eh;
  valid = grown-IsValid page_size added p q v full (omega (arith, v.within)) em ec en bits;
}
  where
    bits :
        (k : ℕ)
        → k < capacity page_size
        → q.bits k
          ≡ (if leb p.managed_pages k && ltb k (p.managed_pages + added) then false else p.bits k)
    bits k h = rw eb (
        grow_bits-at p.managed_pages added p.bits k
          (λ i hi. full_used page_size p v full i (omega (arith, hi, v.within))) enough
          (omega (arith, v.small)))

-- On a valid page with no free page left, growing by at least eight pages makes as many pages free
-- as there is room for, changes no other bit, leaves a valid page and returns how many pages remain
-- for the next indicator page.
pub grow-Grows :
    (page_size n : ℕ) (p : FsipPage)
    → IsValid page_size p
    → p.free_blocks_count ≡ 0
    → 8 ≤ n
    → n < mod_32
    → Grows page_size p n (grow p n (capacity page_size))
unfolding grow
grow-Grows page_size n p v full enough small = elim (Bool-cases (room == 0)) [
  | inl e ↦ rw e (record {
    added = 0;
    added_lem = ground (arith, room_lem);
    left = omega arith;
    managed = omega arith;
    count = full;
    bits = λ k h. ground arith;
    same_header = refl;
    valid = v;
  })
  | inr e ↦ elim (Bool-cases (leb n room)) [
    | inl f ↦
        rw (e, f)
          (grown-Grows page_size n 0 n p _ v full (ground (arith, room_lem)) (omega arith)
            (omega arith) (ground (arith, room_lem, v.small, v.within)) (omega arith) refl refl
            refl)
    | inr f ↦
        rw (e, f)
          (grown-Grows page_size n (n - room) room p _ v full (ground (arith, room_lem))
            (ground arith) (ground (arith, room_lem)) (omega (arith, room_lem, v.within))
            (omega (arith, room_lem, v.small)) refl refl refl)
  ]
]
  where
    room : ℕ
    room = sub_32 (capacity page_size) p.managed_pages

    room_lem : room ≡ capacity page_size - p.managed_pages
    room_lem = omega (arith, v.small, v.within)
