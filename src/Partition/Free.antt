-- ===== src/Partition/Free.antt =====
-- `PartitionBase::freePage`: right behind the first indicator page, wrong behind every other.
use master_team_projekt.Prelude.{
  ℕ, ◌+◌, ◌*◌, ◌/◌, ◌≤◌, ◌<◌, ◌≡◌, ◌≢◌, sym, ◌∙◌, ap, subst, true, ◌⊎◌, arith,
}
use master_team_projekt.Infra.Headers.{BasicHeader}
use master_team_projekt.Interpreter.Fsip.{FsipPage, free_page}
use master_team_projekt.Interpreter.Fsip.Valid.{IsValid}
use master_team_projekt.Interpreter.Fsip.Free.{Frees, free_page-Frees}
use master_team_projekt.Partition.Monad.{Partition, Result, done}
use master_team_projekt.Partition.Base.{get_max_pages_per_fsip, free_page_of, fsip_index}
use master_team_projekt.Partition.Pages.{
  page_at, with_page, page_at-with_page, read_page_open, write_page_open,
}
use master_team_projekt.Partition.Alloc.{IsFormatted, fsip_at, offset_below}
use master_team_projekt.Partition.FreeSet.{IsFormatted-rewritten, page_at-rewritten}

-- `freePage` on an open file, with the index that it computes.
free_page_of_open :
    (st : Partition) (n : ℕ)
    → st.file_open ≡ true
    → let index = fsip_index st.page_size n in
      free_page_of n st ≡ done tt (with_page st index (free_page (page_at st index) n))
unfolding free_page_of
free_page_of_open st n h =
    rw (read_page_open st (fsip_index st.page_size n) h)
      (write_page_open st (fsip_index st.page_size n) _ h)

fsip_index_first :
    (page_size n : ℕ) → n ≤ get_max_pages_per_fsip page_size → fsip_index page_size n ≡ 0
unfolding fsip_index
fsip_index_first page_size n h = rw (quotient (get_max_pages_per_fsip page_size) h) (omega arith)
  where
    quotient : (most : ℕ) → n ≤ most → n / (most + 1) ≡ 0
    quotient most h = grind arith

-- What it means that the `i`-th page behind the first indicator page was freed.
pub record Returns (st : Partition) (i : ℕ) (r : Result (Unit {0})) : Type 0 where
  pub st' : Partition
  pub returns : r ≡ done tt st'
  pub formatted : IsFormatted st'
  pub first : Frees st.page_size (page_at st 0) i (page_at st' 0)
  pub others :
      (k : ℕ)
      → 0 < k
      → fsip_at st k < st.size_in_pages
      → page_at st' (fsip_at st k) ≡ page_at st (fsip_at st k)

-- Freeing a used page behind the first indicator page of a formatted partition clears its bit there,
-- changes no other indicator page, and leaves a formatted partition, if the first indicator page has
-- another free page or its next free page does not lie before the freed one.
pub free_page_of-Returns :
    (st : Partition) (i : ℕ)
    → IsFormatted st
    → 0 < st.size_in_pages
    → i < (page_at st 0).managed_pages
    → (page_at st 0).bits i ≡ true
    → (0 < (page_at st 0).free_blocks_count) ⊎ (i ≤ (page_at st 0).next_free_page)
    → Returns st i (free_page_of (1 + i) st)
free_page_of-Returns st i w some managed used ready = record {
  st' = with_page st 0 freed;
  returns =
      free_page_of_open st (1 + i) w.opened
      ∙ ap (λ j. done tt (with_page st j (free_page (page_at st j) (1 + i)))) index;
  formatted =
      subst (λ j. IsFormatted (with_page st j freed)) zeroth
        (IsFormatted-rewritten st w 0 (omega arith) freed frees.valid
          (ap (λ (b : BasicHeader). b.page_index) frees.same_header.1 ∙ place ∙ omega arith));
  first = subst (Frees st.page_size (page_at st 0) i) (ground arith) frees;
  others = λ k pos below.
      subst (λ j. page_at (with_page st j freed) (fsip_at st k) ≡ page_at st (fsip_at st k)) zeroth
        (rw (page_at-rewritten st w 0 (omega arith) freed k below) (ground arith));
}
  where
    zeroth : fsip_at st 0 ≡ 0
    zeroth = omega arith

    freed : FsipPage
    freed = free_page (page_at st 0) (1 + i)

    valid : IsValid st.page_size (page_at st 0)
    valid = subst (λ j. IsValid st.page_size (page_at st j)) (omega arith) (w.fsip 0 (omega arith))

    place : (page_at st 0).basic_header.page_index ≡ 0
    place =
        subst (λ j. (page_at st j).basic_header.page_index ≡ j) (omega arith)
          (w.place 0 (omega arith))

    index : fsip_index st.page_size (1 + i) ≡ 0
    index =
        fsip_index_first st.page_size (1 + i)
          (omega (arith, managed, valid.within, w.aligned, w.words))

    frees : Frees st.page_size (page_at st 0) i freed
    frees =
        subst (λ j. Frees st.page_size (page_at st 0) i (free_page (page_at st 0) (j + 1 + i)))
          place
          (free_page-Frees st.page_size (page_at st 0) i valid managed used
            (omega (arith, place, managed, valid.within, w.aligned, w.words, w.room)) ready)

-- The index that is computed behind a later indicator page is not the index of an indicator page.
fsip_index_astray : (most q k : ℕ) → 0 < q → q ≤ most → q * most ≢ k * (most + 1)
fsip_index_astray most q k pos le e = ground (arith, under, over)
  where
    under : q ≤ k → q * most + q ≤ k * (most + 1)
    under h = grind arith

    over : k < q → k * (most + 1) + (most + 1) ≤ q * most + q
    over h = grind arith

quotient_bounds : (most n : ℕ) → most < n → 0 < n / (most + 1)
quotient_bounds most n h = grind arith

fsip_index_le : (most n : ℕ) → n / (most + 1) * most ≤ n
fsip_index_le most n = grind arith

-- Behind every later indicator page, as long as the number of that indicator page is not above the
-- number of pages that one manages, `freePage` returns normally and changes no indicator page at all: the
-- page stays in use, and the page that was written instead is not an indicator page.
pub free_page_of-misses :
    (st : Partition) (n : ℕ)
    → IsFormatted st
    → get_max_pages_per_fsip st.page_size < n
    → n < st.size_in_pages
    → n / (get_max_pages_per_fsip st.page_size + 1) ≤ get_max_pages_per_fsip st.page_size
    → let index = fsip_index st.page_size n in
      let st' = with_page st index (free_page (page_at st index) n) in
      (free_page_of n st ≡ done tt st')
      × ((k : ℕ) → fsip_at st k ≢ index)
      × ((k : ℕ)
          → fsip_at st k < st.size_in_pages
          → page_at st' (fsip_at st k) ≡ page_at st (fsip_at st k))
unfolding fsip_index
free_page_of-misses st n w behind inside near = (
  free_page_of_open st n w.opened,
  astray,
  λ k below.
      page_at-with_page st (fsip_index st.page_size n) (fsip_at st k) _ (omega (arith, w.words))
        (offset_below st.page_size _ st.size_in_pages (omega (arith, w.words)) index_below w.reach)
        (offset_below st.page_size _ st.size_in_pages (omega (arith, w.words)) below w.reach)
      ∙ (let e = astray k in ground (arith, e)),
)
  where
    astray : (k : ℕ) → fsip_at st k ≢ fsip_index st.page_size n
    astray k e =
        fsip_index_astray (get_max_pages_per_fsip st.page_size) _ k
          (quotient_bounds (get_max_pages_per_fsip st.page_size) n behind) near (sym e)

    index_below : fsip_index st.page_size n < st.size_in_pages
    index_below = omega (arith, fsip_index_le (get_max_pages_per_fsip st.page_size) n)
