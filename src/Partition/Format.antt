-- ===== src/Partition/Format.antt =====
-- `PartitionBase::format`: the partition that it leaves.
use master_team_projekt.Prelude.{
  ℕ, ◌+◌, ◌-◌, ◌*◌, ◌/◌, ◌%◌, ◌≤◌, ◌<◌, ◌≡◌, ◌≢◌, ◌↔◌, refl, sym, ◌∙◌, ap, subst, true, ◌==◌,
  Bool-cases, inl, inr, ==→≡, arith,
}
use master_team_projekt.Interpreter.Fsip.{FsipPage}
use master_team_projekt.Interpreter.Fsip.Valid.{capacity}
use master_team_projekt.Partition.Monad.{Partition, bind, ◌>>◌, done}
use master_team_projekt.Partition.Base.{
  get_max_pages_per_fsip, open_file, close_file, format_from, format, page_offset,
}
use master_team_projekt.Partition.Pages.{page_at, with_page, read_page_open, write_page_open}
use master_team_projekt.Partition.Alloc.{IsFormatted, fsip_at}
use master_team_projekt.Partition.FreeSet.{IsFree, step_index}
use master_team_projekt.Partition.Layout.{IsSized, IsFresh, LaysOut, with_disk, format_from-LaysOut}

-- What `format` leaves behind once the partition is opened again: exactly the pages of the partition
-- that are not indicator pages are free.
pub record Formats (st st' : Partition) : Type 0 where
  pub formatted : IsFormatted st'
  pub same_size : (st'.page_size ≡ st.page_size) × (st'.size_in_pages ≡ st.size_in_pages)
  pub all_free :
      (n : ℕ)
      → IsFree st' n
        ↔ ((n < st.size_in_pages) × (n % (get_max_pages_per_fsip st.page_size + 1) ≢ 0))

div_mod :
    (most n : ℕ) → (n ≡ n / (most + 1) * (most + 1) + n % (most + 1)) × (n % (most + 1) ≤ most)
div_mod most n = grind arith

remainder : (most k i : ℕ) → i < most → (k * (most + 1) + 1 + i) % (most + 1) ≡ 1 + i
remainder most k i h = ground (
  arith,
  div_mod most n,
  step_index most (n / (most + 1)) k,
  step_index most k (n / (most + 1)),
  same_product,
)
  where
    n : ℕ
    n = k * (most + 1) + 1 + i

    same_product : n / (most + 1) ≡ k → n / (most + 1) * (most + 1) ≡ k * (most + 1)
    same_product e = ap (λ q. q * (most + 1)) e

IsFree-fresh :
    (st : Partition) (d : ℕ → FsipPage)
    → IsSized st
    → ((k : ℕ)
        → fsip_at st k < st.size_in_pages
        → IsFresh st k (page_at (with_disk st d) (fsip_at st k)))
    → (n : ℕ)
    → IsFree (with_disk st d) n
      ↔ ((n < st.size_in_pages) × (n % (get_max_pages_per_fsip st.page_size + 1) ≢ 0))
IsFree-fresh st d w fresh n = (inside, outside)
  where
    most' : ℕ
    most' = get_max_pages_per_fsip st.page_size

    nonzero : IsFree (with_disk st d) n → n % (get_max_pages_per_fsip st.page_size + 1) ≢ 0
    nonzero f e = omega (
      arith,
      e,
      f.number,
      remainder most' f.k f.i (omega (arith, f.inside, w.aligned, w.words)),
      ap (λ m. m % (most' + 1)) f.number,
    )

    inside :
        IsFree (with_disk st d) n
        → (n < st.size_in_pages) × (n % (get_max_pages_per_fsip st.page_size + 1) ≢ 0)
    inside f =
        let here : n < st.size_in_pages = ground (
          arith,
          (fresh f.k f.below).bits f.i f.inside,
          f.is_free,
          f.number,
          f.below,
          f.inside,
          w.aligned,
          w.words,
        ) in
        (here, nonzero f)

    below : n < st.size_in_pages → fsip_at st (n / (most' + 1)) < st.size_in_pages
    below h = omega (arith, div_mod most' n)

    small : n % (most' + 1) ≢ 0 → n % (most' + 1) - 1 < capacity st.page_size
    small h = omega (arith, div_mod most' n, w.aligned, w.words)

    outside :
        (n < st.size_in_pages) × (n % (get_max_pages_per_fsip st.page_size + 1) ≢ 0)
        → IsFree (with_disk st d) n
    outside h = record {
      k = n / (most' + 1);
      i = n % (most' + 1) - 1;
      below = below h.0;
      inside = small h.1;
      number = omega (arith, div_mod most' n, h.1);
      is_free =
          (fresh (n / (most' + 1)) (below h.0)).bits (n % (most' + 1) - 1) (small h.1)
          ∙ ground (arith, div_mod most' n, h);
    }

-- The partition opened by one call.
abbrev opened_once : Partition → Partition
opened_once st = record st { open_count = 1; file_open = true }

open_closed : (st : Partition) → st.open_count ≡ 0 → open_file true st ≡ done tt (opened_once st)
unfolding open_file
open_closed st closed = rw closed refl

close_opened :
    (st : Partition) (d : ℕ → FsipPage)
    → bind (close_file true (with_disk (opened_once st) d)) (λ _. open_file true)
      ≡ done tt (with_disk (opened_once st) d)
unfolding close_file open_file
close_opened st d = refl

-- Writing back a page that was read changes no page.
written_back : (st : Partition) (i j : ℕ) → page_at (with_page st i (page_at st i)) j ≡ page_at st j
written_back st i j = elim (Bool-cases (page_offset st j == page_offset st i)) [
  | inl same ↦ rw same (ap st.disk (sym (==→≡ _ _ same)))
  | inr other ↦ rw other refl
]

Formats-written_back :
    (st : Partition) (d : ℕ → FsipPage)
    → IsSized st
    → st.file_open ≡ true
    → ((k : ℕ)
        → fsip_at st k < st.size_in_pages
        → IsFresh st k (page_at (with_disk st d) (fsip_at st k)))
    → Formats st (with_page (with_disk st d) 0 (page_at (with_disk st d) 0))
Formats-written_back st d w opened fresh = record {
  formatted = record {
    opened = opened;
    aligned = w.aligned;
    words = w.words;
    reach = w.reach;
    room = w.room;
    fsip = λ k below. (fresh' k below).valid;
    place = λ k below. (fresh' k below).place;
  };
  same_size = (refl, refl);
  all_free = IsFree-fresh st last.disk w fresh';
}
  where
    last : Partition
    last = with_page (with_disk st d) 0 (page_at (with_disk st d) 0)

    fresh' : (k : ℕ) → fsip_at st k < st.size_in_pages → IsFresh st k (page_at last (fsip_at st k))
    fresh' k below =
        subst (IsFresh st k) (sym (written_back (with_disk st d) 0 (fsip_at st k))) (fresh k below)

opened-IsSized : (st : Partition) → IsSized st → IsSized (opened_once st)
opened-IsSized st w = record {
  aligned = w.aligned;
  words = w.words;
  reach = w.reach;
  room = w.room;
  behind_last = w.behind_last;
}

format_from_all :
    (st : Partition) (buffer : FsipPage)
    → IsSized st
    → st.file_open ≡ true
    → 0 < st.size_in_pages
    → LaysOut st (format_from (st.size_in_pages + 1) buffer 0 st.size_in_pages st)
format_from_all st buffer w opened some =
    subst (λ c. LaysOut st (format_from (st.size_in_pages + 1) buffer 0 c st)) (omega arith)
      (subst
        (λ c. LaysOut st (format_from (st.size_in_pages + 1) buffer c (st.size_in_pages - c) st))
        zeroth
        (format_from-LaysOut st opened w (st.size_in_pages + 1) 0 buffer st.disk (omega arith)
          (omega arith) (λ j less. absurd (omega arith))))
  where
    zeroth : fsip_at st 0 ≡ 0
    zeroth = omega arith

format_laid :
    (st : Partition) (buffer page : FsipPage) (d : ℕ → FsipPage)
    → st.open_count ≡ 0
    → format_from (st.size_in_pages + 1) buffer 0 st.size_in_pages (opened_once st)
      ≡ done page (with_disk (opened_once st) d)
    → (format true true buffer >> open_file true) st
      ≡ done tt
          (with_page (with_disk (opened_once st) d) 0 (page_at (with_disk (opened_once st) d) 0))
unfolding format
format_laid st buffer page d closed laid =
    rw (open_closed st closed, laid)
      (rw
        (
          read_page_open (with_disk (opened_once st) d) 0 refl,
          write_page_open (with_disk (opened_once st) d) 0
              (page_at (with_disk (opened_once st) d) 0) refl,
        )
        (close_opened st _))

-- On a closed partition of at most 4 GiB that is not empty, has a page behind its last indicator page and numbers
-- of pages that fit into 32 bits with one indicator page to spare, and whose page size is a multiple of 4 and
-- at least 36, formatting and opening it again ends normally in a formatted partition of the same size in which exactly the pages that are not
-- indicator pages are free, if the calls of the system succeed.
pub format-Formats :
    (st : Partition) (buffer : FsipPage)
    → IsSized st
    → st.open_count ≡ 0
    → 0 < st.size_in_pages
    → (st' : Partition) × ((format true true buffer >> open_file true) st ≡ done tt st')
      × Formats st st'
format-Formats st buffer w closed some =
    let out = format_from_all (opened_once st) buffer (opened-IsSized st w) refl some in
    let f = Formats-written_back (opened_once st) out.disk (opened-IsSized st w) refl out.fresh in
    (
      _,
      format_laid st buffer out.buffer out.disk closed out.returns,
      record { formatted = f.formatted; same_size = f.same_size; all_free = f.all_free },
    )
