-- ===== src/Partition/Layout.antt =====
-- `PartitionBase::format`: its loop, which lays out the indicator pages.
use master_team_projekt.Prelude.{
  ℕ, zero, suc, ◌+◌, ◌-◌, ◌*◌, ◌%◌, ◌≤◌, ◌<◌, ◌≡◌, ◌≢◌, refl, sym, ◌∙◌, ap, subst, true, false, ltb,
  leb, ◌==◌, if◌then◌else◌, Bool-cases, inl, inr, ==→≡, arith,
}
use master_team_projekt.Prelude.Word.{mod_32, add_32}
use master_team_projekt.Interpreter.Fsip.{FsipPage, init_new_fsip}
use master_team_projekt.Interpreter.Fsip.Valid.{IsValid, capacity}
use master_team_projekt.Interpreter.Fsip.Init.{init_new_fsip-IsValid}
use master_team_projekt.Partition.Monad.{Partition, Result, bind, done}
use master_team_projekt.Partition.Base.{get_max_pages_per_fsip, format_from}
use master_team_projekt.Partition.Pages.{page_at, with_page, page_at-with_page, write_page_open}
use master_team_projekt.Partition.Alloc.{fsip_at, offset_below}
use master_team_projekt.Partition.FreeSet.{same_index}

-- The geometry of a partition that `format` can lay out completely: 32-bit words, offsets and page numbers
-- fit, and there is a page behind the last indicator page.
pub record IsSized (st : Partition) : Type 0 where
  pub aligned : st.page_size % 4 ≡ 0
  pub words : 36 ≤ st.page_size
  pub reach : st.size_in_pages * st.page_size ≤ mod_32
  pub room : st.size_in_pages + get_max_pages_per_fsip st.page_size + 1 < mod_32
  pub behind_last : st.size_in_pages % (get_max_pages_per_fsip st.page_size + 1) ≢ 1

-- The pages that an indicator page manages when `here` pages are left behind it.
abbrev pub managed_of : ℕ → ℕ → ℕ
managed_of most here = if ltb most here then most else here

-- A fresh indicator page with number `k`.
pub record IsFresh (st : Partition) (k : ℕ) (p : FsipPage) : Type 0 where
  pub valid : IsValid st.page_size p
  pub place : p.basic_header.page_index ≡ fsip_at st k
  pub bits :
      (i : ℕ)
      → i < capacity st.page_size
      → p.bits i
        ≡ leb
            (managed_of (get_max_pages_per_fsip st.page_size) (st.size_in_pages - fsip_at st k - 1))
            i

-- The partition with another content.
abbrev pub with_disk : Partition → (ℕ → FsipPage) → Partition
with_disk st d = record st { disk = d }

pub record LaysOut (st : Partition) (r : Result FsipPage) : Type 0 where
  pub buffer : FsipPage
  pub disk : ℕ → FsipPage
  pub returns : r ≡ done buffer (with_disk st disk)
  pub fresh :
      (k : ℕ)
      → fsip_at st k < st.size_in_pages
      → IsFresh st k (page_at (with_disk st disk) (fsip_at st k))

index_le : (most j k : ℕ) → j ≤ k → j * (most + 1) ≤ k * (most + 1)
index_le most j k le = grind arith

index_ge : (most k : ℕ) → k ≤ k * (most + 1)
index_ge most k = grind arith

only_fsip : (most k size : ℕ) → 0 < most → size ≡ k * (most + 1) + 1 → size % (most + 1) ≡ 1
only_fsip most k size pos e = grind arith

module _ (st : Partition) (opened : st.file_open ≡ true) (w : IsSized st) where
  abbrev most : ℕ
  most = get_max_pages_per_fsip st.page_size

  abbrev fresh_page : FsipPage → ℕ → FsipPage
  fresh_page buffer k =
      init_new_fsip st.page_size buffer 0 (fsip_at st k) st.partition_id
        (managed_of most (st.size_in_pages - fsip_at st k - 1))

  format_from-step :
      (fuel k : ℕ) (buffer : FsipPage) (d : ℕ → FsipPage)
      → fsip_at st k + 1 < st.size_in_pages
      → format_from
          (suc fuel)
          buffer
          (fsip_at st k)
          (st.size_in_pages - fsip_at st k)
          (with_disk st d)
        ≡ format_from fuel
            (fresh_page buffer k)
            (fsip_at st (k + 1))
            (st.size_in_pages - fsip_at st (k + 1))
            (with_page (with_disk st d) (fsip_at st k) (fresh_page buffer k))
  unfolding format_from
  format_from-step fuel k buffer d more = rw test (
      ap (λ r. bind r (λ _. format_from fuel page (add_32 (fsip_at st k) (most + 1)) left))
        (write_page_open (with_disk st d) (fsip_at st k) page opened)
      ∙ ap (λ n. format_from fuel page n left (with_page (with_disk st d) (fsip_at st k) page)) next
      ∙ ap
          (λ n.
            format_from fuel page (fsip_at st (k + 1)) n
              (with_page (with_disk st d) (fsip_at st k) page))
          (ground arith))
    where
      page : FsipPage
      page = fresh_page buffer k

      left : ℕ
      left =
          st.size_in_pages
          - fsip_at st k
          - 1
          - managed_of most (st.size_in_pages - fsip_at st k - 1)

      test : ltb 1 (st.size_in_pages - fsip_at st k) ≡ true
      test = ground arith

      next : add_32 (fsip_at st k) (most + 1) ≡ fsip_at st (k + 1)
      next = omega (arith, w.room)

  fresh_page-IsFresh :
      (k : ℕ) (buffer : FsipPage) (d : ℕ → FsipPage)
      → fsip_at st k < st.size_in_pages
      → (j : ℕ) → j ≤ k
      → (j < k → IsFresh st j (page_at (with_disk st d) (fsip_at st j)))
      → IsFresh st j
          (page_at (with_page (with_disk st d) (fsip_at st k) (fresh_page buffer k)) (fsip_at st j))
  fresh_page-IsFresh k buffer d below j le before =
      subst (IsFresh st j) (sym seen) (elim (Bool-cases (fsip_at st j == fsip_at st k)) [
        | inl same ↦ rw same (subst (λ i. IsFresh st i page) (sym (number same)) new)
        | inr other ↦
            rw other (before (let e = sym (same_index most j k) ∙ other in ground (arith, e)))
      ])
    where
      page : FsipPage
      page = fresh_page buffer k

      number : (fsip_at st j == fsip_at st k) ≡ true → j ≡ k
      number e = ==→≡ j k (sym (same_index most j k) ∙ e)

      reach : (i : ℕ) → fsip_at st i < st.size_in_pages → fsip_at st i * st.page_size < mod_32
      reach i h =
          offset_below st.page_size (fsip_at st i) st.size_in_pages (omega (arith, w.words)) h
            w.reach

      seen :
          page_at (with_page (with_disk st d) (fsip_at st k) page) (fsip_at st j)
          ≡ (if fsip_at st j == fsip_at st k then page else page_at (with_disk st d) (fsip_at st j))
      seen =
          page_at-with_page (with_disk st d) (fsip_at st k) (fsip_at st j) page
            (omega (arith, w.words)) (reach k below)
            (reach j (omega (arith, index_le most j k le, below)))

      here : ℕ
      here = managed_of most (st.size_in_pages - fsip_at st k - 1)

      made :
          IsValid st.page_size page
          × (page.free_blocks_count ≡ here)
          × (page.managed_pages ≡ here)
          × (page.basic_header.page_index ≡ fsip_at st k)
          × ((i : ℕ) → i < capacity st.page_size → page.bits i ≡ leb here i)
      made =
          init_new_fsip-IsValid st.page_size buffer 0 (fsip_at st k) st.partition_id here
            (ground (arith, w.aligned, w.words)) (omega (arith, w.room))

      new : IsFresh st k page
      new = record { valid = made.0; place = made.3; bits = made.4 }

  pub format_from-LaysOut :
      (fuel k : ℕ) (buffer : FsipPage) (d : ℕ → FsipPage)
      → k ≤ st.size_in_pages
      → st.size_in_pages < k + fuel
      → ((j : ℕ) → j < k → IsFresh st j (page_at (with_disk st d) (fsip_at st j)))
      → LaysOut st (
          format_from fuel buffer (fsip_at st k) (st.size_in_pages - fsip_at st k) (with_disk st d))
  unfolding format_from
  format_from-LaysOut zero k buffer d le enough before = absurd (omega arith)
  format_from-LaysOut (suc fuel) k buffer d le enough before =
      elim (Bool-cases (ltb 1 (st.size_in_pages - fsip_at st k))) [
        | inr last ↦ rw last (record {
          buffer = buffer;
          disk = d;
          returns = refl;
          fresh = λ j below. before j (all_laid j last below);
        })
        | inl more ↦ subst (LaysOut st) (sym (format_from-step fuel k buffer d (more_pages more))) (
            format_from-LaysOut fuel (k + 1) (fresh_page buffer k)
              (with_page (with_disk st d) (fsip_at st k) (fresh_page buffer k)).disk
              (omega (arith, index_ge most k, more_pages more)) (omega arith)
              (λ j less.
                fresh_page-IsFresh k buffer d (omega (arith, more_pages more)) j (omega arith)
                  (before j)))
      ]
    where
      more_pages :
          ltb 1 (st.size_in_pages - fsip_at st k) ≡ true → fsip_at st k + 1 < st.size_in_pages
      more_pages h = ground arith

      all_laid :
          (j : ℕ)
          → ltb 1 (st.size_in_pages - fsip_at st k) ≡ false
          → fsip_at st j < st.size_in_pages
          → j < k
      all_laid j h below = ground (
        arith,
        h,
        below,
        index_le most k j,
        only_fsip most k st.size_in_pages (omega (arith, w.words)),
        w.behind_last,
      )
