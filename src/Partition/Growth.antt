-- ===== src/Partition/Growth.antt =====
-- `PartitionFile::allocPage`: what a new indicator page manages after the file has grown.
use master_team_projekt.Prelude.{
  ℕ, ◌+◌, ◌*◌, ◌/◌, ◌%◌, ◌≤◌, ◌<◌, ◌≡◌, refl, ◌∙◌, ap, subst, true, ltb, if◌then◌else◌, arith,
}
use master_team_projekt.Prelude.Word.{mod_32, add_32}
use master_team_projekt.Interpreter.Fsip.{FsipPage, grow, init_new_fsip}
use master_team_projekt.Interpreter.Fsip.Valid.{IsValid}
use master_team_projekt.Interpreter.Fsip.Init.{init_new_fsip-IsValid}
use master_team_projekt.Interpreter.Fsip.Grow.{Grows, grow-Grows}
use master_team_projekt.Partition.Monad.{Partition, done}
use master_team_projekt.Partition.Base.{open_file, get_max_pages_per_fsip}
use master_team_projekt.Partition.Pages.{page_at, with_page, write_page_open}
use master_team_projekt.Partition.File.{extend, add_fsip, grow_file}

-- The partition after `open` and after the file was resized.
abbrev resized : ℕ → Partition → Partition
resized growth st = record st {
  open_count = 1;
  file_open = true;
  size_in_pages = st.size_in_pages + growth;
}

cancel : (n d : ℕ) → 0 < d → n * d / d ≡ n
cancel n d pos = grind arith

bounded : (n d : ℕ) → 0 < d → n ≤ n * d
bounded n d pos = grind arith

extend_lem :
    (st : Partition) (growth : ℕ)
    → 0 < st.page_size
    → (st.size_in_pages + growth) * st.page_size < mod_32
    → extend growth st ≡ record st { size_in_pages = st.size_in_pages + growth }
unfolding extend
extend_lem st growth pos small =
    ap (λ n. record st { size_in_pages = n })
      (ap (λ n. n * st.page_size % mod_32 / st.page_size) exact
        ∙ ap (λ n. n / st.page_size) (omega (arith, small))
        ∙ cancel (st.size_in_pages + growth) st.page_size pos)
  where
    exact : add_32 st.size_in_pages growth ≡ st.size_in_pages + growth
    exact = omega (arith, small, bounded (st.size_in_pages + growth) st.page_size pos)

open_closed :
    (st : Partition)
    → st.open_count ≡ 0
    → open_file true st ≡ done tt (record st { open_count = 1; file_open = true })
unfolding open_file
open_closed st closed = rw closed refl

grow_file_open :
    (st : Partition) (growth index : ℕ) (buffer : FsipPage)
    → st.open_count ≡ 0
    → 0 < st.page_size
    → (st.size_in_pages + growth) * st.page_size < mod_32
    → let t = grow buffer growth (get_max_pages_per_fsip st.page_size) in
      grow_file true growth buffer index st
      ≡ add_fsip t.1 index t.0 (with_page (resized growth st) index t.1)
unfolding grow_file
grow_file_open st growth index buffer closed pos small = rw (open_closed st closed) (
    rw (extend_lem (record st { open_count = 1; file_open = true }) growth pos small) (
      rw
        (write_page_open (resized growth st) index
          (grow buffer growth (get_max_pages_per_fsip st.page_size)).1 refl)
        refl))

same_page : (st : Partition) (i : ℕ) (p : FsipPage) → page_at (with_page st i p) i ≡ p
same_page st i p = ground arith

abbrev new_fsip : Partition → FsipPage → ℕ → ℕ → FsipPage
new_fsip st buffer next remaining =
    init_new_fsip st.page_size buffer 0 next st.partition_id remaining

add_fsip_open :
    (st : Partition) (buffer : FsipPage) (index remaining : ℕ)
    → st.file_open ≡ true
    → 0 < remaining
    → let most = get_max_pages_per_fsip st.page_size in
      let next = index + most + 1 in
      remaining ≤ most
      → next < mod_32
      → add_fsip buffer index remaining st
        ≡ done tt (with_page st next (new_fsip st buffer next remaining))
unfolding add_fsip
add_fsip_open st buffer index remaining opened some fits small =
    rw (test, managed, number) (write_page_open st _ _ opened)
  where
    most' : ℕ
    most' = get_max_pages_per_fsip st.page_size

    test : ltb 0 remaining ≡ true
    test = ground arith

    managed : (if ltb most' remaining then most' else remaining) ≡ remaining
    managed = ground arith

    number : add_32 (add_32 index most') 1 ≡ index + most' + 1
    number = omega (arith, small)

-- When the file has grown by more pages than the last indicator page of a full partition can take, and
-- by no more than a new one can manage, a new indicator page is written behind the pages of the last
-- one, and it manages one page too many: the last page that it manages is the first behind the file.
pub grow_file-overhang :
    (st : Partition) (growth index : ℕ) (buffer : FsipPage)
    → st.open_count ≡ 0
    → st.page_size % 4 ≡ 0
    → 36 ≤ st.page_size
    → IsValid st.page_size buffer
    → buffer.free_blocks_count ≡ 0
    → index + 1 + buffer.managed_pages ≡ st.size_in_pages
    → (st.size_in_pages + growth) * st.page_size < mod_32
    → 8 ≤ growth
    → let most = get_max_pages_per_fsip st.page_size in
      let next = index + most + 1 in
      most < buffer.managed_pages + growth
      → buffer.managed_pages + growth ≤ most + most
      → (st' : Partition) × (grow_file true growth buffer index st ≡ done tt st')
        × (st'.size_in_pages ≡ st.size_in_pages + growth)
        × (next + (page_at st' next).managed_pages ≡ st'.size_in_pages)
grow_file-overhang st growth index buffer closed aligned words v none_free behind small enough over
      fits =
    (
      with_page (resized' t.1) next' page,
      grow_file_open st growth index buffer closed (omega (arith, words)) small
          ∙ add_fsip_open (resized' t.1) t.1 index t.0 refl (omega (arith, left))
              (omega (arith, left)) (omega (arith, bounds, left)),
      refl,
      omega (arith, left, seen, v.within),
    )
  where
    most' : ℕ
    most' = get_max_pages_per_fsip st.page_size

    t : ℕ × FsipPage
    t = grow buffer growth most'

    next' : ℕ
    next' = index + most' + 1

    resized' : FsipPage → Partition
    resized' p = with_page (resized growth st) index p

    page : FsipPage
    page = new_fsip (resized' t.1) t.1 next' t.0

    bounds : st.size_in_pages + growth < mod_32
    bounds =
        omega
          (arith, small, bounded (st.size_in_pages + growth) st.page_size (omega (arith, words)))

    grows : Grows st.page_size buffer growth t
    grows =
        subst (λ m. Grows st.page_size buffer growth (grow buffer growth m))
          (omega (arith, aligned, words))
          (grow-Grows st.page_size growth buffer v none_free enough (omega (arith, bounds)))

    left : t.0 + most' ≡ growth + buffer.managed_pages
    left = ground (arith, grows.left, grows.added_lem, v.within, aligned, words)

    seen : (page_at (with_page (resized' t.1) next' page) next').managed_pages ≡ t.0
    seen =
        ap (λ (p : FsipPage). p.managed_pages) (same_page (resized' t.1) next' page)
        ∙ (init_new_fsip-IsValid st.page_size t.1 0 next' st.partition_id t.0
            (omega (arith, left, aligned, words)) v.small).2
