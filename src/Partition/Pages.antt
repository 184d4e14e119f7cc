-- ===== src/Partition/Pages.antt =====
-- `readPage` and `writePage` of partition_base.cc: a page that is written is read back, and others stay,
-- as far as the 32-bit offsets reach.
use master_team_projekt.Prelude.{
  ℕ, ◌+◌, ◌*◌, ◌%◌, ◌≤◌, ◌<◌, ◌≡◌, ◌∙◌, ap, true, false, ◌==◌, if◌then◌else◌, Bool-cases, inl, inr,
  ==→≡, arith,
}
use master_team_projekt.Prelude.Word.{mod_32}
use master_team_projekt.Interpreter.Fsip.{FsipPage}
use master_team_projekt.Partition.Monad.{Partition, bind, ◌>>◌, done, file_exception}
use master_team_projekt.Partition.Base.{read_page, write_page, page_offset}

-- The page at an index, as `readPage` sees it on an open file.
abbrev pub page_at : Partition → ℕ → FsipPage
page_at st i = st.disk (page_offset st i)

-- The file with a page rewritten.
abbrev pub with_page : Partition → ℕ → FsipPage → Partition
with_page st i page = record st { disk = λ k. if k == page_offset st i then page else st.disk k }

pub offset_inj :
    (size i j : ℕ)
    → 0 < size
    → i * size < mod_32
    → j * size < mod_32
    → i * size % mod_32 ≡ j * size % mod_32
    → i ≡ j
offset_inj size i j pos hi hj e = cancel (omega (arith, e))
  where
    less : (a b : ℕ) → a < b → a * size + size ≤ b * size
    less a b h = grind arith

    cancel : i * size ≡ j * size → i ≡ j
    cancel f = ground (arith, less i j, less j i)

pub page_at-with_page :
    (st : Partition) (i j : ℕ) (page : FsipPage)
    → 0 < st.page_size
    → i * st.page_size < mod_32
    → j * st.page_size < mod_32
    → page_at (with_page st i page) j ≡ (if j == i then page else page_at st j)
page_at-with_page st i j page pos hi hj = elim (Bool-cases (j == i)) [
  | inl e ↦ rw (e, ==→≡ j i e) (ground arith)
  | inr e ↦ rw e (ground (arith, offset_inj st.page_size j i pos hj hi))
]

pub read_page_open :
    (st : Partition) (i : ℕ) → st.file_open ≡ true → read_page i st ≡ done (page_at st i) st
unfolding read_page
read_page_open st i h = simp h

pub write_page_open :
    (st : Partition) (i : ℕ) (page : FsipPage)
    → st.file_open ≡ true
    → write_page page i st ≡ done tt (with_page st i page)
unfolding write_page
write_page_open st i page h = simp h

-- A write and a read behind it, on an open file.
then_read :
    (st : Partition) (i j : ℕ) (page seen : FsipPage)
    → st.file_open ≡ true
    → page_at (with_page st i page) j ≡ seen
    → (write_page page i >> read_page j) st ≡ done seen (with_page st i page)
then_read st i j page seen h e =
    ap (λ r. bind r (λ _. read_page j)) (write_page_open st i page h)
    ∙ read_page_open (with_page st i page) j h
    ∙ ap (λ x. done x (with_page st i page)) e

-- On an open partition whose offsets stay below 2^32, reading page `j` after page `i` was written gives
-- the page that was written if `j` is `i`, and otherwise what page `j` held.
pub read_page-write_page :
    (st : Partition) (i j : ℕ) (page : FsipPage)
    → st.file_open ≡ true
    → 0 < st.page_size
    → i * st.page_size < mod_32
    → j * st.page_size < mod_32
    → (write_page page i >> read_page j) st
      ≡ done (if j == i then page else page_at st j) (with_page st i page)
read_page-write_page st i j page open_now pos hi hj =
    then_read st i j page _ open_now (page_at-with_page st i j page pos hi hj)

-- The offset of a page is computed on 32 bits, so on a partition of 4 GiB or more the page that begins
-- at byte 2^32 is page 0: writing it overwrites the first indicator page.
pub write_page-wraps :
    (st : Partition) (i : ℕ) (page : FsipPage)
    → st.file_open ≡ true
    → i * st.page_size ≡ mod_32
    → (write_page page i >> read_page 0) st ≡ done page (with_page st i page)
write_page-wraps st i page open_now e = then_read st i 0 page page open_now (ground arith)

-- On a closed file a page is written only in appearance: without tracing `writePage` returns normally
-- and no page changes; with tracing it throws.
pub write_page_closed :
    (st : Partition) (i : ℕ) (page : FsipPage)
    → st.file_open ≡ false
    → write_page page i st ≡ (if st.trace then file_exception st else done tt st)
unfolding write_page
write_page_closed st i page closed = rw closed
