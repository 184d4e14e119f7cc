-- ===== src/Partition/Base.antt =====
-- src/partition/partition_base.{hh,cc}: opening and closing, reading and writing of pages, allocation,
-- release and formatting.
use master_team_projekt.Prelude.{
  ℕ, zero, suc, ◌+◌, ◌-◌, ◌*◌, ◌/◌, ◌%◌, Bool, true, false, ltb, leb, ◌==◌, if◌then◌else◌,
}
use master_team_projekt.Prelude.Word.{mod_32, add_32}
use master_team_projekt.Infra.Types.{invalid_32}
use master_team_projekt.Infra.Headers.{fsip_header_size}
use master_team_projekt.Interpreter.Fsip.{FsipPage, get_new_page, free_page, init_new_fsip}
use master_team_projekt.Partition.Monad.{
  Partition, M, bind, ◌>>=◌, ◌>>◌, return, get_state, done, file_exception, partition_full,
  out_of_fuel,
}

-- `open`, where `opens` is whether `::open` succeeds if it is called.
unfoldable pub open_file : Bool → M (Unit {0})
open_file opens st =
    let st' = record st { open_count = add_32 st.open_count 1; file_open = true } in
    if st.open_count == 0
    then if opens then done tt st' else file_exception (record st { file_open = false })
    else done tt (record st { open_count = add_32 st.open_count 1 })

-- `close`, where `closes` is whether `::close` succeeds if it is called.
unfoldable pub close_file : Bool → M (Unit {0})
close_file closes st =
    if st.open_count == 1
    then if closes
      then done tt (record st { open_count = 0; file_open = false })
      else file_exception st
    else done tt (if ltb 1 st.open_count then record st { open_count = st.open_count - 1 } else st)

-- The offset of a page in the file: a product of two `uint`.
abbrev pub page_offset : Partition → ℕ → ℕ
page_offset st page_index = page_index * st.page_size % mod_32

-- `pread` and `pwrite` fail on a closed file.
unfoldable pub read_page : ℕ → M FsipPage
read_page page_index st =
    if st.file_open then done (st.disk (page_offset st page_index)) st else file_exception st

-- A failure of `pwrite` is only reported if tracing is on.
unfoldable pub write_page : FsipPage → ℕ → M (Unit {0})
write_page page page_index st =
    let at = page_offset st page_index in
    let written = record st { disk = λ k. if k == at then page else st.disk k } in
    if st.file_open then done tt written else if st.trace then file_exception st else done tt st

abbrev pub get_max_pages_per_fsip : ℕ → ℕ
get_max_pages_per_fsip page_size = (page_size - fsip_header_size) * 8

-- What `allocPage` does with the indicator page at `index`, which it has read; `next` is the loop.
unfoldable pub alloc_on : Bool → (ℕ → M ℕ) → ℕ → FsipPage → M ℕ
alloc_on closes next index page st =
    let (number, page') = get_new_page st.page_size page in
    let index_of_next = add_32 index (1 + get_max_pages_per_fsip st.page_size) in
    let full = bind (close_file closes st) (λ _. partition_full page index) in
    let later = next index_of_next st in
    if number == invalid_32
    then if leb st.size_in_pages index_of_next then full else later
    else bind (write_page page' index st) (λ _. return number)

-- The `do` loop of `allocPage` from the indicator page at `index` on.
unfoldable pub alloc_from : Bool → ℕ → ℕ → M ℕ
unfolding alloc_on
alloc_from closes zero index st = out_of_fuel
alloc_from closes (suc fuel) index st =
    bind (read_page index st) (alloc_on closes (alloc_from closes fuel) index)

-- `PartitionBase::allocPage`. Each round moves the index forward, so a round for each page is enough.
unfoldable pub alloc_page : Bool → M ℕ
unfolding alloc_from
alloc_page closes st = alloc_from closes (st.size_in_pages + 1) 0 st

-- The index that `freePage` computes for the indicator page of a page.
unfoldable pub fsip_index : ℕ → ℕ → ℕ
fsip_index page_size page_index =
    let most = get_max_pages_per_fsip page_size in page_index / (most + 1) * most

unfoldable pub free_page_of : ℕ → M (Unit {0})
unfolding fsip_index
free_page_of page_index = do
  st ← get_state
  let index = fsip_index st.page_size page_index
  page ← read_page index
  write_page (free_page page page_index) index

-- The `while` loop of `format`: `buffer` is the page in memory that each round initialises anew.
unfoldable pub format_from : ℕ → FsipPage → ℕ → ℕ → M FsipPage
format_from zero buffer current remaining st = out_of_fuel
format_from (suc fuel) buffer current remaining st =
    let most = get_max_pages_per_fsip st.page_size in
    let here = remaining - 1 in
    let to_manage = if ltb most here then most else here in
    let page = init_new_fsip st.page_size buffer 0 current st.partition_id to_manage in
    let rest =
      bind (write_page page current st)
        (λ _. format_from fuel page (add_32 current (most + 1)) (here - to_manage)) in
    if ltb 1 remaining then rest else done buffer st

-- At the end page 0 is read and written back.
unfoldable pub format : Bool → Bool → FsipPage → M (Unit {0})
unfolding format_from
format opens closes buffer = do
  open_file opens
  st ← get_state
  format_from (st.size_in_pages + 1) buffer 0 st.size_in_pages
  first ← read_page 0
  write_page first 0
  close_file closes
