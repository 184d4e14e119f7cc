-- ===== src/Partition/File.antt =====
-- src/partition/partition_file.{hh,cc}: a partition in a file, which grows when it is full.
use master_team_projekt.Prelude.{ℕ, ◌*◌, ◌/◌, ◌%◌, Bool, ltb, if◌then◌else◌}
use master_team_projekt.Prelude.Word.{mod_32, add_32}
use master_team_projekt.Interpreter.Fsip.{FsipPage, grow, init_new_fsip}
use master_team_projekt.Partition.Monad.{
  Partition, Result, M, ◌>>=◌, ◌>>◌, get_state, put_state, done, file_exception, partition_full,
  out_of_fuel,
}
use master_team_projekt.Partition.Base.{open_file, write_page, alloc_page, get_max_pages_per_fsip}

-- The constructor raises a growth indicator that is too small.
unfoldable pub growth_indicator : ℕ → ℕ
growth_indicator growth = if ltb growth 8 then 8 else growth

-- The size in pages after the file was resized: the size in bytes is a product of two `uint`.
-- `FileUtil::resize` keeps the pages that are there.
unfoldable pub extend : ℕ → Partition → Partition
extend growth st =
    let bytes = add_32 st.size_in_pages growth * st.page_size % mod_32 in
    record st { size_in_pages = bytes / st.page_size }

-- The new indicator page, if pages are left over for it, is made in the same buffer.
unfoldable pub add_fsip : FsipPage → ℕ → ℕ → M (Unit {0})
add_fsip buffer index remaining st =
    let most = get_max_pages_per_fsip st.page_size in
    let next = add_32 (add_32 index most) 1 in
    let to_manage = if ltb most remaining then most else remaining in
    let page = init_new_fsip st.page_size buffer 0 next st.partition_id to_manage in
    if ltb 0 remaining then write_page page next st else done tt st

-- The handler of `PartitionFullException` up to the second attempt.
unfoldable pub grow_file : Bool → ℕ → FsipPage → ℕ → M (Unit {0})
unfolding extend add_fsip
grow_file opens growth buffer index = do
  open_file opens
  st ← get_state
  put_state (extend growth st)
  let (remaining, page) = grow buffer growth (get_max_pages_per_fsip st.page_size)
  write_page page index
  add_fsip page index remaining

unfoldable pub recover : Bool → Bool → ℕ → Result ℕ → Result ℕ
unfolding grow_file
recover opens closes growth (done page_index st) = done page_index st
recover opens closes growth (file_exception st) = file_exception st
recover opens closes growth (partition_full buffer index st) =
    (grow_file opens growth buffer index >> alloc_page closes) st
recover opens closes growth out_of_fuel = out_of_fuel

-- `PartitionFile::allocPage`.
unfoldable pub alloc_page_growing : Bool → Bool → ℕ → M ℕ
unfolding recover
alloc_page_growing opens closes growth st = recover opens closes growth (alloc_page closes st)
