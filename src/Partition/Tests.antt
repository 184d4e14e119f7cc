-- ===== src/Partition/Tests.antt =====
-- A partition of 100 pages of 40 bytes: an indicator page manages 64 pages, so the second one is page 65.
use master_team_projekt.Prelude.{
  ℕ, zero, suc, ◌+◌, ◌<◌, ◌≡◌, ◌≢◌, refl, true, false, ◌==◌, if◌then◌else◌, inl, arith,
}
use master_team_projekt.Prelude.Bits.{ones}
use master_team_projekt.Interpreter.Fsip.{
  FsipPage, init_new_fsip, get_new_page, free_page, set_bit_8, fill_words,
}
use master_team_projekt.Interpreter.Fsip.Valid.{IsValid}
use master_team_projekt.Interpreter.Fsip.Init.{init_new_fsip-IsValid}
use master_team_projekt.Interpreter.Fsip.Alloc.{Takes, get_new_page-Takes}
use master_team_projekt.Partition.Monad.{Partition, ◌>>◌, done}
use master_team_projekt.Partition.Base.{
  open_file, read_page, write_page, alloc_page, alloc_on, alloc_from, free_page_of, fsip_index,
  format,
}
use master_team_projekt.Partition.File.{grow_file}
use master_team_projekt.Partition.Pages.{page_at, with_page, write_page-wraps}
use master_team_projekt.Partition.Alloc.{IsFormatted, Allocates, alloc_page-Allocates, fsip_at}
use master_team_projekt.Partition.FreeSet.{Removes, alloc_page-Removes}
use master_team_projekt.Partition.Free.{Returns, free_page_of-Returns, free_page_of-misses}
use master_team_projekt.Partition.Format.{Formats, format-Formats}
use master_team_projekt.Partition.Growth.{grow_file-overhang}

abbrev raw : FsipPage
raw = record {
  bits = ones;
  header = record {
    free_blocks_count = 7;
    next_free_page = 5;
    managed_pages = 3;
    version = 0;
    basic_header = record { lsn = 0; page_index = 9; pid = 9; version = 0 };
  };
}

abbrev first_fsip : FsipPage
first_fsip = init_new_fsip 40 raw 0 0 1 64

abbrev second_fsip : FsipPage
second_fsip = init_new_fsip 40 raw 0 65 1 34

-- The partition whose first indicator page is `p`.
abbrev sample : FsipPage → Partition
sample p = record {
  page_size = 40;
  size_in_pages = 100;
  partition_id = 1;
  open_count = 1;
  file_open = true;
  trace = false;
  disk = λ at. if at == 2600 then second_fsip else p;
}

abbrev closed_sample : Partition
closed_sample = record (sample raw) { open_count = 0; file_open = false }

-- The first page behind the first indicator page is in use.
abbrev used_fsip : FsipPage
used_fsip = (get_new_page 40 first_fsip).1

first_fsip-IsValid : IsValid 40 first_fsip
first_fsip-IsValid = (init_new_fsip-IsValid 40 raw 0 0 1 64 (omega arith) (omega arith)).0

second_fsip-IsValid : IsValid 40 second_fsip
second_fsip-IsValid = (init_new_fsip-IsValid 40 raw 0 65 1 34 (omega arith) (omega arith)).0

used-Takes : Takes 40 first_fsip (get_new_page 40 first_fsip)
unfolding init_new_fsip
used-Takes = get_new_page-Takes 40 first_fsip first_fsip-IsValid (omega arith)

sample-IsFormatted :
    (p : FsipPage) → IsValid 40 p → p.basic_header.page_index ≡ 0 → IsFormatted (sample p)
unfolding init_new_fsip
sample-IsFormatted p v place = record {
  opened = refl;
  aligned = refl;
  words = omega arith;
  reach = omega arith;
  room = omega arith;
  fsip = fsips;
  place = places;
}
  where
    fsips :
        (k : ℕ)
        → fsip_at (sample p) k < 100
        → IsValid 40 (page_at (sample p) (fsip_at (sample p) k))
    fsips zero below = v
    fsips (suc zero) below = second_fsip-IsValid
    fsips (suc (suc k)) below = absurd (omega arith)

    places :
        (k : ℕ)
        → fsip_at (sample p) k < 100
        → (page_at (sample p) (fsip_at (sample p) k)).basic_header.page_index ≡ fsip_at (sample p) k
    places zero below = place
    places (suc zero) below = refl
    places (suc (suc k)) below = absurd (omega arith)

abbrev fresh_sample : Partition
fresh_sample = sample first_fsip

fresh_sample-IsFormatted : IsFormatted fresh_sample
unfolding init_new_fsip
fresh_sample-IsFormatted = sample-IsFormatted first_fsip first_fsip-IsValid refl

write_page-wraps_example :
    let big = record fresh_sample { page_size = 4096; size_in_pages = 1048577 } in
    (write_page raw 1048576 >> read_page 0) big ≡ done raw (with_page big 1048576 raw)
write_page-wraps_example =
    write_page-wraps (record fresh_sample { page_size = 4096; size_in_pages = 1048577 }) 1048576 raw
      refl refl

alloc_page-Allocates_example : Allocates true fresh_sample (alloc_page true fresh_sample)
alloc_page-Allocates_example =
    alloc_page-Allocates true fresh_sample fresh_sample-IsFormatted (omega arith)

alloc_page-Removes_example : Removes fresh_sample 1 (with_page fresh_sample 0 used_fsip)
unfolding alloc_page alloc_from alloc_on read_page write_page init_new_fsip get_new_page
alloc_page-Removes_example =
    alloc_page-Removes true fresh_sample (with_page fresh_sample 0 used_fsip) 1
      fresh_sample-IsFormatted (omega arith) refl

free_page_of-Returns_example :
    Returns (sample used_fsip) 0 (free_page_of (1 + 0) (sample used_fsip))
unfolding init_new_fsip get_new_page fill_words set_bit_8
free_page_of-Returns_example =
    free_page_of-Returns (sample used_fsip) 0 (sample-IsFormatted used_fsip used-Takes.valid refl)
      (omega arith) (omega arith) refl (inl (omega arith))

free_page_of-misses_example :
    let index = fsip_index 40 70 in
    let st' = with_page fresh_sample index (free_page (page_at fresh_sample index) 70) in
    (free_page_of 70 fresh_sample ≡ done tt st')
    × ((k : ℕ) → fsip_at fresh_sample k ≢ index)
    × ((k : ℕ)
        → fsip_at fresh_sample k < 100
        → page_at st' (fsip_at fresh_sample k) ≡ page_at fresh_sample (fsip_at fresh_sample k))
free_page_of-misses_example =
    free_page_of-misses fresh_sample 70 fresh_sample-IsFormatted (omega arith) (omega arith)
      (omega arith)

format-Formats_example :
    (st' : Partition) × ((format true true raw >> open_file true) closed_sample ≡ done tt st')
    × Formats closed_sample st'
format-Formats_example =
    format-Formats closed_sample raw
      (record {
        aligned = refl;
        words = omega arith;
        reach = omega arith;
        room = omega arith;
        behind_last = omega arith;
      })
      refl (omega arith)

-- A full partition of two pages, the second of them in use, and growth by 70 pages.
abbrev small_fsip : FsipPage
small_fsip = (get_new_page 40 (init_new_fsip 40 raw 0 0 1 1)).1

small-Takes :
    Takes 40 (init_new_fsip 40 raw 0 0 1 1) (get_new_page 40 (init_new_fsip 40 raw 0 0 1 1))
unfolding init_new_fsip
small-Takes =
    get_new_page-Takes 40 (init_new_fsip 40 raw 0 0 1 1)
      (init_new_fsip-IsValid 40 raw 0 0 1 1 (omega arith) (omega arith)).0 (omega arith)

abbrev small_sample : Partition
small_sample = record closed_sample { size_in_pages = 2 }

grow_file-overhang_example :
    (st' : Partition) × (grow_file true 70 small_fsip 0 small_sample ≡ done tt st')
    × (st'.size_in_pages ≡ 72)
    × (65 + (page_at st' 65).managed_pages ≡ st'.size_in_pages)
unfolding init_new_fsip get_new_page
grow_file-overhang_example =
    grow_file-overhang small_sample 70 0 small_fsip refl refl (omega arith) small-Takes.valid refl
      refl (omega arith) (omega arith) (omega arith) (omega arith)
