-- ===== src/Interpreter/Fsip/Tests.antt =====
-- Small indicator pages: a page of 40 bytes has 64 bits in front of its header.
use master_team_projekt.Prelude.{ℕ, ◌+◌, ◌≤◌, ◌≡◌, refl, inl, true, arith}
use master_team_projekt.Prelude.Bits.{ones}
use master_team_projekt.Interpreter.Fsip.{
  FsipPage, init_new_fsip, get_new_page, free_page, grow, set_bit_8, get_next_free_page, scan_words,
  any_bit, idx_lowest_bit_set, fill_words,
}
use master_team_projekt.Interpreter.Fsip.Valid.{IsValid}
use master_team_projekt.Interpreter.Fsip.Init.{init_new_fsip-IsValid}
use master_team_projekt.Interpreter.Fsip.Alloc.{Takes, get_new_page-Takes}
use master_team_projekt.Interpreter.Fsip.Free.{
  Frees, free_page-Frees, free_page-get_new_page, get_new_page-reissues,
}
use master_team_projekt.Interpreter.Fsip.Grow.{Grows, grow-Grows}

-- A frame with other content, about to be initialised.
abbrev raw : FsipPage
raw = record {
  bits = ones;
  header = record {
    free_blocks_count = 7;
    next_free_page = 5;
    managed_pages = 3;
    version = 0;
    basic_header = record { lsn = 0; page_index = 9; pid = 9; version = 0 };
  };
}

abbrev fresh : ℕ → FsipPage
fresh n = init_new_fsip 40 raw 0 0 1 n

fresh-IsValid : (n : ℕ) → n ≤ 64 → IsValid 40 (fresh n)
fresh-IsValid n h = (init_new_fsip-IsValid 40 raw 0 0 1 n h (omega arith)).0

-- Two pages, the first of them in use.
abbrev started : FsipPage
started = (get_new_page 40 (fresh 2)).1

started-Takes : Takes 40 (fresh 2) (get_new_page 40 (fresh 2))
unfolding init_new_fsip
started-Takes = get_new_page-Takes 40 (fresh 2) (fresh-IsValid 2 (omega arith)) (omega arith)

full-Takes : Takes 40 (fresh 1) (get_new_page 40 (fresh 1))
unfolding init_new_fsip
full-Takes = get_new_page-Takes 40 (fresh 1) (fresh-IsValid 1 (omega arith)) (omega arith)

get_new_page-Takes_example : Takes 40 (fresh 20) (get_new_page 40 (fresh 20))
unfolding init_new_fsip
get_new_page-Takes_example =
    get_new_page-Takes 40 (fresh 20) (fresh-IsValid 20 (omega arith)) (omega arith)

free_page-Frees_example : Frees 40 started 0 (free_page started (0 + 1 + 0))
unfolding get_new_page init_new_fsip fill_words set_bit_8
free_page-Frees_example =
    free_page-Frees 40 started 0 started-Takes.valid (omega arith) refl (omega arith)
      (inl (omega arith))

free_page-get_new_page_example :
    let r = get_new_page 40 (fresh 20) in
    let q = free_page r.1 r.0 in
    ((k : ℕ) → q.bits k ≡ (fresh 20).bits k) × (q.free_blocks_count ≡ 20) × (q.next_free_page ≡ 0)
unfolding init_new_fsip
free_page-get_new_page_example =
    free_page-get_new_page 40 (fresh 20) (fresh-IsValid 20 (omega arith)) (omega arith)
      (omega arith)

get_new_page-reissues_example :
    let freed = free_page (get_new_page 40 started).1 (0 + 1 + 1) in
    (freed.bits 0 ≡ true) × ((get_new_page 40 freed).0 ≡ 0 + 1)
unfolding init_new_fsip get_new_page
get_new_page-reissues_example =
    get_new_page-reissues 40 started 1 started-Takes.valid (omega arith) (omega arith) (omega arith)
      (omega arith)

grow-Grows_example :
    Grows 40 (get_new_page 40 (fresh 1)).1 8 (grow (get_new_page 40 (fresh 1)).1 8 64)
unfolding init_new_fsip get_new_page
grow-Grows_example =
    grow-Grows 40 8 (get_new_page 40 (fresh 1)).1 full-Takes.valid (omega arith) (omega arith)
      (omega arith)

second_page : (get_new_page 40 started).0 ≡ 2
unfolding get_new_page init_new_fsip fill_words set_bit_8 get_next_free_page scan_words any_bit
    idx_lowest_bit_set
second_page = refl

full_refuses : get_new_page 40 (fresh 0) ≡ (4294967295, fresh 0)
unfolding get_new_page init_new_fsip
full_refuses = refl
