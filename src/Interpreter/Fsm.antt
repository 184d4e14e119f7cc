-- ===== src/Interpreter/Fsm.antt =====
-- src/interpreter/interpreter_fsm.{hh,cc}: the free space management page of a segment. Half a byte
-- holds the fill level of a page of the segment. A page is its bytes and its header; page sizes are
-- multiples of eight, so that the header that `initNewFSM` writes stands where `attach` looks for it.
pub mod Init
pub mod Nibbles
pub mod Search
pub mod Status
pub mod History
mod Tests
use Prim.Native.Nat.{bit_and, bit_or}
use master_team_projekt.Prelude.{
  ℕ, zero, suc, ◌+◌, ◌-◌, ◌*◌, ◌/◌, ◌%◌, Option, none, some, Bool, ltb, leb, ◌==◌, if◌then◌else◌,
}
use master_team_projekt.Prelude.Word.{add_32}
use master_team_projekt.Infra.Types.{invalid_32, PageStatus, bucket}
use master_team_projekt.Infra.Headers.{BasicHeader, FsmHeader, fsm_header_size}

abbrev pub Bytes : Type 0
Bytes = ℕ → ℕ

pub record FsmPage : Type 0 where
  pub bytes : Bytes
  pub header : FsmHeader
  pub open header use {no_pages, next_fsm, basic_header}

-- Word `i` of eight bytes is set to 0.
abbrev pub clear_word_64 : Bytes → ℕ → Bytes
clear_word_64 m i k = if k / 8 == i then 0 else m k

-- The loop of `initNewFSM`, by the number of rounds left. Word 0 is left out, as in the source.
pub clear_words : ℕ → ℕ → Bytes → Bytes
clear_words zero i m = m
clear_words (suc n) i m = clear_words n (i + 1) (if i == 0 then m else clear_word_64 m i)

unfoldable pub init_new_fsm : ℕ → FsmPage → ℕ → ℕ → ℕ → ℕ → FsmPage
init_new_fsm page_size p lsn page_index pid no_pages = record {
  bytes = clear_words ((page_size - fsm_header_size) / 8) 0 p.bytes;
  header = record {
    no_pages = no_pages;
    next_fsm = 0;
    basic_header = record { lsn = lsn; page_index = page_index; pid = pid; version = 1 };
  };
}

abbrev pub get_max_pages_per_fsm : ℕ → ℕ
get_max_pages_per_fsm page_size = (page_size - fsm_header_size) * 2

-- `&= ~15; |= status` for the lower half of a byte, and `&= 15; |= status << 4` for the upper.
unfoldable pub put_low : ℕ → ℕ → ℕ
put_low b status = bit_or (bit_and b 240) status

unfoldable pub put_high : ℕ → ℕ → ℕ
put_high b status = bit_or (bit_and b 15) (status * 16 % 256)

unfoldable pub change_page_status : FsmPage → ℕ → ℕ → FsmPage
change_page_status p page_no status =
    let old = p.bytes (page_no / 2) in
    let new = if page_no % 2 == 0 then put_low old status else put_high old status in
    record p { bytes = λ k. if k == page_no / 2 then new else p.bytes k }

unfoldable pub get_page_status : FsmPage → ℕ → ℕ
get_page_status p page_no =
    let b = p.bytes (page_no / 2) in if page_no % 2 == 0 then bit_and b 15 else b / 16

-- The `while` loop of `getFreePage`: the first page from `i` on whose level and the level asked for
-- stay below `kPageStatusSize`, by the number of rounds left.
unfoldable pub find_fit : FsmPage → ℕ → ℕ → ℕ → Option ℕ
find_fit p status zero i = none
find_fit p status (suc n) i =
    if ltb (get_page_status p i + status) 16 then some i else find_fit p status n (i + 1)

-- The page behind the known ones, if the management page has room for its level.
unfoldable pub add_data_page : ℕ → FsmPage → ℕ → ℕ × FsmPage
add_data_page page_size p status =
    let q = change_page_status p p.no_pages status in
    if ltb p.no_pages (get_max_pages_per_fsm page_size)
    then (p.no_pages, record q { header = record (p.header) { no_pages = add_32 p.no_pages 1 } })
    else (invalid_32, p)

unfoldable pub get_free_page : ℕ → FsmPage → ℕ → ℕ × FsmPage
get_free_page page_size p status = elim (find_fit p status p.no_pages 0) [
  | some i ↦ (i, change_page_status p i (get_page_status p i + status))
  | none ↦ add_data_page page_size p status
]

-- The quotient of two 32-bit numbers as a `double` rounds to no integer that it is not, so `ceil` is
-- that of the exact quotient. The size is at least `kMAX`, so that a bucket is not empty.
unfoldable pub calc_page_status : ℕ → ℕ → PageStatus
calc_page_status size no_bytes =
    let bucket_size = size / 15 in
    let bucket_no = (no_bytes + bucket_size - 1) / bucket_size in
    if ltb size no_bytes
    then PageStatus.no_type
    else if leb bucket_no 15
    then bucket bucket_no
    else PageStatus.no_type
