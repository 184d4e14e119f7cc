-- ===== src/Interpreter/Fsip.antt =====
-- src/interpreter/interpreter_fsip.{hh,cc}: the free space indicator page of a partition. Bit `i`
-- of the page tells whether the `i`-th page behind it is in use. A page is its bits and its header;
-- the interpreter's pointers `_pp` and `_header` are the page that each operation takes and returns.
pub mod Words
pub mod Bitmap
pub mod Valid
pub mod Alloc
pub mod Free
pub mod Init
pub mod Grow
mod Tests
use master_team_projekt.Prelude.{
  ℕ, zero, suc, ◌+◌, ◌-◌, ◌*◌, ◌/◌, ◌%◌, Bool, true, false, ◌||◌, ltb, leb, ◌==◌, if◌then◌else◌,
}
use master_team_projekt.Prelude.Word.{add_32, sub_32}
use master_team_projekt.Prelude.Bits.{
  Bits, zeros, ones, unit_bit, bit_not, bits_and, bits_or, shift_left, read_word, write_word,
}
use master_team_projekt.Infra.Types.{invalid_32}
use master_team_projekt.Infra.Headers.{BasicHeader, FsipHeader, fsip_header_size}

pub record FsipPage : Type 0 where
  pub bits : Bits
  pub header : FsipHeader
  pub open header use {free_blocks_count, next_free_page, managed_pages, basic_header}

-- `while (i < max) { *(((uint32_t*) aPP) + i) = v; ++i; }`, by the number of rounds left.
unfoldable pub fill_words : ℕ → ℕ → Bits → Bits → Bits
fill_words zero i v m = m
fill_words (suc n) i v m = fill_words n (i + 1) v (write_word 32 m i v)

-- The whole data area is written: zeros, one mixed word if there is room for it, then ones.
unfoldable pub init_new_fsip : ℕ → FsipPage → ℕ → ℕ → ℕ → ℕ → FsipPage
init_new_fsip page_size p lsn page_index pid no_blocks =
    let full = no_blocks / 32 in
    let limit = (page_size - fsip_header_size) / 4 in
    let cleared = fill_words full 0 zeros p.bits in
    let mixed = write_word 32 cleared full (shift_left ones (no_blocks % 32)) in
    record {
      bits =
          if ltb full limit then fill_words (limit - (full + 1)) (full + 1) ones mixed else cleared;
      header = record {
        free_blocks_count = no_blocks;
        next_free_page = 0;
        managed_pages = no_blocks;
        version = 1;
        basic_header = record { lsn = lsn; page_index = page_index; pid = pid; version = 1 };
      };
    }

-- `v != 0` for a word, of which `n` bits from `k` on are looked at.
pub any_bit : ℕ → ℕ → Bits → Bool
any_bit zero k v = false
any_bit (suc n) k v = v k || any_bit n (k + 1) v

-- `idx_lowest_bit_set` of bit_intrinsics.hh: the number of the lowest bit that is set.
pub idx_lowest_bit_set : ℕ → ℕ → Bits → ℕ
idx_lowest_bit_set zero k v = k
idx_lowest_bit_set (suc n) k v = if v k then k else idx_lowest_bit_set n (k + 1) v

-- The loop of `getNextFreePage` from word `j` on, by the number of rounds left.
pub scan_words : ℕ → ℕ → Bits → ℕ
unfolding any_bit idx_lowest_bit_set
scan_words zero j m = 0
scan_words (suc n) j m =
    let part = bit_not (read_word 32 m j) in
    let rest = scan_words n (j + 1) m in
    if any_bit 32 0 part then j * 32 + idx_lowest_bit_set 32 0 part else rest

-- The condition `j <= size / 4 - 1` is on `size_t`: the data area is taken to hold a word.
pub get_next_free_page : ℕ → FsipPage → ℕ
unfolding scan_words
get_next_free_page page_size p =
    let first = p.next_free_page / 32 in
    scan_words ((page_size - fsip_header_size) / 4 - first) first p.bits

-- The bit at `i` is set through the byte that holds it.
unfoldable pub set_bit_8 : Bits → ℕ → Bits
set_bit_8 m i =
    write_word 8 m (i / 8) (bits_or (read_word 8 m (i / 8)) (shift_left unit_bit (i % 8)))

-- Through the 32-bit word that holds it.
pub set_bit_32 : Bits → ℕ → Bits
set_bit_32 m i =
    write_word 32 m (i / 32) (bits_or (read_word 32 m (i / 32)) (shift_left unit_bit (i % 32)))

pub clear_bit_32 : Bits → ℕ → Bits
clear_bit_32 m i =
    write_word 32 m (i / 32)
      (bits_and (read_word 32 m (i / 32)) (bit_not (shift_left unit_bit (i % 32))))

-- `getNewPage` behind its guard: the bit is set, and the next free page is looked for from it on.
pub take_page : ℕ → FsipPage → FsipPage
take_page page_size p =
    let marked = record p { bits = set_bit_8 p.bits p.next_free_page } in
    record marked {
      header = record (p.header) {
        next_free_page = get_next_free_page page_size marked;
        free_blocks_count = sub_32 p.free_blocks_count 1;
      };
    }

unfoldable pub get_new_page : ℕ → FsipPage → ℕ × FsipPage
unfolding take_page
get_new_page page_size p =
    if p.free_blocks_count == 0
    then (invalid_32, p)
    else (add_32 (add_32 p.next_free_page 1) p.basic_header.page_index, take_page page_size p)

-- The place of a page of the partition on its indicator page.
abbrev pub bit_index : FsipPage → ℕ → ℕ
bit_index p page_index = sub_32 page_index (add_32 p.basic_header.page_index 1)

unfoldable pub reserve_page : ℕ → FsipPage → ℕ → FsipPage
reserve_page page_size p page_index =
    let marked = record p {
      bits = set_bit_32 p.bits (bit_index p page_index);
      header = record (p.header) { free_blocks_count = sub_32 p.free_blocks_count 1 };
    } in
    record marked {
      header = record (marked.header) { next_free_page = get_next_free_page page_size marked };
    }

unfoldable pub free_page : FsipPage → ℕ → FsipPage
free_page p page_index =
    let i = bit_index p page_index in
    record {
      bits = clear_bit_32 p.bits i;
      header = record (p.header) {
        next_free_page = if ltb i p.next_free_page then i else p.next_free_page;
        free_blocks_count = add_32 p.free_blocks_count 1;
      };
    }

-- `while (i < max) { *(((uint8_t*) lPP) + i + start) = 0; ++i; }`
pub clear_bytes : ℕ → ℕ → Bits → Bits
clear_bytes zero j m = m
clear_bytes (suc n) j m = clear_bytes n (j + 1) (write_word 8 m j zeros)

-- The second half of `grow`: `remaining` bits are cleared from byte `start` on, whole bytes first.
pub clear_from : ℕ → ℕ → Bits → Bits
clear_from start remaining m =
    let cleared = clear_bytes (remaining / 8) start m in
    let last = remaining / 8 + start in
    let mask = shift_left ones (remaining % 8) in
    if remaining % 8 == 0
    then cleared
    else write_word 8 cleared last (bits_and (read_word 8 cleared last) mask)

-- The bits that `grow` writes: if bit `managed` is not the first of its byte, that byte is
-- overwritten as a whole, and the rest begins with the next one.
pub grow_bits : ℕ → ℕ → Bits → Bits
grow_bits managed remaining m =
    let mask = shift_left ones (managed % 8) in
    if managed % 8 == 0
    then clear_from (managed / 8) remaining m
    else clear_from (managed / 8 + 1) (sub_32 remaining (8 - managed % 8))
        (write_word 8 m (managed / 8) (bit_not mask))

-- The number of pages that are left for the next indicator page, and the page.
unfoldable pub grow : FsipPage → ℕ → ℕ → ℕ × FsipPage
grow p number_of_pages max_pages_per_fsip =
    let managed = p.managed_pages in
    let room = sub_32 max_pages_per_fsip managed in
    let fits = leb number_of_pages room in
    let remaining = if fits then number_of_pages else room in
    let page : FsipPage = record {
      bits = grow_bits managed remaining p.bits;
      header = record (p.header) {
        free_blocks_count = add_32 p.free_blocks_count remaining;
        next_free_page = managed;
        managed_pages = if fits then add_32 managed number_of_pages else max_pages_per_fsip;
      };
    } in
    if room == 0 then (number_of_pages, p) else (if fits then 0 else number_of_pages - room, page)
