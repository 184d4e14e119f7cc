-- ===== src/Interpreter/Sp.antt =====
-- src/interpreter/interpreter_sp.{hh,cc}: the slotted page of a segment. Records are laid out from the
-- start of the page, slots from the header downwards. A page is its header, the slots by number and
-- the bytes of the record area; that the two areas do not meet is proved, not assumed. The pointer
-- to a record is its offset, and `none` is the null pointer.
pub mod Valid
pub mod Records
mod Tests
use master_team_projekt.Prelude.{
  ℕ, zero, suc, ◌+◌, ◌-◌, ◌*◌, ◌/◌, ◌%◌, Option, none, some, List, [], ◌∷◌, length, Bool, ltb, leb,
  ◌==◌, if◌then◌else◌,
}
use mathlib.Core.Option
use master_team_projekt.Prelude.Word.{mod_32, mod_16, add_32, add_16, sub_16}
use master_team_projekt.Infra.Headers.{SpHeader, sp_header_size}

-- `status` is 1 for a valid record and 0 for a deleted one.
pub record Slot : Type 0 where
  pub offset : ℕ
  pub size : ℕ
  pub status : ℕ

-- `sizeof(slot_t)`, with its padding.
abbrev pub slot_size : ℕ
slot_size = 6

pub record SpPage : Type 0 where
  pub bytes : ℕ → ℕ
  pub slot : ℕ → Slot
  pub header : SpHeader
  pub open header use {no_records, free_space, next_free_space}

-- Also writes an entry of the free space list, which nothing else uses, over the first four bytes:
-- an offset 0 and the size of the rest, each of two bytes with the lower one first.
unfoldable pub init_new_page : ℕ → SpPage → SpPage
init_new_page page_size p =
    let rest = (page_size - sp_header_size - 4) % mod_16 in
    record {
      bytes = λ k.
          if ltb k 2
          then 0
          else if k == 2
          then rest % 256
          else if k == 3
          then rest / 256
          else p.bytes k;
      slot = p.slot;
      header = record {
        no_records = 0;
        free_space = (page_size - sp_header_size) % mod_16;
        next_free_space = 0;
      };
    }

-- `(size + 7) & ~7` on 32 bits: the size rounded up to a multiple of eight.
abbrev pub align_8 : ℕ → ℕ
align_8 size = add_32 size 7 - add_32 size 7 % 8

-- The page after a record of the aligned size was added.
pub append_slot : SpPage → ℕ → SpPage
append_slot p record_size =
    let fresh : Slot = record {
      offset = p.next_free_space;
      size = record_size % mod_16;
      status = 1;
    } in
    record p {
      slot = λ i. if i == p.no_records then fresh else p.slot i;
      header = record {
        no_records = add_16 p.no_records 1;
        free_space = sub_16 p.free_space (add_32 record_size slot_size);
        next_free_space = add_16 p.next_free_space record_size;
      };
    }

-- The place for the record, the number of its slot, and the page.
unfoldable pub add_new_record : SpPage → ℕ → Option ℕ × ℕ × SpPage
unfolding append_slot
add_new_record p size =
    let q = append_slot p (align_8 size) in
    if leb (add_32 (align_8 size) slot_size) p.free_space
    then (some p.next_free_space, sub_16 q.no_records 1, q)
    else (none, sub_16 p.no_records 1, p)

unfoldable pub delete_record_soft : SpPage → ℕ → SpPage
delete_record_soft p record_no =
    let deleted = record (p.slot record_no) { status = 0 } in
    record p { slot = λ i. if i == record_no then deleted else p.slot i }

unfoldable pub get_record : SpPage → ℕ → Option ℕ
get_record p record_no =
    if leb p.no_records record_no
    then none
    else if (p.slot record_no).status == 0
    then none
    else some (p.slot record_no).offset

-- `std::memcpy(tplPtr, aTuple, aTupleSize)` of `insertTuple`, onto the record area.
unfoldable pub memcpy : SpPage → ℕ → List ℕ → SpPage
memcpy p at [] = p
memcpy p at (b ∷ bs) =
    memcpy (record p { bytes = λ k. if k == at then b else p.bytes k }) (at + 1) bs

-- `insertTuple` of segment/segment_fsm_sp.cc behind its choice of a page: a record is added for the
-- tuple and filled. A null pointer, for which `insertTuple` throws, is `none`.
pub store_tuple : SpPage → List ℕ → Option SpPage
store_tuple p bs = let r = add_new_record p (length bs) in Option.map (λ at. memcpy r.2 at bs) r.0
