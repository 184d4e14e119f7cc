-- ===== src/Interpreter/Sp/Valid.antt =====
-- The layout of a slotted page, and that each operation of interpreter_sp.cc keeps it.
use master_team_projekt.Prelude.{
  ℕ, ◌+◌, ◌*◌, ◌%◌, ◌≤◌, ◌<◌, ◌≡◌, refl, ◌⊎◌, Option, none, some, true, leb, ◌==◌, if◌then◌else◌,
  Bool-cases, inl, inr, arith,
}
use master_team_projekt.Prelude.Word.{mod_32, mod_16, add_32, add_16, sub_16}
use master_team_projekt.Infra.Headers.{sp_header_size}
use master_team_projekt.Interpreter.Sp.{
  SpPage, init_new_page, align_8, append_slot, add_new_record, delete_record_soft, get_record,
  slot_size,
}

-- Records, free bytes, slots and header together are the page; the records lie in front of the free
-- bytes and do not overlap.
pub record IsValid (page_size : ℕ) (p : SpPage) : Type 0 where
  pub small : page_size < mod_16
  pub tiles :
      p.next_free_space + p.free_space + p.no_records * slot_size + sp_header_size ≡ page_size
  pub inside : (i : ℕ) → i < p.no_records → (p.slot i).offset + (p.slot i).size ≤ p.next_free_space
  pub apart :
      (i j : ℕ) → i < j → j < p.no_records → (p.slot i).offset + (p.slot i).size ≤ (p.slot j).offset

-- A new page whose header fits is valid and holds no record.
pub init_new_page-IsValid :
    (page_size : ℕ) (p : SpPage)
    → sp_header_size ≤ page_size
    → page_size < mod_16
    → IsValid page_size (init_new_page page_size p)
unfolding init_new_page
init_new_page-IsValid page_size p h small = record {
  small = small;
  tiles = omega arith;
  inside = λ i below. absurd (omega arith);
  apart = λ i j less below. absurd (omega arith);
}

pub align_8_bounds :
    (size : ℕ)
    → size + 7 < mod_32
    → (size ≤ align_8 size) × (align_8 size < size + 8) × (align_8 size % 8 ≡ 0)
align_8_bounds size h = omega arith

-- What `addNewRecord` promises when there is room: the record begins at the next free byte, the new
-- slot holds its place, the other slots and all bytes stay, and the page is valid.
pub record Adds (page_size : ℕ) (p : SpPage) (size : ℕ) (r : Option ℕ × ℕ × SpPage) : Type 0 where
  pub place : r.0 ≡ some p.next_free_space
  pub number : r.1 ≡ p.no_records
  pub one_more : (r.2).no_records ≡ p.no_records + 1
  pub fresh :
      (r.2).slot p.no_records
      ≡ record { offset = p.next_free_space; size = align_8 size; status = 1 }
  pub others : (i : ℕ) → i < p.no_records → (r.2).slot i ≡ p.slot i
  pub bytes : (r.2).bytes ≡ p.bytes
  pub space : (r.2).free_space + (align_8 size + slot_size) ≡ p.free_space
  pub valid : IsValid page_size r.2

append_slot-Adds :
    (page_size : ℕ) (p : SpPage) (size : ℕ)
    → IsValid page_size p
    → align_8 size + slot_size ≤ p.free_space
    → Adds page_size p size (
      some p.next_free_space,
      sub_16 (append_slot p (align_8 size)).no_records 1,
      append_slot p (align_8 size),
    )
unfolding append_slot
append_slot-Adds page_size p size v room = record {
  place = refl;
  number = omega (arith, v.tiles, v.small);
  one_more = omega (arith, v.tiles, v.small);
  fresh = rw fits (ground arith);
  others = λ i below. ground arith;
  bytes = refl;
  space = omega (arith, v.tiles, v.small);
  valid = record {
    small = v.small;
    tiles = omega (arith, v.tiles, v.small);
    inside = λ i below. rw (fits, next) (ground (arith, more, v.inside i));
    apart = λ i j less below. rw fits (ground (arith, more, v.apart i j, v.inside i));
  };
}
  where
    fits : align_8 size % mod_16 ≡ align_8 size
    fits = omega (arith, room, v.tiles, v.small)

    more : add_16 p.no_records 1 ≡ p.no_records + 1
    more = omega (arith, v.tiles, v.small)

    next : add_16 p.next_free_space (align_8 size) ≡ p.next_free_space + align_8 size
    next = omega (arith, room, v.tiles, v.small)

-- On a valid page `addNewRecord` either adds a record, and does so exactly if the aligned size and
-- one slot fit into the free bytes, or gives the null pointer and leaves the page as it is.
pub add_new_record_lem :
    (page_size : ℕ) (p : SpPage) (size : ℕ)
    → IsValid page_size p
    → size + 13 < mod_32
    → (align_8 size + slot_size ≤ p.free_space) × Adds page_size p size (add_new_record p size)
      ⊎ (p.free_space < align_8 size + slot_size)
        × ((add_new_record p size).0 ≡ none)
        × ((add_new_record p size).2 ≡ p)
unfolding add_new_record
add_new_record_lem page_size p size v small =
    elim (Bool-cases (leb (add_32 (align_8 size) slot_size) p.free_space)) [
      | inl e ↦ rw e (inl (room e, append_slot-Adds page_size p size v (room e)))
      | inr e ↦ rw e (inr (ground (arith, exact), refl, refl))
    ]
  where
    exact : add_32 (align_8 size) slot_size ≡ align_8 size + slot_size
    exact = omega arith

    room :
        leb (add_32 (align_8 size) slot_size) p.free_space ≡ true
        → align_8 size + slot_size ≤ p.free_space
    room e = ground (arith, exact)

-- Deleting a record of a valid page makes it unreadable, leaves every other record readable as
-- before, and keeps the page valid.
pub delete_record_soft_lem :
    (page_size : ℕ) (p : SpPage) (i : ℕ)
    → IsValid page_size p
    → let q = delete_record_soft p i in
      IsValid page_size q × ((j : ℕ) → get_record q j ≡ (if j == i then none else get_record p j))
unfolding delete_record_soft get_record
delete_record_soft_lem page_size p i v = (
  record {
    small = v.small;
    tiles = v.tiles;
    inside = λ j below. ground (arith, v.inside j below);
    apart = λ j k less below. ground (arith, v.apart j k less below);
  },
  λ j. ground arith,
)
