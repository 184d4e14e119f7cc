-- ===== src/Tuples/Stored.antt =====
-- A tuple of the catalogue on a slotted page.
use master_team_projekt.Prelude.{
  ℕ, ◌+◌, ◌^◌, ◌≤◌, ◌<◌, ◌≡◌, sym, ap, ◌∙◌, subst, Option, some, List, [], ◌++◌, length, inl, inr,
  arith,
}
use mathlib.Core.List.{append-nil}
use master_team_projekt.Prelude.Word.{mod_32}
use master_team_projekt.Interpreter.Sp.{SpPage, get_record, store_tuple, align_8, slot_size}
use master_team_projekt.Interpreter.Sp.Valid.{IsValid}
use master_team_projekt.Interpreter.Sp.Records.{store_tuple-Stores, read_bytes}
use master_team_projekt.Tuples.Bytes.{Reader, IsText}
use master_team_projekt.Tuples.Catalogue.{
  partition_tuple, partition_to_disk, partition_to_memory, segment_tuple, segment_to_disk,
  segment_to_memory,
}
use master_team_projekt.Tuples.Codec.{partition_to_memory-to_disk, segment_to_memory-to_disk}

-- A tuple of `size` bytes was stored as the next record of a page, and reading it there gives it back.
pub record ReadsBack {ℓ} {A : Type ℓ} (read : Reader A) (p : SpPage) (t : A) (size : ℕ)
    (r : Option SpPage) : Type ℓ where
  pub page : SpPage
  pub stored : r ≡ some page
  pub place : ℕ
  pub found : get_record page p.no_records ≡ some place
  pub tuple : read (read_bytes page place size) ≡ some (t, [])

stored-ReadsBack {ℓ} :
    {A : Type ℓ} (read : Reader A) (page_size : ℕ) (p : SpPage) (t : A) (bs : List ℕ) (size : ℕ)
    → IsValid page_size p
    → length bs ≡ size
    → size + 13 < mod_32
    → align_8 size + slot_size ≤ p.free_space
    → read (bs ++ []) ≡ some (t, [])
    → ReadsBack read p t size (store_tuple p bs)
stored-ReadsBack read page_size p t bs size v len small room e =
    elim (store_tuple-Stores page_size p bs v (omega (arith, len, small))) [
      | inr (full, _) ↦ absurd (omega (arith, full, len, room))
      | inl (_, q, made, w) ↦ record {
        page = q;
        stored = made;
        place = p.next_free_space;
        found = w.place;
        tuple =
            subst (λ n. read (read_bytes q p.next_free_space n) ≡ some (t, [])) len
              (ap read (w.content ∙ sym (append-nil bs)) ∙ e);
      }
    ]

-- A segment tuple whose aligned size and one slot fit into the free bytes of a valid page is stored there,
-- and reading its record gives it back.
pub segment_tuple-ReadsBack :
    (page_size : ℕ) (p : SpPage) (part_id id : ℕ) (name : List ℕ) (type first_page : ℕ)
    → IsValid page_size p
    → part_id < 2 ^ 8
    → id < 2 ^ 16
    → type < 2 ^ 8
    → first_page < 2 ^ 32
    → IsText name
    → let t = segment_tuple part_id id name type first_page in
      t.size + 13 < mod_32
      → align_8 t.size + slot_size ≤ p.free_space
      → ReadsBack segment_to_memory p t t.size (store_tuple p (segment_to_disk t))
segment_tuple-ReadsBack page_size p part_id id name type first_page v hp hi ht hf hn small room =
    let codec = segment_to_memory-to_disk part_id id name type first_page [] hp hi ht hf hn in
    stored-ReadsBack segment_to_memory page_size p _ _ _ v codec.1 small room codec.0

-- The same for a partition tuple.
pub partition_tuple-ReadsBack :
    (page_size : ℕ) (p : SpPage) (id : ℕ) (name path : List ℕ) (type growth : ℕ)
    → IsValid page_size p
    → id < 2 ^ 8
    → type < 2 ^ 8
    → growth < 2 ^ 16
    → IsText name
    → IsText path
    → let t = partition_tuple id name path type growth in
      t.size + 13 < mod_32
      → align_8 t.size + slot_size ≤ p.free_space
      → ReadsBack partition_to_memory p t t.size (store_tuple p (partition_to_disk t))
partition_tuple-ReadsBack page_size p id name path type growth v hi ht hg hn hp small room =
    let codec = partition_to_memory-to_disk id name path type growth [] hi ht hg hn hp in
    stored-ReadsBack partition_to_memory page_size p _ _ _ v codec.1 small room codec.0
