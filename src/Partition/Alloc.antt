-- ===== src/Partition/Alloc.antt =====
-- `PartitionBase::allocPage`: the search through the indicator pages of a well-formed partition.
use master_team_projekt.Prelude.{
  ℕ, zero, suc, ◌+◌, ◌*◌, ◌%◌, ◌≤◌, ◌<◌, ◌≡◌, refl, ap, subst, Bool, true, false, leb, ◌==◌,
  if◌then◌else◌, Bool-cases, inl, inr, ==→≡, arith,
}
use master_team_projekt.Prelude.Word.{mod_32, add_32}
use master_team_projekt.Infra.Types.{invalid_32}
use master_team_projekt.Interpreter.Fsip.{FsipPage, get_new_page}
use master_team_projekt.Interpreter.Fsip.Valid.{IsValid}
use master_team_projekt.Interpreter.Fsip.Alloc.{Takes, get_new_page-Takes, get_new_page_full}
use master_team_projekt.Partition.Monad.{Partition, Result, M, bind, done, partition_full, return}
use master_team_projekt.Partition.Base.{
  close_file, get_max_pages_per_fsip, alloc_on, alloc_from, alloc_page,
}
use master_team_projekt.Partition.Pages.{page_at, with_page, read_page_open, write_page_open}

-- The index of the indicator page with number `k`.
abbrev pub fsip_at : Partition → ℕ → ℕ
fsip_at st k = k * (get_max_pages_per_fsip st.page_size + 1)

-- An open partition whose offsets fit into 32 bits and whose indicator pages are all valid and know
-- where they stand.
pub record IsFormatted (st : Partition) : Type 0 where
  pub opened : st.file_open ≡ true
  pub aligned : st.page_size % 4 ≡ 0
  pub words : 36 ≤ st.page_size
  pub reach : st.size_in_pages * st.page_size ≤ mod_32
  pub room : st.size_in_pages + get_max_pages_per_fsip st.page_size + 1 < mod_32
  pub fsip :
      (k : ℕ) → fsip_at st k < st.size_in_pages → IsValid st.page_size (page_at st (fsip_at st k))
  pub place :
      (k : ℕ)
      → fsip_at st k < st.size_in_pages
      → (page_at st (fsip_at st k)).basic_header.page_index ≡ fsip_at st k

-- How `allocPage` ends: with a page number, after the first free page of the indicator page `k` was
-- taken, where none before it has a free page; or with the exception that the partition is full, when
-- no indicator page has one, which carries the last indicator page.
pub data Allocates (closes : Bool) (st : Partition) (r : Result ℕ) : Type 0 where
  found :
      (k : ℕ)
      → fsip_at st k < st.size_in_pages
      → ((j : ℕ) → j < k → (page_at st (fsip_at st j)).free_blocks_count ≡ 0)
      → Takes st.page_size
          (page_at st (fsip_at st k))
          (get_new_page st.page_size (page_at st (fsip_at st k)))
      → r
        ≡ done
            (get_new_page st.page_size (page_at st (fsip_at st k))).0
            (with_page st (fsip_at st k) (get_new_page st.page_size (page_at st (fsip_at st k))).1)
      → Allocates closes st r
  full :
      (k : ℕ)
      → fsip_at st k < st.size_in_pages
      → st.size_in_pages ≤ fsip_at st (k + 1)
      → ((j : ℕ) → j ≤ k → (page_at st (fsip_at st j)).free_blocks_count ≡ 0)
      → r
        ≡ bind
            (close_file closes st)
            (λ _. partition_full (page_at st (fsip_at st k)) (fsip_at st k))
      → Allocates closes st r

pub offset_below : (size i n : ℕ) → 0 < size → i < n → n * size ≤ mod_32 → i * size < mod_32
offset_below size i n pos less h = grind (arith, step i n less)
  where
    step : (i n : ℕ) → i < n → i * size + size ≤ n * size
    step i n less = grind arith

module _ (closes : Bool) (st : Partition) (w : IsFormatted st) where
  abbrev here : ℕ → FsipPage
  here k = page_at st (fsip_at st k)

  -- The round at indicator page `k`, when a page is free there.
  alloc_on-found :
      (next : ℕ → M ℕ) (k : ℕ)
      → fsip_at st k < st.size_in_pages
      → Takes st.page_size (here k) (get_new_page st.page_size (here k))
      → let t = get_new_page st.page_size (here k) in
        alloc_on closes next (fsip_at st k) (here k) st ≡ done t.0 (with_page st (fsip_at st k) t.1)
  unfolding alloc_on
  alloc_on-found next k below t =
      rw number
        (ap (λ r. bind r (λ _. return t'.0)) (write_page_open st (fsip_at st k) t'.1 w.opened))
    where
      t' : ℕ × FsipPage
      t' = get_new_page st.page_size (here k)

      number : (t'.0 == invalid_32) ≡ false
      number =
          ground (arith, t.number, w.place k below, w.aligned, w.words, w.room, t.was_free.below)

  alloc_on-full :
      (next : ℕ → M ℕ) (k : ℕ)
      → fsip_at st k < st.size_in_pages
      → (here k).free_blocks_count ≡ 0
      → alloc_on closes next (fsip_at st k) (here k) st ≡ (
          if leb st.size_in_pages (fsip_at st (k + 1))
          then bind (close_file closes st) (λ _. partition_full (here k) (fsip_at st k))
          else next (fsip_at st (k + 1)) st)
  unfolding alloc_on
  alloc_on-full next k below none_free =
      rw (get_new_page_full st.page_size (here k) none_free, index) refl
    where
      index : add_32 (fsip_at st k) (1 + get_max_pages_per_fsip st.page_size) ≡ fsip_at st (k + 1)
      index = omega (arith, w.room)

  alloc_from-Allocates :
      (fuel k : ℕ)
      → fsip_at st k < st.size_in_pages
      → st.size_in_pages < fsip_at st k + fuel
      → ((j : ℕ) → j < k → (here j).free_blocks_count ≡ 0)
      → Allocates closes st (alloc_from closes fuel (fsip_at st k) st)
  unfolding alloc_from
  alloc_from-Allocates zero k below enough before = absurd (omega arith)
  alloc_from-Allocates (suc fuel) k below enough before =
      rw (read_page_open st (fsip_at st k) w.opened)
        (elim (Bool-cases ((here k).free_blocks_count == 0)) [
          | inr e ↦
              let t = get_new_page-Takes st.page_size (here k) (w.fsip k below) (ground arith) in
              found k below before t (alloc_on-found (alloc_from closes fuel) k below t)
          | inl e ↦
              rw (alloc_on-full (alloc_from closes fuel) k below (==→≡ _ _ e))
                (elim (Bool-cases (leb st.size_in_pages (fsip_at st (k + 1)))) [
                  | inl last ↦ rw last (full k below (ground arith) (upto k e) refl)
                  | inr more ↦ rw more (
                      alloc_from-Allocates fuel (k + 1) (ground arith) (omega arith)
                        (λ j less. upto k e j (omega arith)))
                ])
        ])
    where
      upto :
          (k' : ℕ)
          → ((here k).free_blocks_count == 0) ≡ true
          → (j : ℕ) → j ≤ k
          → (here j).free_blocks_count ≡ 0
      upto k' e j less = elim (Bool-cases (j == k)) [
        | inl same ↦ rw (==→≡ j k same) (==→≡ _ _ e)
        | inr other ↦ before j (ground arith)
      ]

-- On a formatted partition that is not empty, `allocPage` always ends: it takes the first free page of
-- the first indicator page that has one, or closes the file once and reports the partition as full,
-- exactly when no indicator page has a free page.
pub alloc_page-Allocates :
    (closes : Bool) (st : Partition)
    → IsFormatted st
    → 0 < st.size_in_pages
    → Allocates closes st (alloc_page closes st)
unfolding alloc_page
alloc_page-Allocates closes st w some =
    subst (λ i. Allocates closes st (alloc_from closes (st.size_in_pages + 1) i st)) (omega arith)
      (alloc_from-Allocates closes st w (st.size_in_pages + 1) 0 (omega arith) (omega arith)
        (λ j less. absurd (omega arith)))
