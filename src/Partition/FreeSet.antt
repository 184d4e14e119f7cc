-- ===== src/Partition/FreeSet.antt =====
-- The contract of `allocPage`: a partition is the set of its free pages, from which a page is removed.
use master_team_projekt.Prelude.{
  ℕ, refl, ◌+◌, ◌*◌, ◌≤◌, ◌<◌, ◌≡◌, ◌≢◌, sym, ◌∙◌, ap, subst, Bool, false, ◌==◌, if◌then◌else◌,
  Bool-cases, inl, inr, ==→≡, arith,
}
use master_team_projekt.Infra.Headers.{BasicHeader}
use master_team_projekt.Interpreter.Fsip.{FsipPage}
use master_team_projekt.Interpreter.Fsip.Valid.{IsValid, capacity}
use master_team_projekt.Interpreter.Fsip.Alloc.{Takes}
use master_team_projekt.Partition.Monad.{
  Partition, Result, bind, done, file_exception, partition_full, out_of_fuel,
}
use master_team_projekt.Partition.Base.{get_max_pages_per_fsip, alloc_page, close_file}
use master_team_projekt.Partition.Pages.{page_at, with_page, page_at-with_page}
use master_team_projekt.Partition.Alloc.{
  IsFormatted, fsip_at, Allocates, found, full, alloc_page-Allocates, offset_below,
}

-- Page `n` is the `i`-th page behind the indicator page `k`, which marks it as free.
pub record IsFree (st : Partition) (n : ℕ) : Type 0 where
  pub k : ℕ
  pub i : ℕ
  pub below : fsip_at st k < st.size_in_pages
  pub inside : i < capacity st.page_size
  pub number : n ≡ fsip_at st k + 1 + i
  pub is_free : (page_at st (fsip_at st k)).bits i ≡ false

pub step_index : (most a b : ℕ) → a < b → a * (most + 1) + (most + 1) ≤ b * (most + 1)
step_index most a b less = grind arith

pub same_index : (most j k : ℕ) → (j * (most + 1) == k * (most + 1)) ≡ (j == k)
same_index most j k = ground (arith, step_index most j k, step_index most k j)

-- Two places with one number are one place.
place_inj :
    (most k i k' i' : ℕ)
    → i < most
    → i' < most
    → k * (most + 1) + 1 + i ≡ k' * (most + 1) + 1 + i'
    → (k ≡ k') × (i ≡ i')
place_inj most k i k' i' h h' e = (same, ground (arith, same))
  where
    same : k ≡ k'
    same = ground (arith, step_index most k k', step_index most k' k)

module _ (st : Partition) (w : IsFormatted st) (k : ℕ) (below : fsip_at st k < st.size_in_pages)
    (q : FsipPage) where
  abbrev rewritten : Partition
  rewritten = with_page st (fsip_at st k) q

  -- Only the indicator page that was written is another one.
  pub page_at-rewritten :
      (j : ℕ)
      → fsip_at st j < st.size_in_pages
      → page_at rewritten (fsip_at st j) ≡ (if j == k then q else page_at st (fsip_at st j))
  page_at-rewritten j other =
      page_at-with_page st (fsip_at st k) (fsip_at st j) q (omega (arith, w.words))
        (offset_below st.page_size (fsip_at st k) st.size_in_pages (omega (arith, w.words)) below
          w.reach)
        (offset_below st.page_size (fsip_at st j) st.size_in_pages (omega (arith, w.words)) other
          w.reach)
      ∙ ap (λ b. if b then q else page_at st (fsip_at st j))
          (same_index (get_max_pages_per_fsip st.page_size) j k)

  pub IsFormatted-rewritten :
      IsValid st.page_size q → q.basic_header.page_index ≡ fsip_at st k → IsFormatted rewritten
  IsFormatted-rewritten valid place = record {
    opened = w.opened;
    aligned = w.aligned;
    words = w.words;
    reach = w.reach;
    room = w.room;
    fsip = λ j other. rw (page_at-rewritten j other) (ground (arith, w.fsip j other, valid));
    place = λ j other. rw (page_at-rewritten j other) (ground (arith, w.place j other, place));
  }

-- What it means that page `n` was removed from the free pages.
pub record Removes (st : Partition) (n : ℕ) (st' : Partition) : Type 0 where
  pub formatted : IsFormatted st'
  pub same_size : st'.size_in_pages ≡ st.size_in_pages
  pub was_free : IsFree st n
  pub kept : (m : ℕ) → IsFree st m → m ≢ n → IsFree st' m
  pub from_before : (m : ℕ) → IsFree st' m → IsFree st m × (m ≢ n)

Takes-Removes :
    (st : Partition) (w : IsFormatted st) (k : ℕ)
    → fsip_at st k < st.size_in_pages
    → (t : ℕ × FsipPage) → Takes st.page_size (page_at st (fsip_at st k)) t
    → Removes st t.0 (with_page st (fsip_at st k) t.1)
Takes-Removes st w k below t taken = record {
  formatted =
      IsFormatted-rewritten st w k below t.1 taken.valid
        (ap (λ (b : BasicHeader). b.page_index) taken.same_header.1 ∙ w.place k below);
  same_size = refl;
  was_free = record {
    k = k;
    i = pos;
    below = below;
    inside = taken.was_free.below;
    number = number;
    is_free = taken.was_free.is_free;
  };
  kept = λ m f ne. record {
    k = f.k;
    i = f.i;
    below = f.below;
    inside = f.inside;
    number = f.number;
    is_free = rw (seen f.k f.below) (still f ne);
  };
  from_before = λ m f. back f (rw (seen f.k f.below) at f.is_free);
}
  where
    pos : ℕ
    pos = (page_at st (fsip_at st k)).next_free_page

    number : t.0 ≡ fsip_at st k + 1 + pos
    number =
        omega
          (arith, taken.number, w.place k below, w.aligned, w.words, w.room, taken.was_free.below)

    seen :
        (j : ℕ)
        → fsip_at st j < st.size_in_pages
        → page_at (with_page st (fsip_at st k) t.1) (fsip_at st j)
          ≡ (if j == k then t.1 else page_at st (fsip_at st j))
    seen = page_at-rewritten st w k below t.1

    still :
        {m : ℕ} (f : IsFree st m)
        → m ≢ t.0
        → (if f.k == k then t.1 else page_at st (fsip_at st f.k)).bits f.i ≡ false
    still f ne = elim (Bool-cases (f.k == k)) [
      | inr other ↦ rw other f.is_free
      | inl same ↦
          rw same (ground (arith, taken.bits f.i, ==→≡ f.k k same, f.is_free, f.number, number))
    ]

    back :
        {m : ℕ} (f : IsFree (with_page st (fsip_at st k) t.1) m)
        → (if f.k == k then t.1 else page_at st (fsip_at st f.k)).bits f.i ≡ false
        → IsFree st m × (m ≢ t.0)
    back f free = elim (Bool-cases (f.k == k)) [
      | inr other ↦ (
        record {
          k = f.k;
          i = f.i;
          below = f.below;
          inside = f.inside;
          number = f.number;
          is_free = rw other at free;
        },
        λ e.
            let same =
              place_inj (get_max_pages_per_fsip st.page_size) f.k f.i k pos
                (omega (arith, f.inside, w.aligned, w.words))
                (omega (arith, taken.was_free.below, w.aligned, w.words))
                (sym f.number ∙ e ∙ number) in
            ground (arith, same.0),
      )
      | inl same ↦
          let here : (t.1).bits f.i ≡ false = rw same at free in
          (
            record {
              k = f.k;
              i = f.i;
              below = f.below;
              inside = f.inside;
              number = f.number;
              is_free = ground (arith, taken.bits f.i, here, ==→≡ f.k k same);
            },
            λ e. ground (arith, taken.bits f.i, here, ==→≡ f.k k same, f.number, number),
          )
    ]

abbrev IfDone : Partition → Result ℕ → Type 0
IfDone st (done n st') = Removes st n st'
IfDone st _ = Unit

IfDone-full :
    (st : Partition) (r : Result (Unit {0})) (page : FsipPage) (i : ℕ)
    → IfDone st (bind r (λ _. partition_full page i))
IfDone-full st (done _ _) page i = tt
IfDone-full st (file_exception _) page i = tt
IfDone-full st (partition_full _ _ _) page i = tt
IfDone-full st out_of_fuel page i = tt

-- Whenever `allocPage` returns a page of a formatted partition, that page was free, it is free no longer,
-- every other page is free exactly if it was, and the partition is still formatted and has its size.
pub alloc_page-Removes :
    (closes : Bool) (st st' : Partition) (n : ℕ)
    → IsFormatted st
    → 0 < st.size_in_pages
    → alloc_page closes st ≡ done n st'
    → Removes st n st'
alloc_page-Removes closes st st' n w some e =
    subst (IfDone st) e (by_outcome (alloc_page-Allocates closes st w some))
  where
    by_outcome : Allocates closes st (alloc_page closes st) → IfDone st (alloc_page closes st)
    by_outcome (found k below before t r) =
        subst (IfDone st) (sym r) (Takes-Removes st w k below _ t)
    by_outcome (full k below last before r) =
        subst (IfDone st) (sym r) (IfDone-full st (close_file closes st) _ _)
