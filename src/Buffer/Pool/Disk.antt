-- ===== src/Buffer/Pool/Disk.antt =====
-- The partitions of partition_base.cc as the disk of the buffer: `flush` and `readPage` of buf_mngr.cc open a
-- partition, which is closed between the calls, write or read a page, and close it.
use master_team_projekt.Prelude.{
  ℕ, ◌*◌, ◌%◌, ◌<◌, ◌≡◌, ◌≢◌, refl, sym, ap, ◌∙◌, Bool, true, false, Option, none, some, ◌==◌, ltb,
  ltb→lt, if◌then◌else◌, Bool-cases, inl, inr, ==→≡, arith,
}
use mathlib.Core.Option.{some_inj}
use master_team_projekt.Prelude.Word.{mod_32}
use master_team_projekt.Infra.Types.{PageId, page_id_eq, page_id_eq_iff}
use master_team_projekt.Interpreter.Fsip.{FsipPage}
use master_team_projekt.Partition.Monad.{
  Partition, M, Result, ◌>>=◌, ◌>>◌, return, done, file_exception, partition_full, out_of_fuel,
}
use master_team_projekt.Partition.Base.{open_file, close_file, read_page, write_page}
use master_team_projekt.Partition.Pages.{offset_inj}
use master_team_projekt.Buffer.Pool.{Frame, Device}
use master_team_projekt.Buffer.Pool.Coherent.{IsDevice}

-- The pages of each file, by its id and their offset.
abbrev pub Files : Type 0
Files = ℕ → ℕ → FsipPage

-- The result of a call on a partition and the pages that it leaves; `none` for an exception.
abbrev pub outcome {ℓ} : {A : Type ℓ} → Result A → Option (A × (ℕ → FsipPage))
outcome (done a st) = some (a, st.disk)
outcome (file_exception st) = none
outcome (partition_full page i st) = none
outcome out_of_fuel = none

abbrev pub read_of : Option (FsipPage × (ℕ → FsipPage)) → Option Frame
read_of none = none
read_of (some (c, pages)) = some c

abbrev pub write_of : ℕ → Files → Option (Unit {0} × (ℕ → FsipPage)) → Option Files
write_of id d none = none
write_of id d (some (u, pages)) = some (λ i. if i == id then pages else d i)

-- The partitions have the same page size; the calls of the system succeed or fail for each partition alike.
module _ (page_size size_in_pages : ℕ) (trace opens closes : Bool) where
  -- A partition between two calls.
  abbrev pub closed : ℕ → Files → Partition
  closed id d = record {
    page_size = page_size;
    size_in_pages = size_in_pages;
    partition_id = id;
    open_count = 0;
    file_open = false;
    trace = trace;
    disk = d id;
  }

  unfoldable pub read_closed : ℕ → M FsipPage
  read_closed i = open_file opens >> (read_page i >>= (λ c. close_file closes >> return c))

  unfoldable pub write_closed : FsipPage → ℕ → M (Unit {0})
  write_closed c i = open_file opens >> (write_page c i >> close_file closes)

  abbrev pub partitions : Device Files
  partitions = record {
    serves = λ p. ltb (p.page_no * page_size) mod_32;
    read_page = λ p d. read_of (outcome (read_closed p.page_no (closed p.file_id d)));
    write_page =
        λ p c d. write_of p.file_id d (outcome (write_closed c p.page_no (closed p.file_id d)));
  }

module _ (page_size size_in_pages : ℕ) (trace : Bool) where
  -- A page that is read, if the calls of the system succeed.
  when_ok : {A : Type 0} → Bool → Bool → A → Option A
  when_ok true true a = some a
  when_ok true false a = none
  when_ok false b a = none

  read_closed_lem :
      (opens closes : Bool) (id i : ℕ) (d : Files)
      → read_of (
          outcome (
            read_closed page_size size_in_pages trace opens closes i
              (closed page_size size_in_pages trace opens closes id d)))
        ≡ when_ok opens closes (d id (i * page_size % mod_32))
  unfolding read_closed open_file close_file read_page when_ok
  read_closed_lem true true id i d = refl
  read_closed_lem true false id i d = refl
  read_closed_lem false b id i d = refl

  write_closed_lem :
      (opens closes : Bool) (id i : ℕ) (c : FsipPage) (d : Files)
      → write_of id d (
          outcome (
            write_closed page_size size_in_pages trace opens closes c i
              (closed page_size size_in_pages trace opens closes id d)))
        ≡ when_ok opens closes
            (λ k. if k == id then (λ o. if o == i * page_size % mod_32 then c else d id o) else d k)
  unfolding write_closed open_file close_file write_page when_ok
  write_closed_lem true true id i c d = refl
  write_closed_lem true false id i c d = refl
  write_closed_lem false b id i c d = refl

module _ (page_size : ℕ) (positive : 0 < page_size) where
  offset : PageId → ℕ
  offset p = p.page_no * page_size % mod_32

  written : PageId → FsipPage → Files → Files
  written p c d k =
      if k == p.file_id then (λ o. if o == offset p then c else d p.file_id o) else d k

  written_self : (p : PageId) (c : FsipPage) (d : Files) → written p c d p.file_id (offset p) ≡ c
  unfolding written
  written_self p c d =
      let e : (p.file_id == p.file_id) ≡ true = ground arith in
      let f : (offset p == offset p) ≡ true = ground arith in rw (e, f) refl

  same_page :
      (p q : PageId)
      → (q.file_id == p.file_id) ≡ true
      → p.page_no * page_size < mod_32
      → q.page_no * page_size < mod_32
      → offset q ≡ offset p
      → q ≡ p
  unfolding offset page_id_eq
  same_page p q e hp hq same =
      (page_id_eq_iff q p).0
        (ground (arith, e, offset_inj page_size q.page_no p.page_no positive hq hp same))

  written_other :
      (p q : PageId) (c : FsipPage) (d : Files)
      → q ≢ p
      → p.page_no * page_size < mod_32
      → q.page_no * page_size < mod_32
      → written p c d q.file_id (offset q) ≡ d q.file_id (offset q)
  unfolding written
  written_other p q c d ne hp hq = elim (Bool-cases (q.file_id == p.file_id)) [
    | inr e ↦ rw e refl
    | inl e ↦ rw e (elim (Bool-cases (offset q == offset p)) [
      | inr f ↦ rw f (ap (λ k. d k (offset q)) (sym (==→≡ q.file_id p.file_id e)))
      | inl f ↦ absurd (ne (same_page p q e hp hq (==→≡ (offset q) (offset p) f)))
    ])
  ]

pub partitions-IsDevice :
    (page_size size_in_pages : ℕ) (trace opens closes : Bool)
    → 0 < page_size
    → IsDevice (partitions page_size size_in_pages trace opens closes)
unfolding when_ok offset written
partitions-IsDevice n m trace true true pos = record {
  read-write = λ p c d d' hp e.
      let is : written n pos p c d ≡ d' =
        some_inj.0 (sym (write_closed_lem n m trace true true p.file_id p.page_no c d) ∙ e) in
      read_closed_lem n m trace true true p.file_id p.page_no d'
      ∙ ap some (sym (ap (λ x. x p.file_id (offset n pos p)) is) ∙ written_self n pos p c d);
  read-write_ne = λ p q c d d' ne hp hq e.
      let is : written n pos p c d ≡ d' =
        some_inj.0 (sym (write_closed_lem n m trace true true p.file_id p.page_no c d) ∙ e) in
      read_closed_lem n m trace true true q.file_id q.page_no d'
      ∙ ap some (
          sym (ap (λ x. x q.file_id (offset n pos q)) is)
          ∙ written_other n pos p q c d ne (ltb→lt _ _ hp) (ltb→lt _ _ hq))
      ∙ sym (read_closed_lem n m trace true true q.file_id q.page_no d);
}
partitions-IsDevice n m trace true false pos = record {
  read-write = λ p c d d' hp e.
      absurd (no_write (sym (write_closed_lem n m trace true false p.file_id p.page_no c d) ∙ e));
  read-write_ne = λ p q c d d' ne hp hq e.
      absurd (no_write (sym (write_closed_lem n m trace true false p.file_id p.page_no c d) ∙ e));
}
  where
    no_write : {d : Files} → ◌≡◌ {A = Option Files} none (some d) → ⊥
    no_write e = cc
partitions-IsDevice n m trace false b pos = record {
  read-write = λ p c d d' hp e.
      absurd (no_write (sym (write_closed_lem n m trace false b p.file_id p.page_no c d) ∙ e));
  read-write_ne = λ p q c d d' ne hp hq e.
      absurd (no_write (sym (write_closed_lem n m trace false b p.file_id p.page_no c d) ∙ e));
}
  where
    no_write : {d : Files} → ◌≡◌ {A = Option Files} none (some d) → ⊥
    no_write e = cc
