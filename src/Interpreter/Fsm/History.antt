-- ===== src/Interpreter/Fsm/History.antt =====
-- Many requests, one after the other: `SegmentFSM::getFreePage` asks `calcPageStatus` for the level
-- of each request and `getFreePage` for a page. The ghost `load` adds up the bytes that each page of
-- the segment was chosen for.
use master_team_projekt.Prelude.{
  ℕ, ◌+◌, ◌*◌, ◌/◌, ◌≤◌, ◌<◌, ◌≡◌, refl, ap, List, [], ◌∷◌, ◌==◌, if◌then◌else◌, Bool-cases, ==→≡,
  inl, inr, arith,
}
use master_team_projekt.Prelude.Word.{mod_32}
use master_team_projekt.Infra.Types.{PageStatus, invalid_32}
use master_team_projekt.Infra.Headers.{FsmHeader}
use master_team_projekt.Interpreter.Fsm.{
  FsmPage, get_page_status, get_free_page, calc_page_status, get_max_pages_per_fsm,
}
use master_team_projekt.Interpreter.Fsm.Nibbles.{IsBytes, get_page_status-lt}
use master_team_projekt.Interpreter.Fsm.Search.{
  Outcome, existing, added, refused, get_free_page-Outcome, get_free_page-IsBytes,
}
use master_team_projekt.Interpreter.Fsm.Status.{calc_page_status_lem}

pub record Ledger : Type 0 where
  pub page : FsmPage
  pub load : ℕ → ℕ

-- A request that no page takes, or that is too large for any, loads nothing.
pub book : Ledger → ℕ → ℕ × FsmPage → Ledger
book l n (i, q) = record {
  page = q;
  load = if i == invalid_32 then l.load else λ k. if k == i then l.load k + n else l.load k;
}

pub request : ℕ → ℕ → Ledger → ℕ → Ledger
request page_size size l n = elim (calc_page_status size n) [
  | PageStatus.no_type ↦ l
  | PageStatus.bucket s ↦ book l n (get_free_page page_size l.page s)
]

pub requests : ℕ → ℕ → Ledger → List ℕ → Ledger
requests page_size size l [] = l
requests page_size size l (n ∷ ns) = requests page_size size (request page_size size l n) ns

-- The level of each page covers its load, and nothing is loaded on a page that is not yet known.
pub record Covers (size : ℕ) (l : Ledger) : Type 0 where
  pub bytes : IsBytes l.page
  pub covered : (i : ℕ) → l.load i ≤ get_page_status l.page i * (size / 15)
  pub unknown : (i : ℕ) → l.page.no_pages ≤ i → l.load i ≡ 0

book-Covers :
    (page_size size n s : ℕ) (l : Ledger)
    → Covers size l
    → get_max_pages_per_fsm page_size < mod_32
    → s ≤ 15
    → n ≤ s * (size / 15)
    → (r : ℕ × FsmPage) → IsBytes r.1
    → Outcome page_size l.page s r
    → Covers size (book l n r)
unfolding book
book-Covers page_size size n s l c room small fits (i, q) bytes
      (existing below ok before levels same) =
    record {
      bytes = bytes;
      covered = λ k. elim (Bool-cases (k == i)) [
        | inl e ↦ rw (levels k, e) (ground (arith, c.covered k, ==→≡ k i e, fits))
        | inr e ↦ rw (levels k, e) (ground (arith, c.covered k))
      ];
      unknown = λ k h. ground (arith, c.unknown k, ap (λ (x : FsmHeader). x.no_pages) same);
    }
book-Covers page_size size n s l c room small fits (i, q) bytes
      (added next more before levels known) =
    record {
      bytes = bytes;
      covered = λ k. elim (Bool-cases (k == i)) [
        | inl e ↦ rw (levels k, e) (ground (arith, c.unknown k, ==→≡ k i e, fits))
        | inr e ↦ rw (levels k, e) (ground (arith, c.covered k))
      ];
      unknown = λ k h. ground (arith, c.unknown k);
    }
book-Covers page_size size n s l c room small fits (i, q) bytes (refused e full before) =
    let f : q ≡ l.page = ap (λ (x : ℕ × FsmPage). x.1) e in
    let g : i ≡ invalid_32 = ap (λ (x : ℕ × FsmPage). x.0) e in
    record {
      bytes = bytes;
      covered = λ k. rw (f, g) (c.covered k);
      unknown = λ k h. rw g (c.unknown k (rw f at h));
    }

request-Covers :
    (page_size size n : ℕ) (l : Ledger)
    → 15 ≤ size
    → get_max_pages_per_fsm page_size < mod_32
    → Covers size l
    → Covers size (request page_size size l n)
unfolding request
request-Covers page_size size n l large room c = by_status (calc_page_status size n) refl
  where
    by_status :
        (r : PageStatus) → calc_page_status size n ≡ r → Covers size (request page_size size l n)
    by_status PageStatus.no_type e = rw (e, request) c
    by_status (PageStatus.bucket s) e =
        let (small, _, fits, _) = (calc_page_status_lem size n s large).0 e in
        rw (e, request)
          (book-Covers page_size size n s l c room small fits (get_free_page page_size l.page s)
            (get_free_page-IsBytes page_size l.page s c.bytes (omega arith))
            (get_free_page-Outcome page_size l.page s c.bytes (omega arith) room))

requests-Covers :
    (page_size size : ℕ) (l : Ledger) (ns : List ℕ)
    → 15 ≤ size
    → get_max_pages_per_fsm page_size < mod_32
    → Covers size l
    → Covers size (requests page_size size l ns)
unfolding requests
requests-Covers page_size size l [] large room c = c
requests-Covers page_size size l (n ∷ ns) large room c =
    requests-Covers page_size size (request page_size size l n) ns large room
      (request-Covers page_size size n l large room c)

-- However many requests are made of whatever sizes, starting from any levels, the bytes that a page
-- is chosen for never exceed its size.
pub requests-load-le :
    (page_size size : ℕ) (p : FsmPage) (ns : List ℕ) (i : ℕ)
    → IsBytes p
    → 15 ≤ size
    → get_max_pages_per_fsm page_size < mod_32
    → (requests page_size size (record { page = p; load = λ k. 0 }) ns).load i ≤ size
requests-load-le page_size size p ns i bytes large room =
    let c =
      requests-Covers page_size size (record { page = p; load = λ k. 0 }) ns large room
        (record { bytes = bytes; covered = λ k. omega arith; unknown = λ k h. refl }) in
    bound (get_page_status-lt _ i c.bytes) (c.covered i)
  where
    bound : {a s : ℕ} → s < 16 → a ≤ s * (size / 15) → a ≤ size
    bound {a} {s} h k = grind (arith, at_most s (omega arith))
      where
        at_most : (s : ℕ) → s ≤ 15 → s * (size / 15) ≤ 15 * (size / 15)
        at_most s h = grind arith
