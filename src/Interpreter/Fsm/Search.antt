-- ===== src/Interpreter/Fsm/Search.antt =====
-- `getFreePage` of interpreter_fsm.cc: the first page of the segment on which a request fits.
use master_team_projekt.Prelude.{
  ℕ, zero, suc, ◌+◌, ◌≤◌, ◌<◌, ◌≡◌, refl, ap, ◌∙◌, inl, inr, Option, none, some, false, ltb, ◌==◌,
  if◌then◌else◌, Bool-cases, Option-cases, ==→≡, ltb→lt, arith,
}
use master_team_projekt.Prelude.Word.{mod_32}
use master_team_projekt.Infra.Types.{invalid_32}
use master_team_projekt.Interpreter.Fsm.{
  FsmPage, change_page_status, get_page_status, find_fit, add_data_page, get_free_page,
  get_max_pages_per_fsm,
}
use master_team_projekt.Interpreter.Fsm.Nibbles.{IsBytes, get-change, change_page_status-IsBytes}

-- No page from `lo` to `hi - 1` has room for the level.
abbrev pub NoFit : FsmPage → ℕ → ℕ → ℕ → Type 0
NoFit p status lo hi = (i : ℕ) → lo ≤ i → i < hi → 16 ≤ get_page_status p i + status

abbrev pub Fits : FsmPage → ℕ → ℕ → ℕ → Option ℕ → Type 0
Fits p status lo hi none = NoFit p status lo hi
Fits p status lo hi (some i) =
    (lo ≤ i) × (i < hi) × (get_page_status p i + status < 16) × NoFit p status lo i

NoFit-step :
    (p : FsmPage) (status lo hi : ℕ)
    → ltb (get_page_status p lo + status) 16 ≡ false
    → NoFit p status (lo + 1) hi
    → NoFit p status lo hi
NoFit-step p status lo hi e f i above below = elim (Bool-cases (i == lo)) [
  | inl same ↦ rw (==→≡ i lo same) (ground arith)
  | inr other ↦ f i (ground arith) below
]

pub find_fit-Fits :
    (p : FsmPage) (status n lo : ℕ) → Fits p status lo (lo + n) (find_fit p status n lo)
unfolding find_fit
find_fit-Fits p status zero lo = λ i above below. absurd (omega arith)
find_fit-Fits p status (suc n) lo = elim (Bool-cases (ltb (get_page_status p lo + status) 16)) [
  | inl e ↦ rw e (omega arith, omega arith, ltb→lt _ _ e, λ i above below. absurd (omega arith))
  | inr e ↦ rw e (later (find_fit p status n (lo + 1)) e (find_fit-Fits p status n (lo + 1)))
]
  where
    later :
        (r : Option ℕ)
        → ltb (get_page_status p lo + status) 16 ≡ false
        → Fits p status (lo + 1) (lo + 1 + n) r
        → Fits p status lo (lo + suc n) r
    later none e f =
        NoFit-step p status lo (lo + suc n) e (λ i above below. f i above (omega arith))
    later (some j) e (a, b, c, f) = (omega arith, omega arith, c, NoFit-step p status lo j e f)

-- What `getFreePage` promises for a request of some level: either it names the first page with room
-- and adds the level there, or there is none and it names the next page and sets its level, or the
-- management page is full as well and nothing changes.
pub data Outcome (page_size : ℕ) (p : FsmPage) (status : ℕ) (r : ℕ × FsmPage) : Type 0 where
  existing :
      r.0 < p.no_pages
      → get_page_status p r.0 + status < 16
      → NoFit p status 0 r.0
      → ((j : ℕ)
          → get_page_status r.1 j
            ≡ (if j == r.0 then get_page_status p r.0 + status else get_page_status p j))
      → (r.1).header ≡ p.header
      → Outcome page_size p status r
  added :
      r.0 ≡ p.no_pages
      → p.no_pages < get_max_pages_per_fsm page_size
      → NoFit p status 0 p.no_pages
      → ((j : ℕ) → get_page_status r.1 j ≡ (if j == r.0 then status else get_page_status p j))
      → (r.1).no_pages ≡ p.no_pages + 1
      → Outcome page_size p status r
  refused :
      r ≡ (invalid_32, p)
      → get_max_pages_per_fsm page_size ≤ p.no_pages
      → NoFit p status 0 p.no_pages
      → Outcome page_size p status r

-- The level of a page is read from the bytes alone.
get_page_status-congr :
    (p q : FsmPage) (j : ℕ) → p.bytes ≡ q.bytes → get_page_status p j ≡ get_page_status q j
unfolding get_page_status
get_page_status-congr p q j e = rw e

change_page_status-header : (p : FsmPage) (i s : ℕ) → (change_page_status p i s).header ≡ p.header
unfolding change_page_status
change_page_status-header p i s = refl

add_data_page-Outcome :
    (page_size : ℕ) (p : FsmPage) (status : ℕ)
    → IsBytes p
    → status < 16
    → get_max_pages_per_fsm page_size < mod_32
    → NoFit p status 0 p.no_pages
    → Outcome page_size p status (add_data_page page_size p status)
unfolding add_data_page
add_data_page-Outcome page_size p status bytes small room f =
    elim (Bool-cases (ltb p.no_pages (get_max_pages_per_fsm page_size))) [
      | inl e ↦ rw e (
          added refl (ltb→lt _ _ e) f
            (λ j.
              get_page_status-congr _ (change_page_status p p.no_pages status) j refl
              ∙ get-change p p.no_pages status j bytes small)
            (omega (arith, ltb→lt _ _ e)))
      | inr e ↦ rw e (refused refl (ground arith) f)
    ]

add_data_page-IsBytes :
    (page_size : ℕ) (p : FsmPage) (status : ℕ)
    → IsBytes p
    → status < 16
    → IsBytes (add_data_page page_size p status).1
unfolding add_data_page
add_data_page-IsBytes page_size p status bytes small k =
    ground (arith, bytes k, change_page_status-IsBytes p p.no_pages status bytes small k)

-- On a page of bytes, for a level up to fifteen, `getFreePage` takes the first page of the segment
-- with room for the level and adds the level to that page alone; if no known page has room, the
-- next page gets the level; and only if the management page is full does it refuse.
pub get_free_page-Outcome :
    (page_size : ℕ) (p : FsmPage) (status : ℕ)
    → IsBytes p
    → status < 16
    → get_max_pages_per_fsm page_size < mod_32
    → Outcome page_size p status (get_free_page page_size p status)
unfolding get_free_page
get_free_page-Outcome page_size p status bytes small room =
    by_search (find_fit p status p.no_pages 0) refl (find_fit-Fits p status p.no_pages 0)
  where
    by_search :
        (o : Option ℕ)
        → find_fit p status p.no_pages 0 ≡ o
        → Fits p status 0 (0 + p.no_pages) o
        → Outcome page_size p status (get_free_page page_size p status)
    by_search none e f =
        rw (e, get_free_page)
          (add_data_page-Outcome page_size p status bytes small room
            (λ i above below. f i above (omega arith)))
    by_search (some i) e (_, below, fits, before) =
        rw (e, get_free_page)
          (existing (omega arith) fits before
            (λ j. get-change p i (get_page_status p i + status) j bytes fits)
            (change_page_status-header p i _))

pub get_free_page-IsBytes :
    (page_size : ℕ) (p : FsmPage) (status : ℕ)
    → IsBytes p
    → status < 16
    → IsBytes (get_free_page page_size p status).1
unfolding get_free_page
get_free_page-IsBytes page_size p status bytes small =
    by_search (find_fit p status p.no_pages 0) refl (find_fit-Fits p status p.no_pages 0)
  where
    by_search :
        (o : Option ℕ)
        → find_fit p status p.no_pages 0 ≡ o
        → Fits p status 0 (0 + p.no_pages) o
        → IsBytes (get_free_page page_size p status).1
    by_search none e f =
        rw (e, get_free_page) (add_data_page-IsBytes page_size p status bytes small)
    by_search (some i) e f = rw (e, get_free_page) (change_page_status-IsBytes p i _ bytes f.2)

-- Whatever is asked for, the next management page stays.
pub get_free_page-next_fsm :
    (page_size : ℕ) (p : FsmPage) (status : ℕ)
    → (get_free_page page_size p status).1.next_fsm ≡ p.next_fsm
unfolding get_free_page add_data_page change_page_status
get_free_page-next_fsm page_size p status = elim (Option-cases (find_fit p status p.no_pages 0)) [
  | inr (i, e) ↦
      rw (e, get_free_page)
        (ap (λ h. h.next_fsm) (change_page_status-header p i (get_page_status p i + status)))
  | inl e ↦ elim (Bool-cases (ltb p.no_pages (get_max_pages_per_fsm page_size))) [
    | inl fits ↦
        rw (e, get_free_page, add_data_page, fits)
          (ap (λ h. h.next_fsm) (change_page_status-header p p.no_pages status))
    | inr fits ↦ rw (e, get_free_page, add_data_page, fits) refl
  ]
]
