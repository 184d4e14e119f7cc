-- ===== src/Segment/Records/Ready.antt =====
-- Segments with valid slotted pages, and the page that `insertTuple` is given.
use master_team_projekt.Prelude.{
  ℕ, zero, suc, ◌+◌, ◌≤◌, ◌<◌, ◌≡◌, ◌≢◌, refl, List, [], ◌∷◌, ◌++◌, some, length, get_elem?, ◌-◌,
  ◌*◌, ◌/◌, ◌⊎◌, inl, inr, arith,
}
use master_team_projekt.Prelude.Word.{mod_16, sub_32}
use master_team_projekt.Infra.Types.{TupleId}
use master_team_projekt.Infra.Headers.{sp_header_size}
use master_team_projekt.Interpreter.Sp.{SpPage, init_new_page, get_record, align_8, slot_size}
use master_team_projekt.Interpreter.Sp.Valid.{IsValid, init_new_page-IsValid}
use master_team_projekt.Interpreter.Sp.Records.{read_bytes}
use master_team_projekt.Segment.Space.{Space, IsSpace}
use master_team_projekt.Segment.State.{Segment}
use master_team_projekt.Segment.Fsm.{Choice}
use master_team_projekt.Segment.Fsm.Chain.{count, count-append}
use master_team_projekt.Segment.Fsm.Reserve.{IsReady, Keeps, Chosen, known, fresh}
use master_team_projekt.Segment.Fsm.Choose.{IsTooLarge}
use master_team_projekt.Segment.Records.{prepared}

-- A segment whose data pages are all valid slotted pages.
pub record HoldsTuples {P : Type 0} (space : Space P) (laws : IsSpace space) (s : Segment P)
    : Type 0 where
  pub ready : IsReady space laws s
  pub valid : (n : ℕ) → 0 < count n s.pages → IsValid s.page_size (s.sp_content n)
  pub large : sp_header_size + slot_size ≤ s.page_size
  pub small : s.page_size < mod_16

-- A data page has fewer free bytes than the tuple needs with its slot, rounded up.
abbrev pub IsCrowded : {P : Type 0} → List ℕ → Segment P → Type 0
IsCrowded bs s =
    (n : ℕ) × (0 < count n s.pages)
    × ((s.sp_content n).free_space < align_8 (length bs) + slot_size)

-- The tuple was not stored, since it is larger than a page offers, or since there is a data page without room
-- for it.
pub record NotInserted {P : Type 0} (space : Space P) (laws : IsSpace space) (s : Segment P)
    (bs : List ℕ) (t : Segment P) : Type 0 where
  pub holds : HoldsTuples space laws t
  pub tids : t.tids ≡ s.tids
  pub why :
      IsTooLarge (sub_32 s.page_size (sp_header_size + slot_size)) ((length bs + 7) / 8 * 8)
      ⊎ IsCrowded bs s

-- The records of `p` are found on `q`, with the same bytes.
pub record KeepsRecords (p q : SpPage) : Type 0 where
  pub place : (i : ℕ) → i < p.no_records → get_record q i ≡ get_record p i
  pub bytes :
      (i k : ℕ) → i < p.no_records → k < (p.slot i).offset + (p.slot i).size → q.bytes k ≡ p.bytes k

-- The tuple `bs` was stored as a new record `tid`, and all other tuples are where they were.
pub record Inserted {P : Type 0} (space : Space P) (laws : IsSpace space) (s : Segment P)
    (bs : List ℕ) (tid : TupleId) (t : Segment P) : Type 0 where
  pub holds : HoldsTuples space laws t
  pub on_page : 0 < count tid.page_no t.pages
  pub place : ℕ
  pub found : get_record (t.sp_content tid.page_no) tid.tuple_no ≡ some place
  pub content : read_bytes (t.sp_content tid.page_no) place (length bs) ≡ bs
  pub inside : place + length bs ≤ t.page_size
  pub tids : t.tids ≡ s.tids ++ (tid ∷ [])
  pub others :
      (n : ℕ)
      → 0 < count n s.pages
      → 0 < count n t.pages × KeepsRecords (s.sp_content n) (t.sp_content n)
  pub unused : 0 < count tid.page_no s.pages → (s.sp_content tid.page_no).no_records ≤ tid.tuple_no

init_free_space :
    (n : ℕ) (p : SpPage) → n < mod_16 → (init_new_page n p).free_space ≡ n - sp_header_size
unfolding init_new_page
init_free_space n p small = omega (arith, small)

module _ {P : Type 0} (space : Space P) (laws : IsSpace space) where
  -- The page that was chosen is one of the segment, and it is valid.
  pub record Ready (s : Segment P) (c : Choice) (t : Segment P) : Type 0 where
    pub holds : IsReady space laws t
    pub keeps : Keeps s t
    pub on_page : 0 < count c.page_no t.pages
    pub more : (n : ℕ) → 0 < count n s.pages → 0 < count n t.pages
    pub fewer : (n : ℕ) → 0 < count n t.pages → n ≢ c.page_no → 0 < count n s.pages
    pub is_valid : IsValid t.page_size (prepared c t)
    pub origin :
        (0 < count c.page_no s.pages) ⊎ ((prepared c t).free_space ≡ s.page_size - sp_header_size)
    pub same : 0 < count c.page_no s.pages → prepared c t ≡ s.sp_content c.page_no

  count-get_elem? : (xs : List ℕ) (k n : ℕ) → get_elem? xs k ≡ some n → 0 < count n xs
  count-get_elem? [] k n e = absurd cc
  count-get_elem? (x ∷ xs) zero n e = let i : x ≡ n = cc in ground (arith, i)
  count-get_elem? (x ∷ xs) (suc k) n e = omega (arith, count-get_elem? xs k n e)

  pub Chosen-Ready :
      (s : Segment P) (c : Choice) (t : Segment P)
      → HoldsTuples space laws s
      → Chosen space laws s c t
      → Ready s c t
  Chosen-Ready s c t h (known w k e same i found) =
      let on = count-get_elem? s.pages i c.page_no found in
      record {
        holds = w;
        keeps = k;
        on_page = rw same on;
        more = λ n m. rw same m;
        fewer = λ n m ne. rw same at m;
        is_valid = rw (e, k.0, k.3) (h.valid c.page_no on);
        origin = inl on;
        same = λ m. rw (e, k.0) refl;
      }
  Chosen-Ready s c t h (fresh w k e more none_yet) = record {
    holds = w;
    keeps = k;
    on_page =
        rw more (omega (arith, count-append c.page_no s.pages (c.page_no ∷ []), here c.page_no));
    more = λ n m. rw more (omega (arith, count-append n s.pages (c.page_no ∷ []), m));
    fewer = λ n m ne.
        let m' = rw more at m in ground (arith, count-append n s.pages (c.page_no ∷ []), m', ne);
    is_valid =
        rw (e, k.3)
          (init_new_page-IsValid s.page_size (t.sp_content c.page_no) (omega (arith, h.large))
            h.small);
    origin = inr (rw (e, k.3) (init_free_space s.page_size (t.sp_content c.page_no) h.small));
    same = λ m. absurd (omega (arith, none_yet, m));
  }
    where
      here : (n : ℕ) → count n (n ∷ []) ≡ 1
      here n = ground arith
