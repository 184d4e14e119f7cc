-- ===== src/Segment/Records/Scan.antt =====
-- `scan`: the tuple ids of a segment.
use master_team_projekt.Prelude.{
  ℕ, zero, suc, ◌+◌, ◌≡◌, refl, ap, ◌∙◌, List, [], ◌∷◌, ◌++◌, Option, none, some, Bool, true, false,
  ltb, leb, ◌==◌, ◌&&◌, ◌||◌, Bool-cases, ==→≡, inl, inr, arith,
}
use master_team_projekt.Infra.Types.{TupleId}
use master_team_projekt.Interpreter.Sp.{SpPage, get_record}
use master_team_projekt.Segment.State.{Segment}
use master_team_projekt.Segment.Records.{contains, push_found, scan_page, scan_pages, scan}

-- Whether a tuple id is in a list.
abbrev pub lists : TupleId → List TupleId → Bool
lists t [] = false
lists t (x ∷ xs) = x.page_no == t.page_no && x.tuple_no == t.tuple_no || lists t xs

abbrev pub is_some : Option ℕ → Bool
is_some none = false
is_some (some at) = true

lists-append :
    (t : TupleId) (xs ys : List TupleId) → lists t (xs ++ ys) ≡ (lists t xs || lists t ys)
lists-append t [] ys = refl
lists-append t (x ∷ xs) ys = ground (arith, lists-append t xs ys)

-- The record is found and has a number from `j` to `j + left - 1` on page `n`.
abbrev within : TupleId → ℕ → ℕ → ℕ → Option ℕ → Bool
within t n j left r = n == t.page_no && leb j t.tuple_no && ltb t.tuple_no (j + left) && is_some r

lists-scan_page :
    (t : TupleId) (n : ℕ) (p : SpPage) (left j : ℕ)
    → lists t (scan_page n p left j) ≡ within t n j left (get_record p t.tuple_no)
unfolding scan_page
lists-scan_page t n p zero j = ground arith
lists-scan_page t n p (suc left) j = elim (Bool-cases (j == t.tuple_no)) [
  | inl i ↦
      here (get_record p j) (get_record p t.tuple_no) (ap (get_record p) (==→≡ j t.tuple_no i)) i
        (lists-scan_page t n p left (j + 1))
  | inr i ↦ other (get_record p j) i (lists-scan_page t n p left (j + 1))
]
  where
    here :
        (o r : Option ℕ)
        → o ≡ r
        → (j == t.tuple_no) ≡ true
        → lists t (scan_page n p left (j + 1)) ≡ within t n (j + 1) left r
        → lists t (push_found o (record { page_no = n; tuple_no = j }) (scan_page n p left (j + 1)))
          ≡ within t n j (suc left) r
    here none none e i later = rw later (ground (arith, i))
    here none (some b) e i later = absurd cc
    here (some a) none e i later = absurd cc
    here (some a) (some b) e i later = rw later (ground (arith, i))

    other :
        (o : Option ℕ)
        → (j == t.tuple_no) ≡ false
        → lists t (scan_page n p left (j + 1)) ≡ within t n (j + 1) left (get_record p t.tuple_no)
        → lists t (push_found o (record { page_no = n; tuple_no = j }) (scan_page n p left (j + 1)))
          ≡ within t n j (suc left) (get_record p t.tuple_no)
    other none i later = rw later (ground (arith, i))
    other (some a) i later = rw later (ground (arith, i))

-- A record that is found has a number below that of the records.
in_range :
    (p : SpPage) (j : ℕ)
    → (ltb j p.no_records && is_some (get_record p j)) ≡ is_some (get_record p j)
unfolding get_record
in_range p j = ground arith

lists-scan_pages :
    (t : TupleId) (content : ℕ → SpPage) (ns : List ℕ)
    → lists t (scan_pages content ns)
      ≡ (contains t.page_no ns && is_some (get_record (content t.page_no) t.tuple_no))
unfolding scan_pages
lists-scan_pages t content [] = refl
lists-scan_pages t content (n ∷ ns) =
    lists-append t (scan_page n (content n) (content n).no_records 0) (scan_pages content ns)
    ∙ rw (lists-scan_page t n (content n) (content n).no_records 0, lists-scan_pages t content ns)
        (elim (Bool-cases (n == t.page_no)) [
          | inl e ↦
              let i = ==→≡ n t.page_no e in
              rw i (ground (arith, in_range (content t.page_no) t.tuple_no))
          | inr e ↦ rw e (ground arith)
        ])

-- `scan` lists a tuple id exactly if its page is one of the segment and its record is found there.
pub lists-scan :
    {P : Type 0} (s : Segment P) (t : TupleId)
    → lists t (scan s)
      ≡ (contains t.page_no s.pages && is_some (get_record (s.sp_content t.page_no) t.tuple_no))
unfolding scan
lists-scan s t = lists-scan_pages t s.sp_content s.pages
