-- ===== src/Segment/Fsm/Takes.antt =====
-- Which page `SegmentFSM::getFreePage` takes, and when it appends one.
use master_team_projekt.Prelude.{
  ℕ, suc, ◌+◌, ◌-◌, ◌*◌, ◌%◌, ◌<◌, ◌≤◌, ◌≡◌, refl, sym, ap, ◌∙◌, List, [], ◌∷◌, length, get_elem?,
  Option, none, some, true, false, leb, ltb, ◌==◌, Bool-cases, ==→≡, ◌⊎◌, inl, inr, arith,
}
use mathlib.Core.Option.{some_inj}
use mathlib.Core.Path.{subst}
use master_team_projekt.Prelude.Word.{mod_64, add_64, sub_32}
use master_team_projekt.Infra.Types.{PageStatus, invalid_32}
use master_team_projekt.Interpreter.Fsm
use master_team_projekt.Interpreter.Fsm.{
  FsmPage, get_max_pages_per_fsm, calc_page_status, find_fit, add_data_page,
}
use master_team_projekt.Interpreter.Fsm.Search.{Fits, find_fit-Fits}
use master_team_projekt.Segment.Space.{Space, IsSpace}
use master_team_projekt.Segment.State.{
  Segment, Outcome, done, nsm_exception, tuple_not_found, partition_exception, out_of_range,
  undefined, out_of_fuel, bind, set_content, push_page, allocate, reserve_index,
}
use master_team_projekt.Segment.Fsm.{
  Choice, write_fsm, known_page, append_page, append_fsm, take_index, search_fsm, get_free_page,
}
use master_team_projekt.Segment.Fsm.Owned.{Ends, Exhausted}
use master_team_projekt.Segment.Fsm.Reserve.{IsReady, Refused, Chosen}
use master_team_projekt.Segment.Fsm.Choose.{IsTooLarge, get_free_page-Chosen}

-- The management page `f` has no room for the level.
abbrev pub Refuses : {P : Type 0} → Segment P → ℕ → ℕ → Type 0
Refuses s level f = ((Fsm.get_free_page s.page_size (s.fsm_content f) level).0 == invalid_32) ≡ true

-- The management page number `number` is the first one with room for the level, and names its page `index`.
pub record Names {P : Type 0} (size bytes : ℕ) (s : Segment P) (number fsm index level : ℕ)
    : Type 0 where
  pub listed : get_elem? s.fsm_pages number ≡ some fsm
  pub asked : calc_page_status size bytes ≡ PageStatus.bucket level
  pub named : (Fsm.get_free_page s.page_size (s.fsm_content fsm) level).0 ≡ index
  pub room : (index == invalid_32) ≡ false
  pub earlier : (j g : ℕ) → j < number → get_elem? s.fsm_pages j ≡ some g → Refuses s level g

-- The number in the segment of a page with the given number in a management page.
abbrev pub position : {P : Type 0} → Segment P → ℕ → ℕ → ℕ
position s number index = add_64 index (number * get_max_pages_per_fsm s.page_size % mod_64)

-- The page is the one that the first management page with room names; the level is entered there, and nothing
-- else of the segment changes.
pub record Takes {P : Type 0} (size bytes : ℕ) (s : Segment P) (c : Choice) (t : Segment P)
    : Type 0 where
  pub number : ℕ
  pub fsm : ℕ
  pub index : ℕ
  pub level : ℕ
  pub names : Names size bytes s number fsm index level
  pub page : get_elem? s.pages (position s number index) ≡ some c.page_no
  pub entered : t ≡ write_fsm fsm (Fsm.get_free_page s.page_size (s.fsm_content fsm) level).1 s

-- Why a page is appended: the page that the first management page with room names is behind those of the
-- segment, or no management page has room.
pub data Lacks {P : Type 0} (size bytes : ℕ) (s : Segment P) : Type 0 where
  behind :
      (number fsm index level : ℕ)
      → Names size bytes s number fsm index level
      → length s.pages ≤ position s number index
      → Lacks size bytes s
  full :
      (level : ℕ)
      → calc_page_status size bytes ≡ PageStatus.bucket level
      → ((j g : ℕ) → get_elem? s.fsm_pages j ≡ some g → Refuses s level g)
      → Lacks size bytes s

abbrev pub Why : {P : Type 0} → ℕ → ℕ → Segment P → Choice → Segment P → Type 0
Why size bytes s c t =
    ((c.emptyfix ≡ false) × Takes size bytes s c t) ⊎ ((c.emptyfix ≡ true) × Lacks size bytes s)

-- What holds of a result.
abbrev OnDone : {P A : Type 0} → (A → Segment P → Type 0) → Outcome P A → Type 0
OnDone Q (done a s) = Q a s
OnDone Q (nsm_exception s) = Unit
OnDone Q (tuple_not_found s) = Unit
OnDone Q partition_exception = Unit
OnDone Q out_of_range = Unit
OnDone Q undefined = Unit
OnDone Q out_of_fuel = Unit

OnDone-bind {ℓ} :
    {P : Type 0} {A : Type ℓ} {B : Type 0} (Q : B → Segment P → Type 0) (m : Outcome P A)
    (f : A → Segment P → Outcome P B)
    → ((a : A) (s : Segment P) → OnDone Q (f a s))
    → OnDone Q (bind m f)
OnDone-bind Q (done a s) f h = h a s
OnDone-bind Q (nsm_exception s) f h = tt
OnDone-bind Q (tuple_not_found s) f h = tt
OnDone-bind Q partition_exception f h = tt
OnDone-bind Q out_of_range f h = tt
OnDone-bind Q undefined f h = tt
OnDone-bind Q out_of_fuel f h = tt

Ends-OnDone :
    {P A : Type 0} (F : Type 0) (Q R : A → Segment P → Type 0) (E : Segment P → Type 0)
    (o : Outcome P A)
    → Ends F Q E o
    → OnDone R o
    → Ends F (λ a s. Q a s × R a s) E o
Ends-OnDone F Q R E (done a s) h k = (h, k)
Ends-OnDone F Q R E (nsm_exception s) h k = h
Ends-OnDone F Q R E (tuple_not_found s) h k = h
Ends-OnDone F Q R E partition_exception h k = h
Ends-OnDone F Q R E out_of_range h k = h
Ends-OnDone F Q R E undefined h k = h
Ends-OnDone F Q R E out_of_fuel h k = h

-- A management page that has no room stays as it is.
get_free_page-refuses :
    (n : ℕ) (p : FsmPage) (level : ℕ)
    → p.no_pages < invalid_32
    → ((Fsm.get_free_page n p level).0 == invalid_32) ≡ true
    → (Fsm.get_free_page n p level).1 ≡ p
unfolding Fsm.get_free_page add_data_page
get_free_page-refuses n p level small refuses =
    by_fit (find_fit p level p.no_pages 0) (find_fit-Fits p level p.no_pages 0) refuses
  where
    answer : Option ℕ → ℕ × FsmPage
    answer o = elim o [
      | some i ↦ (i, Fsm.change_page_status p i (Fsm.get_page_status p i + level))
      | none ↦ add_data_page n p level
    ]

    by_fit :
        (o : Option ℕ)
        → Fits p level 0 (0 + p.no_pages) o
        → ((answer o).0 == invalid_32) ≡ true
        → (answer o).1 ≡ p
    by_fit (some i) fits e = absurd (below i fits.1 e)
      where
        below : (i : ℕ) → i < 0 + p.no_pages → (i == invalid_32) ≡ true → ⊥
        below i less e = ground (arith, less, e, small)
    by_fit none fits e = elim (Bool-cases (ltb p.no_pages (get_max_pages_per_fsm n))) [
      | inl more ↦ let k = rw more at e in absurd (unlike k)
      | inr no_more ↦ rw no_more refl
    ]
      where
        unlike : (p.no_pages == invalid_32) ≡ true → ⊥
        unlike k = ground (arith, k, small)

module _ {P : Type 0} (space : Space P) (size bytes : ℕ) (s : Segment P)
    (small : (g : ℕ) → (s.fsm_content g).no_pages < invalid_32) where
  unwritten :
      (f level : ℕ)
      → Refuses s level f
      → write_fsm f (Fsm.get_free_page s.page_size (s.fsm_content f) level).1 s ≡ s
  unwritten f level e = ap (λ c. record s { fsm_content = c }) (λ i g. same g i)
    where
      same :
          (g : ℕ)
          → set_content f (Fsm.get_free_page s.page_size (s.fsm_content f) level).1 s.fsm_content g
            ≡ s.fsm_content g
      same g = elim (Bool-cases (g == f)) [
        | inr other ↦ rw other refl
        | inl is ↦
            rw (is, ==→≡ g f is)
              (get_free_page-refuses s.page_size (s.fsm_content f) level (small f) e)
      ]

  append_page-Why :
      (t : Segment P) → Lacks size bytes s → OnDone (Why size bytes s) (append_page space t)
  unfolding append_page
  append_page-Why t lacks = OnDone-bind (Why size bytes s) (allocate space t) _ (λ n u.
      OnDone-bind (Why size bytes s) (reserve_index space (push_page n u)) _
        (λ x v. inr (refl, lacks)))

  append_fsm-Why :
      (last : ℕ) (t : Segment P)
      → Lacks size bytes s
      → OnDone (Why size bytes s) (append_fsm space last t)
  unfolding append_fsm
  append_fsm-Why last t lacks =
      OnDone-bind (Why size bytes s) (allocate space t) _ (λ f u. append_page-Why _ lacks)

  take_index-Why :
      (number f index level : ℕ)
      → Names size bytes s number f index level
      → OnDone (Why size bytes s) (
          take_index space number index
            (write_fsm f (Fsm.get_free_page s.page_size (s.fsm_content f) level).1 s))
  unfolding take_index
  take_index-Why number f index level names =
      elim (Bool-cases (leb (length s.pages) (position s number index))) [
        | inl e ↦ rw e (append_page-Why _ (behind number f index level names (ground (arith, e))))
        | inr e ↦ rw e (at_page (get_elem? s.pages (position s number index)) refl)
      ]
    where
      marked : Segment P
      marked = write_fsm f (Fsm.get_free_page s.page_size (s.fsm_content f) level).1 s

      at_page :
          (o : Option ℕ)
          → get_elem? s.pages (position s number index) ≡ o
          → OnDone (Why size bytes s) (known_page o marked)
      at_page none e = tt
      at_page (some n) e = inl (
        refl,
        record {
          number = number;
          fsm = f;
          index = index;
          level = level;
          names = names;
          page = e;
          entered = refl;
        },
      )

  search_fsm-Why :
      (level : ℕ)
      → calc_page_status size bytes ≡ PageStatus.bucket level
      → (number : ℕ) (fs : List ℕ) (last : Option ℕ)
      → ((j : ℕ) → get_elem? s.fsm_pages (number + j) ≡ get_elem? fs j)
      → ((j g : ℕ) → j < number → get_elem? s.fsm_pages j ≡ some g → Refuses s level g)
      → OnDone (Why size bytes s) (search_fsm space size bytes number fs last s)
  unfolding search_fsm
  search_fsm-Why level asked number [] none behind_it earlier = tt
  search_fsm-Why level asked number [] (some last) behind_it earlier = append_fsm-Why last s (
      full level asked (λ j g e. elim (Bool-cases (ltb j number)) [
        | inl less ↦ earlier j g (ground (arith, less)) e
        | inr more ↦ absurd (beyond j g (ground (arith, more)) e)
      ]))
    where
      beyond : (j g : ℕ) → number ≤ j → get_elem? s.fsm_pages j ≡ some g → ⊥
      beyond j g le e =
          let at : number + (j - number) ≡ j = omega (arith, le) in
          let nothing = rw at at (behind_it (j - number)) in cc
  search_fsm-Why level asked number (f ∷ fs) last behind_it earlier =
      elim (Bool-cases ((Fsm.get_free_page s.page_size (s.fsm_content f) level).0 == invalid_32)) [
        | inl no_room ↦
            rw (asked, search_fsm, no_room)
              (subst
                (λ t.
                  OnDone (Why size bytes s)
                    (search_fsm space size bytes (number + 1) fs (some f) t))
                (sym (unwritten f level no_room))
                (search_fsm-Why level asked (number + 1) fs (some f) further (refused no_room)))
        | inr room ↦
            rw (asked, search_fsm, room)
              (take_index-Why number f _ level (record {
                listed = here;
                asked = asked;
                named = refl;
                room = room;
                earlier = earlier;
              }))
      ]
    where
      here : get_elem? s.fsm_pages number ≡ some f
      here = let at : number + 0 ≡ number = omega arith in rw at at (behind_it 0)

      further : (j : ℕ) → get_elem? s.fsm_pages (number + 1 + j) ≡ get_elem? fs j
      further j =
          let at : number + suc j ≡ number + 1 + j = omega arith in rw at at (behind_it (suc j))

      refused :
          Refuses s level f
          → (j g : ℕ) → j < number + 1
          → get_elem? s.fsm_pages j ≡ some g
          → Refuses s level g
      refused no_room j g less e = elim (Bool-cases (j == number)) [
        | inr other ↦ earlier j g (ground (arith, less, other)) e
        | inl is ↦
            let same : f ≡ g = some_inj.0 (sym here ∙ (rw (==→≡ j number is) at e)) in
            subst (Refuses s level) same no_room
      ]

  none_asked :
      calc_page_status size bytes ≡ PageStatus.no_type
      → (fs : List ℕ) → OnDone (Why size bytes s) (search_fsm space size bytes 0 fs none s)
  unfolding search_fsm
  none_asked asked [] = tt
  none_asked asked (f ∷ fs) = rw (asked, search_fsm) tt

  by_status :
      (r : PageStatus)
      → calc_page_status size bytes ≡ r
      → OnDone (Why size bytes s) (search_fsm space size bytes 0 s.fsm_pages none s)
  by_status (PageStatus.bucket level) asked =
      search_fsm-Why level asked 0 s.fsm_pages none (λ j. ap (get_elem? s.fsm_pages) (first j))
        (λ j g less. absurd (no_less j less))
    where
      first : (j : ℕ) → 0 + j ≡ j
      first j = omega arith

      no_less : (j : ℕ) → j < 0 → ⊥
      no_less j less = omega (arith, less)
  by_status PageStatus.no_type asked = none_asked asked s.fsm_pages

get_free_page-Why :
    {P : Type 0} (space : Space P) (bytes overhead : ℕ) (s : Segment P)
    → ((g : ℕ) → (s.fsm_content g).no_pages < invalid_32)
    → OnDone (Why (sub_32 s.page_size overhead) bytes s) (get_free_page space bytes overhead s)
unfolding get_free_page
get_free_page-Why space bytes overhead s small =
    elim (Bool-cases (ltb (sub_32 s.page_size overhead) bytes)) [
      | inl e ↦ rw e tt
      | inr e ↦ rw e (by_status space (sub_32 s.page_size overhead) bytes s small _ refl)
    ]

-- For a segment whose pages are its own and whose management pages are linked, with at least one of these, each
-- with fewer than 2^32 - 1 pages, and a partition that keeps what `IsSpace` says: `getFreePage` takes the
-- first management page that has room for the level of the request. It answers with the page of the segment at
-- the number that this one names, counted behind the pages of all management pages before, enters the level
-- there, and changes nothing else; or, if the segment does not reach that far or no management page has
-- room, it appends a page that was free in the partition, and keeps the contents of data and index pages. It throws an
-- exception of its own only if the request exceeds the fifteen buckets of a page, and one of the partition only if
-- the partition, in order, hands out no page. Unless the partition throws, the lists of pages are left as they have
-- to be.
pub get_free_page-Takes :
    {P : Type 0} (space : Space P) (laws : IsSpace space) (bytes overhead : ℕ) (s : Segment P)
    → IsReady space laws s
    → ((g : ℕ) → (s.fsm_content g).no_pages < invalid_32)
    → let size = sub_32 s.page_size overhead in
      Ends
        (Exhausted space laws)
        (λ c t. Chosen space laws s c t × Why size bytes s c t)
        (Refused space laws (IsTooLarge size bytes) s)
        (get_free_page space bytes overhead s)
get_free_page-Takes space laws bytes overhead s w small =
    Ends-OnDone (Exhausted space laws) (Chosen space laws s)
      (Why (sub_32 s.page_size overhead) bytes s) _ (get_free_page space bytes overhead s)
      (get_free_page-Chosen space laws bytes overhead s w)
      (get_free_page-Why space bytes overhead s small)
