-- ===== src/Segment/Fsm/Reserve.antt =====
-- What `SegmentFSM::getFreePage` promises, and the pages that it appends.
use master_team_projekt.Prelude.{
  ℕ, zero, suc, ◌*◌, ◌%◌, ◌<◌, ◌≡◌, ◌≢◌, refl, sym, ap, ◌∙◌, List, [], ◌∷◌, ◌++◌, length, get_elem?,
  Option, none, some, true, false, leb, ◌==◌, Bool-cases, ==→≡, inl, inr, arith,
}
use master_team_projekt.Prelude.Word.{mod_64, sub_64, add_64}
use master_team_projekt.Infra.Headers.{segment_fsm_header_size}
use master_team_projekt.Interpreter.Fsm.{FsmPage, get_max_pages_per_fsm}
use master_team_projekt.Segment.Space.{Space, IsSpace}
use master_team_projekt.Segment.State.{
  Segment, Outcome, done, nsm_exception, tuple_not_found, partition_exception, out_of_range,
  undefined, out_of_fuel, set_content_self, set_content_ne, push_index, push_page, set_content,
  allocate, reserve_index,
}
use master_team_projekt.Segment.Fsm.{Choice, known_page, append_page, take_index}
use master_team_projekt.Segment.Fsm.Chain.{count-append, last_of}
use master_team_projekt.Segment.Fsm.Owned.{
  copies, Ends, Exhausted, Ends-bind, IsWellFormed, Allocates, allocate-Allocates,
}

-- Everything but the partition, the lists of pages and the management pages stays.
abbrev pub Keeps : {P : Type 0} → Segment P → Segment P → Type 0
Keeps s t =
    (t.sp_content ≡ s.sp_content)
    × (t.index_content ≡ s.index_content)
    × (t.tids ≡ s.tids)
    × (t.page_size ≡ s.page_size)
    × (t.seg_id ≡ s.seg_id)

abbrev pub IsReady : {P : Type 0} (space : Space P) (laws : IsSpace space) → Segment P → Type 0
IsReady space laws s = IsWellFormed space laws s × (0 < length s.fsm_pages)

-- No page was chosen, for a reason: the data pages stay.
abbrev pub Refused :
    {P : Type 0} (space : Space P) (laws : IsSpace space) → Type 0 → Segment P → Segment P → Type 0
Refused space laws why s t = IsReady space laws t × Keeps s t × (t.pages ≡ s.pages) × why

-- A page that was chosen: either one that the segment has, which then keeps its pages, or one that was free
-- in the partition and is now the last page of the segment.
pub data Chosen {P : Type 0} (space : Space P) (laws : IsSpace space) (s : Segment P) (c : Choice)
    (t : Segment P) : Type 0 where
  known :
      IsReady space laws t
      → Keeps s t
      → c.emptyfix ≡ false
      → t.pages ≡ s.pages
      → (k : ℕ) → get_elem? s.pages k ≡ some c.page_no
      → Chosen space laws s c t
  fresh :
      IsReady space laws t
      → Keeps s t
      → c.emptyfix ≡ true
      → t.pages ≡ s.pages ++ (c.page_no ∷ [])
      → copies s c.page_no ≡ 0
      → Chosen space laws s c t

abbrev pub final : Option ℕ → List ℕ → Option ℕ
final last [] = last
final last (f ∷ fs) = final (some f) fs

pub final-last_of : (f : ℕ) (fs : List ℕ) → final (some f) fs ≡ some (last_of f fs)
final-last_of f [] = refl
final-last_of f (g ∷ gs) = final-last_of g gs

pub set_content-behind :
    (c : ℕ → FsmPage) (l f : ℕ) (new_fsm linked : FsmPage)
    → l ≢ f
    → set_content f new_fsm (set_content l linked c) l ≡ linked
set_content-behind c l f new_fsm linked h =
    set_content_ne f new_fsm (set_content l linked c) l h ∙ set_content_self l linked c

pub set_content_next_fsm :
    (c : ℕ → FsmPage) (f : ℕ) (p : FsmPage) (g : ℕ)
    → p.next_fsm ≡ (c f).next_fsm
    → (set_content f p c g).next_fsm ≡ (c g).next_fsm
set_content_next_fsm c f p g h = elim (Bool-cases (g == f)) [
  | inl e ↦ rw e (h ∙ ap (λ m. (c m).next_fsm) (sym (==→≡ g f e)))
  | inr e ↦ rw e refl
]

get_elem?-some : (xs : List ℕ) (k : ℕ) → k < length xs → get_elem? xs k ≢ none
get_elem?-some [] k h = absurd (omega (arith, h))
get_elem?-some (x ∷ xs) zero h = λ e. cc
get_elem?-some (x ∷ xs) (suc k) h = get_elem?-some xs k (omega (arith, h))

module _ {P : Type 0} (space : Space P) (laws : IsSpace space) where
  abbrev IsWell : Segment P → Type 0
  IsWell = IsWellFormed space laws

  reserve_index-Keeps :
      (s : Segment P) (E : Segment P → Type 0)
      → IsWell s
      → Ends
          (Exhausted space laws)
          (λ u t. IsWell t × Keeps s t × (t.pages ≡ s.pages) × (t.fsm_pages ≡ s.fsm_pages))
          E
          (reserve_index space s)
  unfolding reserve_index
  reserve_index-Keeps s E w =
      elim (Bool-cases (
        leb (length s.index_pages * sub_64 s.page_size segment_fsm_header_size % mod_64)
          (length s.pages))) [
            | inr e ↦ rw e (w, (refl, refl, refl, refl, refl), refl, refl)
            | inl e ↦ rw e (
                Ends-bind (Exhausted space laws) (Allocates space laws s) _ E (allocate space s) _
                  (allocate-Allocates space laws s E w) pushed)
          ]
    where
      pushed :
          (n : ℕ) (t : Segment P)
          → Allocates space laws s n t
          → IsWell (push_index n t)
            × Keeps s (push_index n t)
            × ((push_index n t).pages ≡ s.pages)
            × ((push_index n t).fsm_pages ≡ s.fsm_pages)
      pushed n t a = (
        a.grows (push_index n t) refl
            (λ m. rw a.rest (omega (arith, count-append m s.index_pages (n ∷ []))))
            (rw a.rest w.linked),
        rw a.rest (refl, refl, refl, refl, refl),
        rw a.rest refl,
        rw a.rest refl,
      )

  pub append_page-Chosen :
      (why : Type 0) (s : Segment P)
      → IsReady space laws s
      → Ends
          (Exhausted space laws)
          (Chosen space laws s)
          (Refused space laws why s)
          (append_page space s)
  unfolding append_page
  append_page-Chosen why s (w, some_fsm) =
      Ends-bind (Exhausted space laws) (Allocates space laws s) _ (Refused space laws why s)
        (allocate space s) _ (allocate-Allocates space laws s (Refused space laws why s) w)
        (λ n t a.
          Ends-bind (Exhausted space laws) _ _ (Refused space laws why s)
            (reserve_index space (push_page n t)) _
            (reserve_index-Keeps (push_page n t) (Refused space laws why s) (pushed n t a))
            (λ u v k.
              fresh (k.0, rw (k.3, a.rest) some_fsm) (rw a.rest at k.1) refl (rw a.rest at k.2)
                (w.taken n a.was_free)))
    where
      pushed : (n : ℕ) (t : Segment P) → Allocates space laws s n t → IsWell (push_page n t)
      pushed n t a =
          a.grows (push_page n t) refl
            (λ m. rw a.rest (omega (arith, count-append m s.pages (n ∷ [])))) (rw a.rest w.linked)

  -- What was done before kept the data pages and only took pages that the segment did not have.
  pub Chosen-after :
      (why : Type 0) (s v : Segment P)
      → Keeps s v
      → v.pages ≡ s.pages
      → ((m : ℕ) → copies v m ≡ 0 → copies s m ≡ 0)
      → (o : Outcome P Choice)
      → Ends (Exhausted space laws) (Chosen space laws v) (Refused space laws why v) o
      → Ends (Exhausted space laws) (Chosen space laws s) (Refused space laws why s) o
  Chosen-after why s v (k0, k1, k2, k3, k4) same fewer (done c t)
        (known w (l0, l1, l2, l3, l4) e p i found) =
      known w (l0 ∙ k0, l1 ∙ k1, l2 ∙ k2, l3 ∙ k3, l4 ∙ k4) e (p ∙ same) i (rw same at found)
  Chosen-after why s v (k0, k1, k2, k3, k4) same fewer (done c t)
        (fresh w (l0, l1, l2, l3, l4) e p none_yet) =
      fresh w (l0 ∙ k0, l1 ∙ k1, l2 ∙ k2, l3 ∙ k3, l4 ∙ k4) e (rw same at p)
        (fewer c.page_no none_yet)
  Chosen-after why s v (k0, k1, k2, k3, k4) same fewer (nsm_exception t)
        (w, (l0, l1, l2, l3, l4), p, y) =
      (w, (l0 ∙ k0, l1 ∙ k1, l2 ∙ k2, l3 ∙ k3, l4 ∙ k4), p ∙ same, y)
  Chosen-after why s v (k0, k1, k2, k3, k4) same fewer (tuple_not_found t)
        (w, (l0, l1, l2, l3, l4), p, y) =
      (w, (l0 ∙ k0, l1 ∙ k1, l2 ∙ k2, l3 ∙ k3, l4 ∙ k4), p ∙ same, y)
  Chosen-after why s v k same fewer partition_exception h = h
  Chosen-after why s v k same fewer out_of_range h = h
  Chosen-after why s v k same fewer undefined h = h
  Chosen-after why s v k same fewer out_of_fuel h = h

  pub take_index-Chosen :
      (why : Type 0) (i index : ℕ) (s : Segment P)
      → IsReady space laws s
      → Ends
          (Exhausted space laws)
          (Chosen space laws s)
          (Refused space laws why s)
          (take_index space i index s)
  unfolding take_index
  take_index-Chosen why i index s w =
      let k = add_64 index (i * get_max_pages_per_fsm s.page_size % mod_64) in
      elim (Bool-cases (leb (length s.pages) k)) [
        | inl e ↦ rw e (append_page-Chosen why s w)
        | inr e ↦
            rw e
              (at_known k (get_elem? s.pages k) refl (get_elem?-some s.pages k (ground (arith, e))))
      ]
    where
      at_known :
          (k : ℕ) (o : Option ℕ)
          → get_elem? s.pages k ≡ o
          → o ≢ none
          → Ends
              (Exhausted space laws)
              (Chosen space laws s)
              (Refused space laws why s)
              (known_page o s)
      at_known k none e found = absurd (found refl)
      at_known k (some n) e found = known w (refl, refl, refl, refl, refl) refl refl k e
