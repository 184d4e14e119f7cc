-- ===== src/Segment/Fsm/Choose.antt =====
-- What `SegmentFSM::getFreePage` answers.
use master_team_projekt.Prelude.{
  ℕ, ◌+◌, ◌<◌, ◌≡◌, refl, ◌∙◌, List, [], ◌∷◌, length, Option, none, some, ltb, leb, ltb→lt, lt→ltb,
  ◌*◌, ◌/◌, ◌==◌, Bool-cases, inl, inr, arith,
}
use master_team_projekt.Prelude.Word.{sub_32}
use master_team_projekt.Infra.Types.{PageStatus, invalid_32}
use master_team_projekt.Interpreter.Fsm
use master_team_projekt.Interpreter.Fsm.{
  FsmPage, init_new_fsm, get_max_pages_per_fsm, calc_page_status, find_fit, add_data_page,
  change_page_status,
}
use master_team_projekt.Interpreter.Fsm.Search.{get_free_page-next_fsm}
use master_team_projekt.Interpreter.Fsm.Status.{calc_page_status-no_type}
use master_team_projekt.Segment.Space.{Space, IsSpace}
use master_team_projekt.Segment.State.{Segment, Outcome, nsm_exception}
use master_team_projekt.Segment.Fsm.{Choice, write_fsm, search_fsm, get_free_page}
use master_team_projekt.Segment.Fsm.Chain.{Linked-congr}
use master_team_projekt.Segment.Fsm.Owned.{Ends, Exhausted}
use master_team_projekt.Segment.Fsm.Reserve.{
  IsReady, Refused, Chosen, final, final-last_of, set_content_next_fsm, Chosen-after,
  take_index-Chosen,
}
use master_team_projekt.Segment.Fsm.Append.{append_fsm-Chosen}

-- A request that exceeds the fifteen buckets of the bytes that a page offers.
abbrev pub IsTooLarge : ℕ → ℕ → Type 0
IsTooLarge size bytes = 15 * (size / 15) < bytes

calc_page_status-IsTooLarge :
    (size bytes : ℕ) → calc_page_status size bytes ≡ PageStatus.no_type → IsTooLarge size bytes
unfolding calc_page_status
calc_page_status-IsTooLarge size bytes e = elim (Bool-cases (leb 15 size)) [
  | inl large ↦ (calc_page_status-no_type size bytes (ground (arith, large))).0 e
  | inr small ↦ ground (arith, small, e)
]

pub get_free_page-over :
    {P : Type 0} (space : Space P) (bytes overhead : ℕ) (s : Segment P)
    → sub_32 s.page_size overhead < bytes
    → get_free_page space bytes overhead s ≡ nsm_exception s
unfolding get_free_page
get_free_page-over space bytes overhead s over = rw (lt→ltb _ _ over) refl

module _ {P : Type 0} (space : Space P) (laws : IsSpace space) where
  search_fsm-Chosen :
      (size bytes i : ℕ) (fs : List ℕ) (last : Option ℕ) (s : Segment P)
      → IsReady space laws s
      → final last fs ≡ final none s.fsm_pages
      → Ends
          (Exhausted space laws)
          (Chosen space laws s)
          (Refused space laws (IsTooLarge size bytes) s)
          (search_fsm space size bytes i fs last s)
  unfolding search_fsm
  search_fsm-Chosen size bytes i [] none s w e = some_page s.fsm_pages w.1 e
    where
      some_page : (fs : List ℕ) → 0 < length fs → none ≡ final none fs → ⊥
      some_page [] h j = absurd (omega (arith, h))
      some_page (g ∷ gs) h j = let k = j ∙ final-last_of g gs in cc
  search_fsm-Chosen size bytes i [] (some last) s w e =
      append_fsm-Chosen space laws (IsTooLarge size bytes) s last w e
  search_fsm-Chosen size bytes i (f ∷ fs) last s w e =
      by_status (calc_page_status size bytes) refl
        (λ t w' e'. search_fsm-Chosen size bytes (i + 1) fs (some f) t w' e')
    where
      written : ℕ → Segment P
      written level = write_fsm f (Fsm.get_free_page s.page_size (s.fsm_content f) level).1 s

      ready : (level : ℕ) → IsReady space laws (written level)
      ready level = (
        record {
          good = w.0.good;
          once = w.0.once;
          taken = w.0.taken;
          not_zero = w.0.not_zero;
          linked =
              Linked-congr s.fsm_content (written level).fsm_content s.fsm_pages
                (λ g in_list.
                  set_content_next_fsm s.fsm_content f _ g
                    (get_free_page-next_fsm s.page_size (s.fsm_content f) level))
                w.0.linked;
        },
        w.1,
      )

      by_status :
          (r : PageStatus)
          → calc_page_status size bytes ≡ r
          → ((t : Segment P)
              → IsReady space laws t
              → final (some f) fs ≡ final none t.fsm_pages
              → Ends
                  (Exhausted space laws)
                  (Chosen space laws t)
                  (Refused space laws (IsTooLarge size bytes) t)
                  (search_fsm space size bytes (i + 1) fs (some f) t))
          → Ends
              (Exhausted space laws)
              (Chosen space laws s)
              (Refused space laws (IsTooLarge size bytes) s)
              (search_fsm space size bytes i (f ∷ fs) last s)
      by_status PageStatus.no_type is later =
          rw (is, search_fsm)
            (w, (refl, refl, refl, refl, refl), refl, calc_page_status-IsTooLarge size bytes is)
      by_status (PageStatus.bucket level) is later =
          elim (Bool-cases
            ((Fsm.get_free_page s.page_size (s.fsm_content f) level).0 == invalid_32)) [
              | inl no_page ↦
                  rw (is, search_fsm, no_page)
                    (after level _ (later (written level) (ready level) e))
              | inr page ↦
                  rw (is, search_fsm, page)
                    (after level _ (
                      take_index-Chosen space laws (IsTooLarge size bytes) i _ (written level)
                        (ready level)))
            ]
        where
          after :
              (level : ℕ) (o : Outcome P Choice)
              → Ends
                  (Exhausted space laws)
                  (Chosen space laws (written level))
                  (Refused space laws (IsTooLarge size bytes) (written level))
                  o
              → Ends
                  (Exhausted space laws)
                  (Chosen space laws s)
                  (Refused space laws (IsTooLarge size bytes) s)
                  o
          after level =
              Chosen-after space laws (IsTooLarge size bytes) s (written level)
                (refl, refl, refl, refl, refl) refl (λ m none_yet. none_yet)

  -- For a segment whose pages are its own and whose management pages are linked, with at least one of these, and
  -- a partition that keeps what `IsSpace` says: `getFreePage` answers with a page of the segment or with a
  -- page that it allocates and appends. It throws an exception of its own only if the request exceeds the fifteen
  -- buckets of a page, and one of the partition only if the partition, in order, hands out no page. Unless
  -- the partition throws, the segment is left as it has to be, with the contents of its data and index pages.
  pub get_free_page-Chosen :
      (bytes overhead : ℕ) (s : Segment P)
      → IsReady space laws s
      → let size = sub_32 s.page_size overhead in
        Ends
          (Exhausted space laws)
          (Chosen space laws s)
          (Refused space laws (IsTooLarge size bytes) s)
          (get_free_page space bytes overhead s)
  unfolding get_free_page
  get_free_page-Chosen bytes overhead s w =
      elim (Bool-cases (ltb (sub_32 s.page_size overhead) bytes)) [
        | inl e ↦ rw e (w, (refl, refl, refl, refl, refl), refl, omega (arith, ltb→lt _ _ e))
        | inr e ↦
            rw e (search_fsm-Chosen (sub_32 s.page_size overhead) bytes 0 s.fsm_pages none s w refl)
      ]
