-- ===== src/Segment/Fsm/Append.antt =====
-- The management pages that `SegmentFSM::getFreePage` appends.
use master_team_projekt.Prelude.{
  ℕ, ◌+◌, ◌≤◌, ◌<◌, ◌≡◌, ◌≢◌, refl, sym, subst, ap, ◌∙◌, List, [], ◌∷◌, length-append, none, some,
  arith,
}
use mathlib.Core.Option.{some_inj}
use master_team_projekt.Interpreter.Fsm.{init_new_fsm, get_max_pages_per_fsm}
use master_team_projekt.Segment.Space.{Space, IsSpace}
use master_team_projekt.Segment.State.{Segment, push_fsm, allocate}
use master_team_projekt.Segment.Fsm.{write_fsm, link_fsm, append_fsm}
use master_team_projekt.Segment.Fsm.Chain.{
  count, count-append, Linked, Linked-append, last_of, count-last_of,
}
use master_team_projekt.Segment.Fsm.Owned.{
  copies, Ends, Exhausted, Ends-bind, IsWellFormed, Allocates, allocate-Allocates,
}
use master_team_projekt.Segment.Fsm.Reserve.{
  set_content-behind, append_page-Chosen, IsReady, Refused, Chosen, final, final-last_of,
  Chosen-after,
}

module _ {P : Type 0} (space : Space P) (laws : IsSpace space) where
  -- The segment behind the creation of a management page `f`.
  with_fsm : ℕ → ℕ → Segment P → Segment P
  with_fsm last f t =
      let linked = link_fsm last f (push_fsm f t) in
      let pages_per_fsm = get_max_pages_per_fsm t.page_size in
      write_fsm f (init_new_fsm t.page_size (linked.fsm_content f) 0 f t.file_id pages_per_fsm)
        linked

  with_fsm-Linked :
      (s : Segment P) (g : ℕ) (gs : List ℕ) (f last : ℕ)
      → IsWellFormed space laws s
      → copies s f ≡ 0
      → s.fsm_pages ≡ g ∷ gs
      → last ≡ last_of g gs
      → Linked (with_fsm last f s).fsm_content (with_fsm last f s).fsm_pages
  unfolding with_fsm init_new_fsm
  with_fsm-Linked s g gs f last w none_yet e e' = rw e (
      Linked-append s.fsm_content (with_fsm last f s).fsm_content g gs f
        (λ m. let le : count m s.fsm_pages ≤ 1 = omega (arith, w.once m) in rw e at le)
        (at_last (count-last_of g gs) (rw e at none_yet)) (at_new f)
        (λ m in_list other.
          (at_other m (ground (arith, in_list, rw e at none_yet)) (λ i. other (i ∙ e'))))
        (rw e at w.linked))
    where
      at_new : (m : ℕ) → ((with_fsm last m s).fsm_content m).next_fsm ≡ 0
      at_new m = ground arith

      at_other :
          (m : ℕ)
          → m ≢ f
          → m ≢ last
          → ((with_fsm last f s).fsm_content m).next_fsm ≡ (s.fsm_content m).next_fsm
      at_other m ne ne' = ground (arith, ne, ne')

      apart : (a b rest : ℕ) → 0 < a → a ≡ b → rest + b ≡ 0 → ⊥
      apart a b rest h e sum = omega (arith, h, e, sum)

      at_last :
          0 < count (last_of g gs) (g ∷ gs)
          → count f s.pages + count f s.index_pages + count f (g ∷ gs) ≡ 0
          → ((with_fsm last f s).fsm_content (last_of g gs)).next_fsm ≡ f
      at_last in_list none_yet' =
          let other : last_of g gs ≢ f =
            λ i. apart _ _ _ in_list (ap (λ m. count m (g ∷ gs)) i) none_yet' in
          subst (λ l. ((with_fsm last f s).fsm_content l).next_fsm ≡ f) e'
            (ap (λ c. c.next_fsm)
              (set_content-behind s.fsm_content last f _ _ (λ i. other (sym e' ∙ i))))

  with_fsm-IsReady :
      (s : Segment P) (last f : ℕ) (t : Segment P)
      → IsReady space laws s
      → some last ≡ final none s.fsm_pages
      → Allocates space laws s f t
      → IsReady space laws (with_fsm last f t)
  unfolding with_fsm
  with_fsm-IsReady s last f t (w, some_fsm) e a = (
    a.grows (with_fsm last f t) refl
        (λ m. rw a.rest (omega (arith, count-append m s.fsm_pages (f ∷ []))))
        (rw a.rest (chain s.fsm_pages refl e)),
    rw a.rest (omega (arith, length-append s.fsm_pages (f ∷ []))),
  )
    where
      chain :
          (fs : List ℕ)
          → s.fsm_pages ≡ fs
          → some last ≡ final none fs
          → Linked (with_fsm last f s).fsm_content (with_fsm last f s).fsm_pages
      chain [] i j = absurd cc
      chain (g ∷ gs) i j =
          with_fsm-Linked s g gs f last w (w.taken f a.was_free) i
            (some_inj.0 (j ∙ final-last_of g gs))

  pub append_fsm-Chosen :
      (why : Type 0) (s : Segment P) (last : ℕ)
      → IsReady space laws s
      → some last ≡ final none s.fsm_pages
      → Ends
          (Exhausted space laws)
          (Chosen space laws s)
          (Refused space laws why s)
          (append_fsm space last s)
  unfolding append_fsm with_fsm
  append_fsm-Chosen why s last w e =
      Ends-bind (Exhausted space laws) (Allocates space laws s) _ (Refused space laws why s)
        (allocate space s) _ (allocate-Allocates space laws s (Refused space laws why s) w.0)
        (λ f t a.
          Chosen-after space laws why s (with_fsm last f t)
            (rw a.rest (refl, refl, refl, refl, refl)) (rw a.rest refl)
            (λ m none_yet.
              let before : copies t m ≡ 0 =
                omega (arith, none_yet, count-append m t.fsm_pages (f ∷ [])) in
              rw a.rest at before)
            _
            (append_page-Chosen space laws why (with_fsm last f t)
              (with_fsm-IsReady s last f t w e a)))
