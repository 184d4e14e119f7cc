-- ===== src/Segment/Fsm/Create.antt =====
-- What the constructor of a segment makes.
use master_team_projekt.Prelude.{ℕ, ◌-◌, ◌*◌, ◌/◌, ◌≡◌, refl, ap, [], ◌∷◌, length, arith}
use master_team_projekt.Interpreter.Fsm.{init_new_fsm}
use master_team_projekt.Infra.Headers.{fsm_header_size}
use master_team_projekt.Segment.Space.{Space, IsSpace}
use master_team_projekt.Segment.State.{
  Segment, unloaded, push_index, push_fsm, set_content_self, new_base,
}
use master_team_projekt.Segment.Fsm.{write_fsm, new_segment}
use master_team_projekt.Segment.Fsm.Chain.{count-append}
use master_team_projekt.Segment.Fsm.Owned.{
  Ends, Exhausted, Ends-bind, IsWellFormed, Allocates, allocate-Allocates,
}
use master_team_projekt.Segment.Fsm.Reserve.{IsReady}

-- A segment with one index page, one management page and no data page.
pub record IsCreated {P : Type 0} (space : Space P) (laws : IsSpace space) (seg_id : ℕ)
    (t : Segment P) : Type 0 where
  pub ready : IsReady space laws t
  pub id : t.seg_id ≡ seg_id
  pub no_pages : t.pages ≡ []
  pub no_tids : t.tids ≡ []
  pub one_index : length t.index_pages ≡ 1
  pub one_fsm : length t.fsm_pages ≡ 1

module _ {P : Type 0} (space : Space P) (laws : IsSpace space) where
  empty-IsWellFormed :
      (seg_id : ℕ) (s : Segment P)
      → laws.Good s.partition
      → IsWellFormed space laws (record (unloaded s) { seg_id = seg_id })
  empty-IsWellFormed seg_id s good = record {
    good = good;
    once = λ m. omega arith;
    taken = λ m free. omega arith;
    not_zero = omega arith;
    linked = tt;
  }

  -- In a partition that keeps what `IsSpace` says, a new segment has the id that is asked for, one index page, one
  -- management page that is linked to no other, and no data pages; unless the partition throws.
  pub new_segment-IsCreated :
      (seg_id : ℕ) (s : Segment P)
      → laws.Good s.partition
      → Ends
          (Exhausted space laws)
          (λ u t. IsCreated space laws seg_id t)
          (λ t. ⊥)
          (new_segment space seg_id s)
  unfolding new_segment new_base init_new_fsm
  new_segment-IsCreated seg_id s good =
      Ends-bind (Exhausted space laws) (λ u t. IsBase t) _ (λ t. ⊥) _ _
        (Ends-bind (Exhausted space laws) (Allocates space laws start) (λ u t. IsBase t) (λ t. ⊥) _
          _ (allocate-Allocates space laws start (λ t. ⊥) (empty-IsWellFormed seg_id s good))
          pushed)
        (λ u t b.
          Ends-bind (Exhausted space laws) (Allocates space laws t) _ (λ v. ⊥) _ _
            (allocate-Allocates space laws t (λ v. ⊥) b.0) (λ f v a. made t f v b a))
    where
      start : Segment P
      start = record (unloaded s) { seg_id = seg_id }

      IsBase : Segment P → Type 0
      IsBase t =
          IsWellFormed space laws t
          × (t.seg_id ≡ seg_id)
          × (t.pages ≡ [])
          × (t.tids ≡ [])
          × (length t.index_pages ≡ 1)
          × (t.fsm_pages ≡ [])

      pushed : (n : ℕ) (t : Segment P) → Allocates space laws start n t → IsBase (push_index n t)
      pushed n t a = (
        a.grows (push_index n t) refl (λ m. rw a.rest (omega arith)) (rw a.rest tt),
        rw a.rest refl,
        rw a.rest refl,
        rw a.rest refl,
        rw a.rest refl,
        rw a.rest refl,
      )

      managed : Segment P → ℕ → Segment P
      managed v f =
          let pages = (v.page_size - fsm_header_size) * 8 / 4 in
          write_fsm f (init_new_fsm v.page_size (v.fsm_content f) 0 f v.file_id pages)
            (push_fsm f v)

      made :
          (t : Segment P) (f : ℕ) (v : Segment P)
          → IsBase t
          → Allocates space laws t f v
          → IsCreated space laws seg_id (managed v f)
      made t f v (w, id, no_pages, no_tids, one_index, no_fsm) a = record {
        ready = (
          a.grows (managed v f) refl
              (λ m. rw a.rest (omega (arith, count-append m t.fsm_pages (f ∷ []))))
              (rw (a.rest, no_fsm) (ap (λ p. p.next_fsm) (set_content_self f _ t.fsm_content), tt)),
          rw (a.rest, no_fsm) (omega arith),
        );
        id = rw a.rest id;
        no_pages = rw a.rest no_pages;
        no_tids = rw a.rest no_tids;
        one_index = rw a.rest one_index;
        one_fsm = rw (a.rest, no_fsm) refl;
      }
