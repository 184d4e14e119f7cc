-- ===== src/Segment/Disk/RoundTrip.antt =====
-- `loadSegment` reads what `storeSegment` wrote.
use master_team_projekt.Prelude.{
  ℕ, ◌*◌, ◌≤◌, ◌<◌, ◌≡◌, refl, ap, ◌∙◌, List, [], ◌∷◌, length, take, none, arith,
}
use master_team_projekt.Segment.Space.{Space, IsSpace}
use master_team_projekt.Segment.State.{
  Segment, Outcome, done, nsm_exception, tuple_not_found, partition_exception, out_of_range,
  undefined, out_of_fuel, bind, unloaded,
}
use master_team_projekt.Segment.Fsm.Chain.{count, head_or}
use master_team_projekt.Segment.Fsm.Owned.{Ends}
use master_team_projekt.Segment.Fsm.Reserve.{IsReady}
use master_team_projekt.Segment.Disk.{
  entries_per_page, store_segment, load_index, load_chain, drop_zero, load_segment,
  load_segment_unbuffered,
}
use master_team_projekt.Segment.Disk.Index.{store, store-Stored}
use master_team_projekt.Segment.Disk.Load.{
  loaded, loaded-take, drop_zero-append, load_index-Stored, load_fsm-Linked,
}

-- What `loadSegment` gives for the first index page of a segment that was stored: its index pages and management
-- pages, and as many of its data pages as the index pages hold numbers.
abbrev pub Reloads : {P : Type 0} → ℕ → Segment P → Segment P → Type 0
Reloads fuel s t =
    load_segment fuel (head_or s.index_pages 0) (unloaded t)
    ≡ done tt (record (unloaded t) {
      seg_id = s.seg_id;
      index_pages = s.index_pages;
      pages = take (length s.index_pages * entries_per_page s.page_size) s.pages;
      fsm_pages = s.fsm_pages;
    })

module _ {P : Type 0} (space : Space P) (laws : IsSpace space) where
  reloads :
      (fuel j f : ℕ) (js fs : List ℕ) (s : Segment P)
      → s.index_pages ≡ j ∷ js
      → s.fsm_pages ≡ f ∷ fs
      → IsReady space laws s
      → length s.index_pages < fuel
      → length s.fsm_pages < fuel
      → Ends ⊥ (λ u t. Reloads fuel s t) (λ t. ⊥) (store_segment s)
  unfolding store_segment load_segment
  reloads fuel j f js fs s ei ef w index_fuel fsm_fuel =
      rw (ei, ef)
        (ap (λ o. bind o (λ first_fsm t. bind (load_chain fuel first_fsm t) finish))
            (load_index-Stored per_page f s.seg_id fuel (j ∷ js) s.pages none t
              (store-Stored per_page f s.seg_id s.file_id (j ∷ js) s.pages s.index_content
                (λ m. rw ei at (once m)))
              (rw ei at index_zero) (rw ei at index_fuel))
          ∙ ap (λ o. bind o finish)
              (load_fsm-Linked fuel (f ∷ fs) [] indexed (rw ef at w.0.linked) (rw ef at fsm_zero)
                (rw ef at fsm_fuel))
          ∙ rw (drop_zero-append (f ∷ fs), loaded-take per_page (j ∷ js) s.pages) refl)
    where
      per_page : ℕ
      per_page = entries_per_page s.page_size

      t : Segment P
      t = unloaded (record s {
        index_content = store per_page f s.seg_id s.file_id (j ∷ js) s.pages s.index_content;
      })

      indexed : Segment P
      indexed = record t {
        seg_id = s.seg_id;
        index_pages = j ∷ js;
        pages = loaded per_page (j ∷ js) s.pages;
      }

      finish : Unit {0} → Segment P → Outcome P (Unit {0})
      finish u v = done tt (record v { fsm_pages = drop_zero v.fsm_pages })

      once : (m : ℕ) → count m s.index_pages ≤ 1
      once m = omega (arith, w.0.once m)

      index_zero : count 0 s.index_pages ≡ 0
      index_zero = omega (arith, w.0.not_zero)

      fsm_zero : count 0 s.fsm_pages ≡ 0
      fsm_zero = omega (arith, w.0.not_zero)

  -- Let the pages of a segment be its own, with at least one index page and one management page, the management
  -- pages linked, and let the fuel exceed the numbers of both. Then `storeSegment` throws nothing, and `loadSegment`
  -- afterwards gives the same id, index pages and management pages, and the first `n * ((page size - 32) / 4)`
  -- data pages for `n` index pages: all of them if there are no more.
  pub load_segment-store_segment :
      (fuel : ℕ) (s : Segment P)
      → IsReady space laws s
      → 0 < length s.index_pages
      → length s.index_pages < fuel
      → length s.fsm_pages < fuel
      → Ends ⊥ (λ u t. Reloads fuel s t) (λ t. ⊥) (store_segment s)
  load_segment-store_segment fuel s w some_index index_fuel fsm_fuel =
      by_lists s.index_pages s.fsm_pages refl refl
    where
      by_lists :
          (js fs : List ℕ)
          → s.index_pages ≡ js
          → s.fsm_pages ≡ fs
          → Ends ⊥ (λ u t. Reloads fuel s t) (λ t. ⊥) (store_segment s)
      by_lists [] fs ei ef = let h = rw ei at some_index in absurd (omega (arith, h))
      by_lists (j ∷ js) [] ei ef = let h = rw ef at w.1 in absurd (omega (arith, h))
      by_lists (j ∷ js) (f ∷ fs) ei ef = reloads fuel j f js fs s ei ef w index_fuel fsm_fuel

bind_assoc {ℓ κ} :
    {P : Type 0} {A : Type ℓ} {B : Type κ} {C : Type 0} (m : Outcome P A)
    (f : A → Segment P → Outcome P B) (g : B → Segment P → Outcome P C)
    → bind m (λ a s. bind (f a s) g) ≡ bind (bind m f) g
bind_assoc (done a s) f g = refl
bind_assoc (nsm_exception s) f g = refl
bind_assoc (tuple_not_found s) f g = refl
bind_assoc partition_exception f g = refl
bind_assoc out_of_range f g = refl
bind_assoc undefined f g = refl
bind_assoc out_of_fuel f g = refl

-- `loadSegment` is `loadSegmentUnbuffered` on what is stored in the partition, and then takes the last 0 off the
-- management pages, which `loadSegmentUnbuffered` leaves there.
pub load_segment-unbuffered :
    {P : Type 0} (fuel n : ℕ) (s : Segment P)
    → load_segment fuel n s
      ≡ bind
          (load_segment_unbuffered fuel n s)
          (λ u v. done tt (record v { fsm_pages = drop_zero v.fsm_pages }))
unfolding load_segment load_segment_unbuffered
load_segment-unbuffered fuel n s = bind_assoc (load_index fuel n none s) _ _
