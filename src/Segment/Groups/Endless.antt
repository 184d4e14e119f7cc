-- ===== src/Segment/Groups/Endless.antt =====
-- A tuple that is larger than a part keeps the loop of `insertTuplesSub` running.
use master_team_projekt.Prelude.{ℕ, zero, suc, ◌<◌, ◌≡◌, refl, ◌∙◌, List, [], ◌∷◌, map, arith}
use master_team_projekt.Prelude.Word.{sub_32}
use master_team_projekt.Infra.Headers.{sp_header_size}
use master_team_projekt.Interpreter.Sp.{SpPage}
use master_team_projekt.Segment.Space.{Space, IsSpace}
use master_team_projekt.Segment.State.{
  Segment, Outcome, done, nsm_exception, tuple_not_found, partition_exception, out_of_range,
  undefined, out_of_fuel, bind,
}
use master_team_projekt.Segment.Fsm
use master_team_projekt.Segment.Fsm.{Choice}
use master_team_projekt.Segment.Fsm.Owned.{Ends, Exhausted}
use master_team_projekt.Segment.Fsm.Reserve.{IsReady, Chosen, known, fresh, Refused}
use master_team_projekt.Segment.Fsm.Choose.{IsTooLarge, get_free_page-Chosen}
use master_team_projekt.Segment.Records.{TupleClass, prepared, write_sp}
use master_team_projekt.Segment.Groups.{
  room_for, part_limit, take_part, cut, catch_nsm, store_all, insert_part, insert_parts,
}

cut-large :
    (limit size : ℕ) (sizes : List ℕ)
    → 0 < limit
    → limit < room_for size
    → cut limit (size ∷ sizes) ≡ 0
unfolding cut take_part
cut-large limit size sizes pos large = by_rest sizes
  where
    by_rest : (sizes : List ℕ) → cut limit (size ∷ sizes) ≡ 0
    by_rest [] = ground (arith, pos, large)
    by_rest (x ∷ xs) = ground (arith, pos, large)

-- An operation that runs out of its fuel, or that the partition interrupts for the reason `F`, or that returns a
-- segment with `Q`; it throws nothing of its own.
abbrev pub Runs {ℓ} :
    {P : Type 0} {A : Type ℓ} → Type 0 → (Segment P → Type 0) → Outcome P A → Type 0
Runs F Q (done a s) = Q s
Runs F Q (nsm_exception s) = ⊥
Runs F Q (tuple_not_found s) = ⊥
Runs F Q partition_exception = F
Runs F Q out_of_range = ⊥
Runs F Q undefined = ⊥
Runs F Q out_of_fuel = Unit

-- An operation that does not come to an end: it neither returns nor throws, unless the partition does.
abbrev pub IsEndless {ℓ} : {P : Type 0} {A : Type ℓ} → Type 0 → Outcome P A → Type 0
IsEndless F o = Runs F (λ s. ⊥) o

Runs-bind {ℓ κ} :
    {P : Type 0} {A : Type ℓ} {B : Type κ} (F : Type 0) (Q R : Segment P → Type 0) (m : Outcome P A)
    (f : A → Segment P → Outcome P B)
    → Runs F Q m
    → ((a : A) (s : Segment P) → Q s → Runs F R (f a s))
    → Runs F R (bind m f)
Runs-bind F Q R (done a s) f h k = k a s h
Runs-bind F Q R (nsm_exception s) f h k = absurd h
Runs-bind F Q R (tuple_not_found s) f h k = absurd h
Runs-bind F Q R partition_exception f h k = h
Runs-bind F Q R out_of_range f h k = absurd h
Runs-bind F Q R undefined f h k = absurd h
Runs-bind F Q R out_of_fuel f h k = tt

module _ {P : Type 0} {A : Type 0} (class : TupleClass A) (space : Space P)
    (laws : IsSpace space) where
  -- The segment is ready and its pages have the size `n`.
  Sized : ℕ → Segment P → Type 0
  Sized n t = IsReady space laws t × (t.page_size ≡ n)

  empty_part :
      (fuel n : ℕ) (s : Segment P)
      → Sized n s
      → Runs (Exhausted space laws) (Sized n) (insert_part class space fuel [] s)
  unfolding Sized insert_part store_all
  empty_part zero n s h = tt
  empty_part (suc fuel) n s (w, e) =
      by_page (Fsm.get_free_page space 0 sp_header_size s)
        (get_free_page-Chosen space laws 0 sp_header_size s w)
    where
      none_larger : (size : ℕ) → IsTooLarge size 0 → ⊥
      none_larger size y = omega (arith, y)

      written :
          (t : Segment P) (m : ℕ) (p : SpPage)
          → IsReady space laws t
          → IsReady space laws (write_sp m p t)
      written t m p (v, some_fsm) = (
        record {
          good = v.good;
          once = v.once;
          taken = v.taken;
          not_zero = v.not_zero;
          linked = v.linked;
        },
        some_fsm,
      )

      by_page :
          (o : Outcome P Choice)
          → Ends
              (Exhausted space laws)
              (Chosen space laws s)
              (Refused space laws (IsTooLarge (sub_32 s.page_size sp_header_size) 0) s)
              o
          → Runs (Exhausted space laws) (Sized n) (
              catch_nsm o
                (λ c t. store_all class c.page_no [] (write_sp c.page_no (prepared c t) t))
                (λ t. insert_parts class space fuel [] t))
      by_page (done c t) (known v k i same j found) = (written t c.page_no _ v, k.3 ∙ e)
      by_page (done c t) (fresh v k i more none_yet) = (written t c.page_no _ v, k.3 ∙ e)
      by_page (nsm_exception t) (v, k, same, y) = absurd (none_larger _ y)
      by_page (tuple_not_found t) (v, k, same, y) = absurd (none_larger _ y)
      by_page partition_exception h = h
      by_page out_of_range h = h
      by_page undefined h = h
      by_page out_of_fuel h = absurd h

  never_fits :
      (fuel n : ℕ) (a : A) (rest : List A) (t : Segment P)
      → 0 < part_limit n
      → part_limit n < room_for (class.size a)
      → Sized n t
      → IsEndless (Exhausted space laws) (insert_parts class space fuel (a ∷ rest) t)
  unfolding Sized insert_parts
  never_fits zero n a rest t pos large h = tt
  never_fits (suc fuel) n a rest t pos large h =
      let none_fits : cut (part_limit t.page_size) (class.size a ∷ map class.size rest) ≡ 0 =
        cut-large (part_limit t.page_size) (class.size a) (map class.size rest) (rw h.1 pos)
          (rw h.1 large) in
      rw none_fits (
        Runs-bind (Exhausted space laws) (Sized n) (λ v. ⊥) (insert_part class space fuel [] t) _
          (empty_part fuel n t h)
          (λ tids u k.
            Runs-bind (Exhausted space laws) (λ v. ⊥) (λ v. ⊥)
              (insert_parts class space fuel (a ∷ rest) u) _
              (never_fits fuel n a rest u pos large k) (λ more v never. never)))

  -- Let the pages of a segment be its own and its management pages linked, and let the partition keep what
  -- `IsSpace` says. If the next tuple, rounded up and with its slot, is larger than fifteen buckets of a page, then
  -- the loop of `insertTuplesSub` runs out of any fuel: it does not return and throws nothing of its own, and is only
  -- interrupted if the partition, in order, hands out no page.
  pub insert_parts-IsEndless :
      (fuel : ℕ) (a : A) (rest : List A) (s : Segment P)
      → IsReady space laws s
      → 0 < part_limit s.page_size
      → part_limit s.page_size < room_for (class.size a)
      → IsEndless (Exhausted space laws) (insert_parts class space fuel (a ∷ rest) s)
  unfolding Sized
  insert_parts-IsEndless fuel a rest s w pos large =
      never_fits fuel s.page_size a rest s pos large (w, refl)
