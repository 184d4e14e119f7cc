-- ===== src/Segment/Records/Remove.antt =====
-- src/segment/segment_manager.hh: the search of `deleteTuplePhysically` for the tuple of an id in the master
-- segment, and its deletion. The locks of the pages are left out.
pub mod Deletes
use master_team_projekt.Prelude.{
  ℕ, zero, suc, ◌+◌, ◌-◌, ◌≤◌, ◌<◌, ◌≡◌, ◌≢◌, refl, sym, ap, ◌∙◌, subst, List, [], ◌∷◌, Option,
  none, some, Bool, true, false, ◌==◌, ◌&&◌, if◌then◌else◌, Bool-cases, Option-cases, ==→≡, ==→≢,
  inl, inr, arith,
}
use mathlib.Core.Option.{some_inj}
use master_team_projekt.Infra.Types.{TupleId}
use master_team_projekt.Interpreter.Sp.{SpPage, get_record, delete_record_soft}
use master_team_projekt.Interpreter.Sp.Records.{read_bytes}
use master_team_projekt.Segment.State.{
  Segment, Outcome, done, tuple_not_found, undefined, set_content_self, set_content_ne,
}
use master_team_projekt.Segment.Fsm.Chain.{count}
use master_team_projekt.Segment.Records.{TupleClass, write_sp}

-- `broken` is a record that would be read behind the end of its page.
pub data Search : Type 0 where
  nowhere broken : Search
  at : ℕ → Search

module _ {A : Type 0} (class : TupleClass A) (id_of : A → ℕ) (id page_size : ℕ) where
  -- The tuple at a pointer has the id; `later` is the search behind it.
  abbrev pub compare_id : ℕ → Option (A × List ℕ) → Search → Search
  compare_id j none later = broken
  compare_id j (some (a, rest)) later = if id_of a == id then at j else later

  abbrev pub look : SpPage → ℕ → Option ℕ → Search → Search
  look p j none later = later
  look p j (some place) later =
      compare_id j (class.to_memory (read_bytes p place (page_size - place))) later

  -- The records of a page from number `j` on.
  unfoldable pub search_page : SpPage → ℕ → ℕ → Search
  search_page p zero j = nowhere
  search_page p (suc left) j = look p j (get_record p j) (search_page p left (j + 1))

abbrev pub soft_delete : {P : Type 0} → ℕ → ℕ → Segment P → Outcome P TupleId
soft_delete n j s =
    done (record { page_no = n; tuple_no = j })
      (write_sp n (delete_record_soft (s.sp_content n) j) s)

abbrev pub on_search : {P : Type 0} → ℕ → Search → Segment P → Outcome P TupleId → Outcome P TupleId
on_search n nowhere s later = later
on_search n broken s later = undefined
on_search n (at j) s later = soft_delete n j s

-- The pages that are left. `tuple_not_found` is the `BaseException` at the end.
unfoldable pub remove_from :
    {P : Type 0} {A : Type 0} → TupleClass A → (A → ℕ) → ℕ → List ℕ → Segment P → Outcome P TupleId
unfolding search_page
remove_from class id_of id [] s = tuple_not_found s
remove_from class id_of id (n ∷ ns) s =
    on_search n
      (search_page class id_of id s.page_size (s.sp_content n) (s.sp_content n).no_records 0) s
      (remove_from class id_of id ns s)

unfoldable pub remove_tuple :
    {P : Type 0} {A : Type 0} → TupleClass A → (A → ℕ) → ℕ → Segment P → Outcome P TupleId
unfolding remove_from
remove_tuple class id_of id s = remove_from class id_of id s.pages s

-- The record `j` of a page holds a tuple with the id.
pub record HoldsId {A : Type 0} (class : TupleClass A) (id_of : A → ℕ) (id page_size : ℕ)
    (p : SpPage) (j : ℕ) : Type 0 where
  pub place : ℕ
  pub found : get_record p j ≡ some place
  pub tuple : A
  pub rest : List ℕ
  pub content : class.to_memory (read_bytes p place (page_size - place)) ≡ some (tuple, rest)
  pub same_id : id_of tuple ≡ id

-- What a search says of the records from `lo` to `hi - 1`.
abbrev pub Says : {A : Type 0} → TupleClass A → (A → ℕ) → ℕ → ℕ → SpPage → ℕ → ℕ → Search → Type 0
Says class id_of id page_size p lo hi nowhere =
    (k : ℕ) → lo ≤ k → k < hi → HoldsId class id_of id page_size p k → ⊥
Says class id_of id page_size p lo hi broken = Unit
Says class id_of id page_size p lo hi (at j) = HoldsId class id_of id page_size p j

module _ {A : Type 0} (class : TupleClass A) (id_of : A → ℕ) (id page_size : ℕ) where
  -- A record that does not hold the id is passed over.
  passed :
      (p : SpPage) (lo hi : ℕ) (later : Search)
      → (HoldsId class id_of id page_size p lo → ⊥)
      → Says class id_of id page_size p (lo + 1) hi later
      → Says class id_of id page_size p lo hi later
  passed p lo hi nowhere other h = λ k above below holds. elim (Bool-cases (k == lo)) [
    | inl e ↦ other (subst (HoldsId class id_of id page_size p) (==→≡ k lo e) holds)
    | inr e ↦ h k (let ne = ==→≢ k lo e in omega (arith, above, ne)) below holds
  ]
  passed p lo hi broken other h = tt
  passed p lo hi (at j) other h = h

  looked :
      (p : SpPage) (lo hi : ℕ) (later : Search) (o : Option ℕ)
      → get_record p lo ≡ o
      → Says class id_of id page_size p (lo + 1) hi later
      → Says class id_of id page_size p lo hi (look class id_of id page_size p lo o later)
  looked p lo hi later none e h =
      passed p lo hi later (λ holds. let f = holds.found in absurd (nothing (sym e ∙ f))) h
    where
      nothing : {place : ℕ} → ◌≡◌ {A = Option ℕ} none (some place) → ⊥
      nothing e = cc
  looked p lo hi later (some place) e h =
      by_tuple (class.to_memory (read_bytes p place (page_size - place))) refl
    where
      by_tuple :
          (o : Option (A × List ℕ))
          → class.to_memory (read_bytes p place (page_size - place)) ≡ o
          → Says class id_of id page_size p lo hi (compare_id class id_of id page_size lo o later)
      by_tuple none content = tt
      by_tuple (some (a, rest)) content = elim (Bool-cases (id_of a == id)) [
        | inl i ↦ rw i (record {
          place = place;
          found = e;
          tuple = a;
          rest = rest;
          content = content;
          same_id = ==→≡ (id_of a) id i;
        })
        | inr i ↦
            rw i
              (passed p lo hi later (λ holds. ==→≢ (id_of a) id i (its_id a rest content holds)) h)
      ]
        where
          its_id :
              (a : A) (rest : List ℕ)
              → class.to_memory (read_bytes p place (page_size - place)) ≡ some (a, rest)
              → HoldsId class id_of id page_size p lo
              → id_of a ≡ id
          its_id a rest content holds =
              let place_is : place ≡ holds.place = some_inj.0 (sym e ∙ holds.found) in
              let read = rw (sym place_is) at holds.content in
              let pair : ◌≡◌ {A = A × List ℕ} (a, rest) (holds.tuple, holds.rest) =
                some_inj.0 (sym content ∙ read) in
              ap (λ q. id_of q.0) pair ∙ holds.same_id

  pub search_page-Says :
      (p : SpPage) (left j : ℕ)
      → Says class id_of id page_size p j (j + left) (search_page class id_of id page_size p left j)
  unfolding search_page
  search_page-Says p zero j = λ k above below holds. omega (arith, above, below)
  search_page-Says p (suc left) j =
      let e : j + suc left ≡ j + 1 + left = omega arith in
      subst
        (λ hi.
          Says class id_of id page_size p j hi
            (search_page class id_of id page_size p (suc left) j))
        (sym e)
        (looked p j (j + 1 + left) _ (get_record p j) refl (search_page-Says p left (j + 1)))
