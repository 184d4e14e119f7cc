-- ===== src/Segment/Fsm/Owned.antt =====
-- The pages of a segment are its own: each is in one list, once, and not free in the partition.
use master_team_projekt.Prelude.{
  ℕ, ◌+◌, ◌≤◌, ◌≡◌, refl, sym, subst, none, some, ◌==◌, if◌then◌else◌, Bool-cases, ==→≡, inl, inr,
  arith, Option,
}
use master_team_projekt.Segment.Space.{Space, IsSpace}
use master_team_projekt.Segment.State.{
  Segment, Outcome, done, nsm_exception, tuple_not_found, partition_exception, out_of_range,
  undefined, out_of_fuel, bind, page_or_exception, allocate,
}
use master_team_projekt.Segment.Fsm.Chain.{count, Linked}

abbrev pub copies : {P : Type 0} → Segment P → ℕ → ℕ
copies s m = count m s.pages + count m s.index_pages + count m s.fsm_pages

-- What is true when an operation ends: `Q` of its result, or `E` of the segment when an exception of the
-- segment's own is thrown, or `F` when the partition throws; anything else does not happen.
abbrev pub Ends {ℓ} :
    {P : Type 0} {A : Type ℓ}
    → Type 0
    → (A → Segment P → Type 0)
    → (Segment P → Type 0)
    → Outcome P A
    → Type 0
Ends F Q E (done a s) = Q a s
Ends F Q E (nsm_exception s) = E s
Ends F Q E (tuple_not_found s) = E s
Ends F Q E partition_exception = F
Ends F Q E out_of_range = ⊥
Ends F Q E undefined = ⊥
Ends F Q E out_of_fuel = ⊥

pub Ends-bind {ℓ κ} :
    {P : Type 0} {A : Type ℓ} {B : Type κ} (F : Type 0) (Q : A → Segment P → Type 0)
    (R : B → Segment P → Type 0) (E : Segment P → Type 0) (m : Outcome P A)
    (f : A → Segment P → Outcome P B)
    → Ends F Q E m
    → ((a : A) (s : Segment P) → Q a s → Ends F R E (f a s))
    → Ends F R E (bind m f)
Ends-bind F Q R E (done a s) f h k = k a s h
Ends-bind F Q R E (nsm_exception s) f h k = h
Ends-bind F Q R E (tuple_not_found s) f h k = h
Ends-bind F Q R E partition_exception f h k = h
Ends-bind F Q R E out_of_range f h k = elim h [ ]
Ends-bind F Q R E undefined f h k = elim h [ ]
Ends-bind F Q R E out_of_fuel f h k = elim h [ ]

pub Ends-weaken {ℓ} :
    {P : Type 0} {A : Type ℓ} (F : Type 0) (Q : A → Segment P → Type 0) (E G : Segment P → Type 0)
    (m : Outcome P A)
    → ((s : Segment P) → E s → G s)
    → Ends F Q E m
    → Ends F Q G m
Ends-weaken F Q E G (done a s) h k = k
Ends-weaken F Q E G (nsm_exception s) h k = h s k
Ends-weaken F Q E G (tuple_not_found s) h k = h s k
Ends-weaken F Q E G partition_exception h k = k
Ends-weaken F Q E G out_of_range h k = k
Ends-weaken F Q E G undefined h k = k
Ends-weaken F Q E G out_of_fuel h k = k

pub Ends-map {ℓ} :
    {P : Type 0} {A : Type ℓ} (F : Type 0) (Q R : A → Segment P → Type 0) (E : Segment P → Type 0)
    (m : Outcome P A)
    → ((a : A) (s : Segment P) → Q a s → R a s)
    → Ends F Q E m
    → Ends F R E m
Ends-map F Q R E (done a s) h k = h a s k
Ends-map F Q R E (nsm_exception s) h k = k
Ends-map F Q R E (tuple_not_found s) h k = k
Ends-map F Q R E partition_exception h k = k
Ends-map F Q R E out_of_range h k = k
Ends-map F Q R E undefined h k = k
Ends-map F Q R E out_of_fuel h k = k

-- A partition that is in order and hands out no page.
abbrev pub Exhausted : {P : Type 0} (space : Space P) → IsSpace space → Type 0
Exhausted {P} space laws = (p : P) × laws.Good p × (space.alloc p ≡ none)

module _ {P : Type 0} (space : Space P) (laws : IsSpace space) where
  pub record IsWellFormed (s : Segment P) : Type 0 where
    pub good : laws.Good s.partition
    pub once : (m : ℕ) → copies s m ≤ 1
    pub taken : (m : ℕ) → laws.Free s.partition m → copies s m ≡ 0
    pub not_zero : copies s 0 ≡ 0
    pub linked : Linked s.fsm_content s.fsm_pages

  -- A page `n` was allocated, and no list holds it yet.
  pub record Allocates (s : Segment P) (n : ℕ) (t : Segment P) : Type 0 where
    pub rest : t ≡ record s { partition = t.partition }
    pub was_free : laws.Free s.partition n
    pub grows :
        (v : Segment P)
        → v.partition ≡ t.partition
        → ((m : ℕ) → copies v m ≡ copies s m + (if n == m then 1 else 0))
        → Linked v.fsm_content v.fsm_pages
        → IsWellFormed v

  pub allocate-Allocates :
      (s : Segment P) (E : Segment P → Type 0)
      → IsWellFormed s
      → Ends (Exhausted space laws) (Allocates s) E (allocate space s)
  unfolding allocate
  allocate-Allocates s E w = by_page (space.alloc s.partition) refl
    where
      by_page :
          (r : Option (ℕ × P))
          → space.alloc s.partition ≡ r
          → Ends (Exhausted space laws) (Allocates s) E (page_or_exception s r)
      by_page none e = (s.partition, w.good, e)
      by_page (some (n, p)) e = record {
        rest = refl;
        was_free = laws.alloc_free w.good e;
        grows = λ v same more chain. record {
          good = subst laws.Good (sym same) (laws.alloc_good w.good e);
          once = λ m. elim (Bool-cases (n == m)) [
            | inl i ↦
                let none_yet = w.taken n (laws.alloc_free w.good e) in
                let here = ==→≡ n m i in
                omega (arith, more m, rw i at (more m), rw here at none_yet)
            | inr i ↦ omega (arith, w.once m, rw i at (more m))
          ];
          taken = λ m free.
              let before = laws.alloc_others w.good e m (subst (λ q. laws.Free q m) same free) in
              let other = before.1 in ground (arith, more m, w.taken m before.0);
          not_zero = let nz = laws.alloc_nonzero w.good e in ground (arith, more 0, w.not_zero);
          linked = chain;
        };
      }
