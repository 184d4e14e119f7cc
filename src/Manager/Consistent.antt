-- ===== src/Manager/Consistent.antt =====
-- The two catalogues of the segment manager agree.
pub mod Create
pub mod Delete
use master_team_projekt.Prelude.{
  ℕ, ◌+◌, ◌≤◌, ◌<◌, ◌≡◌, ◌≢◌, refl, sym, ap, ◌∙◌, subst, List, Option, none, some, Bool, true,
  false, ◌==◌, ◌&&◌, ◌||◌, if◌then◌else◌, ◌⊎◌, inl, inr, Bool-cases, ==→≡, ==→≢, arith,
}
use master_team_projekt.Tuples.Catalogue.{SegmentTuple}
use master_team_projekt.Manager.{
  Objects, Manager, Reply, done, segment_exists, segment_not_exists, out_of_range, failed,
  undefined, bind, or_not_exists, with_world, known_name, on_segment, load_object, get_segment,
  get_segment_by_name, set_segment,
}

-- Each tuple is found by its id and by its name, each name leads to a tuple of that name, and the next id is not
-- used.
pub record IsConsistent {W : Type 0} (m : Manager W) : Type 0 where
  pub named :
      (i : ℕ) (t : SegmentTuple) → m.by_id i ≡ some t → (t.id ≡ i) × (m.by_name t.name ≡ some i)
  pub back :
      (s : List ℕ) (i : ℕ)
      → m.by_name s ≡ some i
      → (t : SegmentTuple) × (m.by_id i ≡ some t) × (t.name ≡ s)
  pub below : (i : ℕ) (t : SegmentTuple) → m.by_id i ≡ some t → i < m.counter
  pub typed : (i : ℕ) (t : SegmentTuple) → m.by_id i ≡ some t → (t.type == 1 || t.type == 2) ≡ true

-- The catalogues are the same.
abbrev pub Same : {W : Type 0} → Manager W → Manager W → Type 0
Same m n = (n.by_id ≡ m.by_id) × (n.by_name ≡ m.by_name) × (n.counter ≡ m.counter)

pub Same-IsConsistent : {W : Type 0} (m n : Manager W) → Same m n → IsConsistent m → IsConsistent n
Same-IsConsistent m n (a, b, c) h = record {
  named = λ i t e. rw b (h.named i t (rw a at e));
  back = λ s i e. rw a (h.back s i (rw b at e));
  below = λ i t e. rw c (h.below i t (rw a at e));
  typed = λ i t e. h.typed i t (rw a at e);
}

-- What is true when an operation ends: `Q` of its result, or `E` when it throws. Nothing is promised when an
-- object throws; a null pointer is not used.
abbrev pub Replies {ℓ} :
    {W : Type 0} {A : Type ℓ} → (A → Manager W → Type 0) → (Manager W → Type 0) → Reply W A → Type 0
Replies Q E (done a m) = Q a m
Replies Q E (segment_exists m) = E m
Replies Q E (segment_not_exists m) = E m
Replies Q E (out_of_range m) = E m
Replies Q E failed = Unit
Replies Q E undefined = ⊥

pub Replies-bind {ℓ κ} :
    {W : Type 0} {A : Type ℓ} {B : Type κ} (Q : A → Manager W → Type 0) (R : B → Manager W → Type 0)
    (E F : Manager W → Type 0) (r : Reply W A) (f : A → Manager W → Reply W B)
    → Replies Q E r
    → ((m : Manager W) → E m → F m)
    → ((a : A) (m : Manager W) → Q a m → Replies R F (f a m))
    → Replies R F (bind r f)
Replies-bind Q R E F (done a m) f h e k = k a m h
Replies-bind Q R E F (segment_exists m) f h e k = e m h
Replies-bind Q R E F (segment_not_exists m) f h e k = e m h
Replies-bind Q R E F (out_of_range m) f h e k = e m h
Replies-bind Q R E F failed f h e k = tt
Replies-bind Q R E F undefined f h e k = elim h [ ]

pub Replies-map {ℓ} :
    {W : Type 0} {A : Type ℓ} (Q R : A → Manager W → Type 0) (E F : Manager W → Type 0)
    (r : Reply W A)
    → ((a : A) (m : Manager W) → Q a m → R a m)
    → ((m : Manager W) → E m → F m)
    → Replies Q E r
    → Replies R F r
Replies-map Q R E F (done a m) k e h = k a m h
Replies-map Q R E F (segment_exists m) k e h = e m h
Replies-map Q R E F (segment_not_exists m) k e h = e m h
Replies-map Q R E F (out_of_range m) k e h = e m h
Replies-map Q R E F failed k e h = tt
Replies-map Q R E F undefined k e h = h

pub or_not_exists-Replies {ℓ} :
    {W : Type 0} {A : Type ℓ} (Q : A → Manager W → Type 0) (E : Manager W → Type 0) (r : Reply W A)
    → Replies Q E r
    → Replies Q E (or_not_exists r)
or_not_exists-Replies Q E (done a m) h = h
or_not_exists-Replies Q E (segment_exists m) h = h
or_not_exists-Replies Q E (segment_not_exists m) h = h
or_not_exists-Replies Q E (out_of_range m) h = h
or_not_exists-Replies Q E failed h = h
or_not_exists-Replies Q E undefined h = h

pub with_world-Same :
    {W : Type 0} (E : Manager W → Type 0) (m : Manager W) (o : Option W)
    → Replies (λ u n. Same m n) E (with_world m o)
with_world-Same E m none = tt
with_world-Same E m (some w) = (refl, refl, refl)

-- A segment was found, and the catalogues stay.
abbrev pub Found : {W : Type 0} → Manager W → Option ℕ → Manager W → Type 0
Found m s n = ((i : ℕ) × (s ≡ some i)) × Same m n

-- A segment is missed: the id is not in the catalogue, which stays.
abbrev pub Misses : {W : Type 0} → ℕ → Manager W → Manager W → Type 0
Misses id m n = (m.by_id id ≡ none) × Same m n

abbrev pub MissesName : {W : Type 0} → List ℕ → Manager W → Manager W → Type 0
MissesName name m n = (m.by_name name ≡ none) × Same m n

module _ {W : Type 0} (objects : Objects W) (master : List ℕ) where
  pub get_segment-Found :
      (id : ℕ) (m : Manager W)
      → IsConsistent m
      → Replies (λ s n. (s ≡ some id) × Same m n) (Misses id m) (get_segment objects master id m)
  unfolding get_segment load_object
  get_segment-Found id m h = elim (Bool-cases (m.segments id)) [
    | inl e ↦ rw e (refl, (refl, refl, refl))
    | inr e ↦ rw e (by_tuple (m.by_id id) refl)
  ]
    where
      by_tuple :
          (o : Option SegmentTuple)
          → m.by_id id ≡ o
          → Replies
              (λ s n. (s ≡ some id) × Same m n)
              (Misses id m)
              (load_object objects master id o m)
      by_tuple none e = (e, (refl, refl, refl))
      by_tuple (some t) e =
          let here : (id == t.id) ≡ true = let i = (h.named id t e).0 in ground (arith, i) in
          rw (h.typed id t e) (
            Replies-bind (λ u n. Same m n) (λ s n. (s ≡ some id) × Same m n) (λ n. ⊥) (Misses id m)
              (with_world m (objects.load t m.world))
              (λ u n.
                let p = set_segment t.id true n in
                if p.segments id then done (some id) p else out_of_range p)
              (with_world-Same (λ n. ⊥) m (objects.load t m.world)) (λ n never. absurd never)
              (λ u n same. rw here (refl, same)))

  pub get_segment_by_name-Found :
      (name : List ℕ) (m : Manager W)
      → IsConsistent m
      → Replies (Found m) (MissesName name m) (get_segment_by_name objects master name m)
  unfolding get_segment_by_name
  get_segment_by_name-Found name m h = by_id (m.by_name name) refl
    where
      there : (id : ℕ) → m.by_name name ≡ some id → m.by_id id ≡ none → ⊥
      there id e gone = let b = h.back name id e in clash b.0 gone b.1
        where
          clash : (t : SegmentTuple) → m.by_id id ≡ none → m.by_id id ≡ some t → ⊥
          clash t gone found = cc

      by_id :
          (o : Option ℕ)
          → m.by_name name ≡ o
          → Replies
              (Found m)
              (MissesName name m)
              (known_name o (λ id. get_segment objects master id m) m)
      by_id none e = (e, (refl, refl, refl))
      by_id (some id) e = or_not_exists-Replies (Found m) (MissesName name m) _ (
          Replies-map (λ s n. (s ≡ some id) × Same m n) (Found m) (Misses id m) (MissesName name m)
            _ (λ s n k. ((id, k.0), k.1)) (λ n k. absurd (there id e k.0))
            (get_segment-Found id m h))

  -- A step on the master segment keeps the catalogues.
  pub on_master :
      (m : Manager W) (f : ℕ → Manager W → Option W)
      → IsConsistent m
      → Replies
          (λ u n. Same m n)
          (MissesName master m)
          (bind
            (get_segment_by_name objects master master m)
            (λ s n. on_segment s (λ id. with_world n (f id n))))
  on_master m f h =
      Replies-bind (Found m) (λ u n. Same m n) (MissesName master m) (MissesName master m)
        (get_segment_by_name objects master master m) _ (get_segment_by_name-Found master m h)
        (λ n misses. misses) at_master
    where
      keeps :
          (n : Manager W) (o : Option W)
          → Same m n
          → Replies (λ u p. Same m p) (MissesName master m) (with_world n o)
      keeps n none same = tt
      keeps n (some w) same = same

      at_master :
          (s : Option ℕ) (n : Manager W)
          → Found m s n
          → Replies
              (λ u p. Same m p)
              (MissesName master m)
              (on_segment s (λ id. with_world n (f id n)))
      at_master none n ((i, e), same) = absurd cc
      at_master (some id) n (e, same) = keeps n (f id n) same
