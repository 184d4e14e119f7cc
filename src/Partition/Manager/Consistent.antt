-- ===== src/Partition/Manager/Consistent.antt =====
-- The catalogues of the partition manager agree.
use master_team_projekt.Prelude.{
  ℕ, ◌<◌, ◌≡◌, refl, List, Option, none, some, Bool, true, false, ◌==◌, ◌⊎◌, inl, inr, Bool-cases,
  arith,
}
use master_team_projekt.Tuples.Catalogue.{PartitionTuple}
use master_team_projekt.Partition.Manager.{
  Services, Partitions, Response, done, partition_not_exists, partition_exists, invalid_path,
  invalid_argument, partition_exception, out_of_range, failed, undefined, bind, served,
  tuple_or_not_exists, get_partition_t, open_object, get_partition,
}

-- Each tuple is found by its id and by its name, each name leads to a tuple of that name, the next id is not
-- used, and there is an object for each tuple, or one can be made: the type is that of a file.
pub record IsCatalogue {W : Type 0} (m : Partitions W) : Type 0 where
  pub named :
      (i : ℕ) (t : PartitionTuple) → m.by_id i ≡ some t → (t.id ≡ i) × (m.by_name t.name ≡ some i)
  pub back :
      (s : List ℕ) (i : ℕ)
      → m.by_name s ≡ some i
      → (t : PartitionTuple) × (m.by_id i ≡ some t) × (t.name ≡ s)
  pub below : (i : ℕ) (t : PartitionTuple) → m.by_id i ≡ some t → i < m.counter_partition_id
  pub openable :
      (i : ℕ) (t : PartitionTuple)
      → m.by_id i ≡ some t
      → (m.partitions i ≡ true) ⊎ ((t.type == 1) ≡ true)

-- The catalogues are the same, and no object has gone.
pub record Same {W : Type 0} (m n : Partitions W) : Type 0 where
  pub ids : n.by_id ≡ m.by_id
  pub names : n.by_name ≡ m.by_name
  pub counter : n.counter_partition_id ≡ m.counter_partition_id
  pub objects : (i : ℕ) → m.partitions i ≡ true → n.partitions i ≡ true

pub Same-IsCatalogue : {W : Type 0} (m n : Partitions W) → Same m n → IsCatalogue m → IsCatalogue n
Same-IsCatalogue m n k h = record {
  named = λ i t e. rw k.names (h.named i t (rw k.ids at e));
  back = λ s i e. rw k.ids (h.back s i (rw k.names at e));
  below = λ i t e. rw k.counter (h.below i t (rw k.ids at e));
  openable = λ i t e. elim (h.openable i t (rw k.ids at e)) [
    | inl there ↦ inl (k.objects i there)
    | inr file ↦ inr file
  ];
}

-- What is true when an operation ends: `Q` of its result, or `E` when it throws. Nothing is promised when a
-- service throws; a pointer that was never set is not used.
abbrev pub Responds :
    {W A : Type 0} → (A → Partitions W → Type 0) → (Partitions W → Type 0) → Response W A → Type 0
Responds Q E (done a m) = Q a m
Responds Q E (partition_not_exists m) = E m
Responds Q E (partition_exists m) = E m
Responds Q E (invalid_path m) = E m
Responds Q E (invalid_argument m) = E m
Responds Q E (partition_exception m) = E m
Responds Q E (out_of_range m) = E m
Responds Q E failed = Unit
Responds Q E undefined = ⊥

pub Responds-bind :
    {W A B : Type 0} (Q : A → Partitions W → Type 0) (R : B → Partitions W → Type 0)
    (E F : Partitions W → Type 0) (r : Response W A) (f : A → Partitions W → Response W B)
    → Responds Q E r
    → ((m : Partitions W) → E m → F m)
    → ((a : A) (m : Partitions W) → Q a m → Responds R F (f a m))
    → Responds R F (bind r f)
Responds-bind Q R E F (done a m) f h e k = k a m h
Responds-bind Q R E F (partition_not_exists m) f h e k = e m h
Responds-bind Q R E F (partition_exists m) f h e k = e m h
Responds-bind Q R E F (invalid_path m) f h e k = e m h
Responds-bind Q R E F (invalid_argument m) f h e k = e m h
Responds-bind Q R E F (partition_exception m) f h e k = e m h
Responds-bind Q R E F (out_of_range m) f h e k = e m h
Responds-bind Q R E F failed f h e k = tt
Responds-bind Q R E F undefined f h e k = elim h [ ]

pub served-Same :
    {W : Type 0} (E : Partitions W → Type 0) (m : Partitions W) (o : Option W)
    → Responds (λ u n. Same m n) E (served m o)
served-Same E m none = tt
served-Same E m (some w) = record {
  ids = refl;
  names = refl;
  counter = refl;
  objects = λ i there. there;
}

-- A partition is missed: the id is not in the catalogue, which stays.
abbrev pub Misses : {W : Type 0} → ℕ → Partitions W → Partitions W → Type 0
Misses id m n = (m.by_id id ≡ none) × Same m n

module _ {W : Type 0} (services : Services W) where
  -- `getPartition` returns the object of the id, or misses it, and keeps the catalogues.
  pub get_partition-Same :
      (id : ℕ) (m : Partitions W)
      → IsCatalogue m
      → Responds (λ i n. (i ≡ id) × Same m n) (Misses id m) (get_partition services id m)
  unfolding get_partition get_partition_t open_object
  get_partition-Same id m h = elim (Bool-cases (m.partitions id)) [
    | inl e ↦ rw e (refl, itself)
    | inr e ↦ rw e (by_tuple (m.by_id id) refl e)
  ]
    where
      itself : Same m m
      itself = record { ids = refl; names = refl; counter = refl; objects = λ i there. there }

      missing : {b : Bool} → b ≡ false → b ≡ true → ⊥
      missing e e' = cc

      by_tuple :
          (o : Option PartitionTuple)
          → m.by_id id ≡ o
          → m.partitions id ≡ false
          → Responds
              (λ i n. (i ≡ id) × Same m n)
              (Misses id m)
              (bind (tuple_or_not_exists m o) (λ t n. open_object services id t n))
      by_tuple none e gone = (e, itself)
      by_tuple (some t) e gone = elim (h.openable id t e) [
        | inl there ↦ absurd (missing gone there)
        | inr file ↦
            let here : (id == t.id) ≡ true = let i = (h.named id t e).0 in ground (arith, i) in
            rw file (
              Responds-bind (λ u n. Same m n) (λ i n. (i ≡ id) × Same m n) (λ n. ⊥) (Misses id m)
                (served m (services.open_partition t m.world)) _
                (served-Same (λ n. ⊥) m (services.open_partition t m.world))
                (λ n never. absurd never)
                (λ u n same. rw here (
                  refl,
                  record {
                    ids = same.ids;
                    names = same.names;
                    counter = same.counter;
                    objects = λ i there. let still = same.objects i there in ground (arith, still);
                  },
                )))
      ]
