-- ===== src/Partition/Manager/Create.antt =====
-- `createPartitionFileInstance` keeps the catalogues in order.
use master_team_projekt.Prelude.{
  ℕ, ◌≤◌, ◌<◌, ◌≡◌, refl, sym, List, Option, none, some, Bool, true, false, ◌==◌, if◌then◌else◌,
  inl, inr, Bool-cases, ==→≡, arith,
}
use master_team_projekt.Tuples.Catalogue.{PartitionTuple}
use master_team_projekt.Manager.{name_eq}
use master_team_projekt.Manager.Names.{name_eq_refl, name_eq→≡, updated_id, updated_name}
use master_team_projekt.Partition.Manager.{Partitions, enter}
use master_team_projekt.Partition.Manager.Consistent.{IsCatalogue, Same}

-- A tuple with an id and a name that are not used, and an object for it.
pub enter-IsCatalogue :
    {W : Type 0} (t : PartitionTuple) (m n : Partitions W)
    → IsCatalogue m
    → m.by_name t.name ≡ none
    → m.by_id t.id ≡ none
    → Same m (record n { counter_partition_id = m.counter_partition_id })
    → m.counter_partition_id ≤ n.counter_partition_id
    → t.id < n.counter_partition_id
    → n.partitions t.id ≡ true
    → IsCatalogue (enter t n)
enter-IsCatalogue t m n h no_name no_id same le less there = record {
  named = λ i u e. elim (updated_id i t.id t u (n.by_id i) e) [
    | inl (i_is, u_is) ↦ rw (sym u_is, sym i_is, name_eq_refl t.name) (refl, refl)
    | inr (other, found) ↦ other_name i u (rw same.ids at found)
  ];
  back = λ s i e. elim (updated_name s t.name t.id i (n.by_name s) e) [
    | inl (s_is, i_is) ↦ rw (s_is, sym i_is) (t, own, refl)
    | inr found ↦ other_id s i (h.back s i (rw same.names at found))
  ];
  below = λ i u e. elim (updated_id i t.id t u (n.by_id i) e) [
    | inl (i_is, u_is) ↦ rw i_is less
    | inr (other, found) ↦ omega (arith, h.below i u (rw same.ids at found), le)
  ];
  openable = λ i u e. elim (updated_id i t.id t u (n.by_id i) e) [
    | inl (i_is, u_is) ↦ inl (rw i_is there)
    | inr (other, found) ↦ elim (h.openable i u (rw same.ids at found)) [
      | inl o ↦ inl (same.objects i o)
      | inr file ↦ inr file
    ]
  ];
}
  where
    own : (if t.id == t.id then some t else n.by_id t.id) ≡ some t
    own = let e : (t.id == t.id) ≡ true = ground arith in rw e refl

    other_name :
        (i : ℕ) (u : PartitionTuple)
        → m.by_id i ≡ some u
        → (u.id ≡ i) × ((if name_eq u.name t.name then some t.id else n.by_name u.name) ≡ some i)
    other_name i u found = elim (Bool-cases (name_eq u.name t.name)) [
      | inr e ↦ ((h.named i u found).0, rw (e, same.names) (h.named i u found).1)
      | inl e ↦
          let used = (h.named i u found).1 in
          let is = name_eq→≡ u.name t.name e in absurd (clash (rw is at used))
    ]
      where
        clash : {i : ℕ} → m.by_name t.name ≡ some i → ⊥
        clash used = cc

    other_id :
        (s : List ℕ) (i : ℕ)
        → ((u : PartitionTuple) × (m.by_id i ≡ some u) × (u.name ≡ s))
        → (u : PartitionTuple) × ((if i == t.id then some t else n.by_id i) ≡ some u) × (u.name ≡ s)
    other_id s i (u, found, name) = elim (Bool-cases (i == t.id)) [
      | inr e ↦ (u, rw (e, same.ids) found, name)
      | inl e ↦ let is = ==→≡ i t.id e in absurd (clash (rw is at found))
    ]
      where
        clash : {u : PartitionTuple} → m.by_id t.id ≡ some u → ⊥
        clash used = cc

-- A partition of the path that was known, or a new one with the next id and the name.
pub data IsGiven {W : Type 0} (path name : List ℕ) (m : Partitions W) (r : ℕ × Bool)
    (n : Partitions W) : Type 0 where
  old :
      IsCatalogue n
      → r.1 ≡ false
      → Same m n
      → (t : PartitionTuple) × (m.by_id r.0 ≡ some t) × (t.path ≡ path)
      → IsGiven path name m r n
  new :
      IsCatalogue n
      → r ≡ (m.counter_partition_id, true)
      → n.by_name name ≡ some m.counter_partition_id
      → m.by_name name ≡ none
      → IsGiven path name m r n
