-- ===== src/Manager/Consistent/Create.antt =====
-- `createNewSegmentFSM_SP` keeps the catalogues consistent.
use master_team_projekt.Prelude.{
  ℕ, ◌≤◌, ◌<◌, ◌≡◌, ◌≢◌, ◌⊎◌, refl, sym, List, Option, none, some, true, ◌==◌, ◌||◌, if◌then◌else◌,
  inl, inr, Bool-cases, ==→≡, arith,
}
use master_team_projekt.Tuples.Catalogue.{SegmentTuple}
use master_team_projekt.Manager.{Manager, name_eq, add_tuple}
use master_team_projekt.Manager.Names.{name_eq_refl, name_eq→≡, updated_id, updated_name}
use master_team_projekt.Manager.Consistent.{IsConsistent}

module _ {W : Type 0} where
  -- A tuple with an id and a name that are not used.
  pub add_tuple-IsConsistent :
      (t : SegmentTuple) (m : Manager W)
      → IsConsistent m
      → m.by_name t.name ≡ none
      → m.by_id t.id ≡ none
      → (t.type == 1 || t.type == 2) ≡ true
      → (n : Manager W) → n.by_id ≡ m.by_id
      → n.by_name ≡ m.by_name
      → m.counter ≤ n.counter
      → t.id < n.counter
      → IsConsistent (add_tuple t n)
  add_tuple-IsConsistent t m h no_name no_id type n same_id same_name le less = record {
    named = λ i u e. elim (updated_id i t.id t u (n.by_id i) e) [
      | inl (i_is, u_is) ↦ rw (sym u_is, sym i_is, name_eq_refl t.name) (refl, refl)
      | inr (other, found) ↦ other_name i u (rw same_id at found)
    ];
    back = λ s i e. elim (updated_name s t.name t.id i (n.by_name s) e) [
      | inl (s_is, i_is) ↦ rw (s_is, sym i_is) (t, own, refl)
      | inr found ↦ other_id s i (h.back s i (rw same_name at found))
    ];
    below = λ i u e. elim (updated_id i t.id t u (n.by_id i) e) [
      | inl (i_is, u_is) ↦ rw i_is less
      | inr (other, found) ↦ omega (arith, h.below i u (rw same_id at found), le)
    ];
    typed = λ i u e. elim (updated_id i t.id t u (n.by_id i) e) [
      | inl (i_is, u_is) ↦ rw (sym u_is) type
      | inr (other, found) ↦ h.typed i u (rw same_id at found)
    ];
  }
    where
      own : (if t.id == t.id then some t else n.by_id t.id) ≡ some t
      own = let e : (t.id == t.id) ≡ true = ground arith in rw e refl

      other_name :
          (i : ℕ) (u : SegmentTuple)
          → m.by_id i ≡ some u
          → (u.id ≡ i) × ((if name_eq u.name t.name then some t.id else n.by_name u.name) ≡ some i)
      other_name i u found = elim (Bool-cases (name_eq u.name t.name)) [
        | inr e ↦ ((h.named i u found).0, rw (e, same_name) (h.named i u found).1)
        | inl e ↦
            let used = (h.named i u found).1 in
            let is = name_eq→≡ u.name t.name e in absurd (clash (rw is at used))
      ]
        where
          clash : {i : ℕ} → m.by_name t.name ≡ some i → ⊥
          clash used = cc

      other_id :
          (s : List ℕ) (i : ℕ)
          → ((u : SegmentTuple) × (m.by_id i ≡ some u) × (u.name ≡ s))
          → (u : SegmentTuple) × ((if i == t.id then some t else n.by_id i) ≡ some u) × (u.name ≡ s)
      other_id s i (u, found, name) = elim (Bool-cases (i == t.id)) [
        | inr e ↦ (u, rw (e, same_id) found, name)
        | inl e ↦ let is = ==→≡ i t.id e in absurd (clash (rw is at found))
      ]
        where
          clash : {u : SegmentTuple} → m.by_id t.id ≡ some u → ⊥
          clash used = cc

-- The new segment has the next id and the name, and all others are found as before.
pub record IsAdded {W : Type 0} (name : List ℕ) (m : Manager W) (s : Option ℕ) (n : Manager W)
    : Type 0 where
  pub consistent : IsConsistent n
  pub segment : s ≡ some m.counter
  pub found : n.by_name name ≡ some m.counter
  pub others : (i : ℕ) → i ≢ m.counter → n.by_id i ≡ m.by_id i

-- Why `createNewSegmentFSM_SP` throws: the name is used, or there is no master segment.
abbrev pub IsRefused : {W : Type 0} → List ℕ → List ℕ → Manager W → Manager W → Type 0
IsRefused master name m n = ((m.by_name name ≢ none) ⊎ (m.by_name master ≡ none)) × IsConsistent n
