-- ===== src/Manager/Consistent/Delete.antt =====
-- `deleteSegment` keeps the catalogues consistent.
use master_team_projekt.Prelude.{ℕ, ◌≡◌, ◌≢◌, ◌⊎◌, List, Option, none, some}
use master_team_projekt.Tuples.Catalogue.{SegmentTuple}
use master_team_projekt.Manager.{Manager, set_id, set_name}
use master_team_projekt.Manager.Consistent.{IsConsistent, Same}

-- The segment is found neither by its id nor by its name, and all others are found as before.
pub record IsDeleted {W : Type 0} (id : ℕ) (m n : Manager W) : Type 0 where
  pub consistent : IsConsistent n
  pub no_tuple : n.by_id id ≡ none
  pub no_name : (s : List ℕ) → n.by_name s ≢ some id
  pub others : (i : ℕ) → i ≢ id → n.by_id i ≡ m.by_id i

-- Both entries of a tuple are taken out.
abbrev taken_out : {W : Type 0} → ℕ → SegmentTuple → Manager W → Manager W
taken_out id t m = set_id id none (set_name t.name none m)

-- Why `deleteSegment` throws: the segment or the master segment is not in the catalogues, which stay.
abbrev pub IsMissing : {W : Type 0} → List ℕ → ℕ → Manager W → Manager W → Type 0
IsMissing master id m n =
    ((m.by_id id ≡ none) ⊎ (m.by_name master ≡ none)) × Same m n × IsConsistent n
