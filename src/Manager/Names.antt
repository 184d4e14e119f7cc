-- ===== src/Manager/Names.antt =====
-- Equality of names, and maps that change at one key.
use master_team_projekt.Prelude.{
  ℕ, ◌≡◌, refl, List, [], ◌∷◌, true, false, Bool, ◌≢◌, Option, none, some, ◌⊎◌, if◌then◌else◌, ==→≢,
  ◌==◌, Bool-cases, ==→≡, inl, inr, arith,
}
use mathlib.Core.Option.{some_inj}
use master_team_projekt.Manager.{name_eq}

pub name_eq_refl : (s : List ℕ) → name_eq s s ≡ true
name_eq_refl [] = refl
name_eq_refl (c ∷ cs) = rw (name_eq_refl cs) (ground arith)

pub name_eq→≡ : (s t : List ℕ) → name_eq s t ≡ true → s ≡ t
name_eq→≡ [] [] e = refl
name_eq→≡ [] (d ∷ ds) e = absurd cc
name_eq→≡ (c ∷ cs) [] e = absurd cc
name_eq→≡ (c ∷ cs) (d ∷ ds) e = elim (Bool-cases (c == d)) [
  | inl i ↦
      let rest = name_eq→≡ cs ds (rw i at e) in let first = ==→≡ c d i in rw (first, rest) refl
  | inr i ↦ let never = rw i at e in absurd cc
]

-- An entry of a map that was changed at one key.
pub updated_id :
    {A : Type 0} (i j : ℕ) (t u : A) (old : Option A)
    → (if i == j then some t else old) ≡ some u
    → ((i ≡ j) × (t ≡ u)) ⊎ ((i ≢ j) × (old ≡ some u))
updated_id i j t u old e = elim (Bool-cases (i == j)) [
  | inl same ↦ inl (==→≡ i j same, some_inj.0 (rw same at e))
  | inr other ↦ inr (==→≢ i j other, rw other at e)
]

pub updated_name :
    (r s : List ℕ) (j i : ℕ) (old : Option ℕ)
    → (if name_eq r s then some j else old) ≡ some i
    → ((r ≡ s) × (j ≡ i)) ⊎ (old ≡ some i)
updated_name r s j i old e = elim (Bool-cases (name_eq r s)) [
  | inl same ↦ inl (name_eq→≡ r s same, some_inj.0 (rw same at e))
  | inr other ↦ inr (rw other at e)
]

pub removed {ℓ} :
    {A : Type ℓ} {b : Bool} {old : Option A} {a : A}
    → (if b then none else old) ≡ some a
    → (b ≡ false) × (old ≡ some a)
removed {b = true} e = absurd cc
removed {b = false} e = (refl, e)
