-- ===== src/Tuples/Codec.antt =====
-- A tuple that was written is read back.
use master_team_projekt.Prelude.{
  ℕ, ◌^◌, ◌<◌, ◌≡◌, ap, ◌∙◌, some, List, ◌++◌, length, length-append, arith,
}
use mathlib.Core.List.{append_assoc}
use master_team_projekt.Tuples.Bytes.{
  Reader, bind, ◌>>=◌, return, put_le, get_le, put_string, get_string, IsText, get_le-put_le,
  get_string-put_string, length-put_le, length-put_string,
}
use master_team_projekt.Tuples.Catalogue.{
  partition_tuple, partition_to_disk, partition_to_memory, segment_tuple, segment_to_disk,
  segment_to_memory, employee, employee_to_disk, employee_to_memory,
}

-- One step of a reader in front of the rest of what was written.
next_field {ℓ κ} :
    {A : Type ℓ} {B : Type κ} (m : Reader A) (f : A → Reader B) (front back rest : List ℕ) (a : A)
    → m (front ++ (back ++ rest)) ≡ some (a, back ++ rest)
    → (m >>= f) ((front ++ back) ++ rest) ≡ f a (back ++ rest)
next_field m f front back rest a e =
    ap (λ bs. bind (m bs) f) (append_assoc front back rest) ∙ ap (λ r. bind r f) e

-- A partition tuple whose numbers fit into their bytes and whose strings hold no 0 is read back from what it
-- writes to disk, with its size, which is the number of bytes that it writes.
pub partition_to_memory-to_disk :
    (id : ℕ) (name path : List ℕ) (type growth : ℕ) (rest : List ℕ)
    → id < 2 ^ 8
    → type < 2 ^ 8
    → growth < 2 ^ 16
    → IsText name
    → IsText path
    → let t = partition_tuple id name path type growth in
      (partition_to_memory (partition_to_disk t ++ rest) ≡ some (t, rest))
      × (length (partition_to_disk t) ≡ t.size)
unfolding partition_to_disk partition_to_memory
partition_to_memory-to_disk id name path type growth rest hi ht hg hn hp = (
  next_field (get_le 1) _ (put_le 1 id) _ rest id (get_le-put_le 1 id _ hi)
      ∙ next_field get_string _ (put_string name) _ rest name (get_string-put_string name _ hn)
      ∙ next_field get_string _ (put_string path) _ rest path (get_string-put_string path _ hp)
      ∙ next_field (get_le 1) _ (put_le 1 type) _ rest type (get_le-put_le 1 type _ ht)
      ∙ ap (λ r. bind r (λ g. return (partition_tuple id name path type g)))
          (get_le-put_le 2 growth rest hg),
  simp
      (
        length-append (put_le 1 id),
        length-append (put_string name),
        length-append (put_string path),
        length-append (put_le 1 type),
        length-put_string,
        length-put_le,
      )
      (omega arith),
)

-- A segment tuple whose numbers fit into their bytes and whose name holds no 0 is read back from what it writes
-- to disk, with its size, which is the number of bytes that it writes.
pub segment_to_memory-to_disk :
    (part_id id : ℕ) (name : List ℕ) (type first_page : ℕ) (rest : List ℕ)
    → part_id < 2 ^ 8
    → id < 2 ^ 16
    → type < 2 ^ 8
    → first_page < 2 ^ 32
    → IsText name
    → let t = segment_tuple part_id id name type first_page in
      (segment_to_memory (segment_to_disk t ++ rest) ≡ some (t, rest))
      × (length (segment_to_disk t) ≡ t.size)
unfolding segment_to_disk segment_to_memory
segment_to_memory-to_disk part_id id name type first_page rest hp hi ht hf hn = (
  next_field (get_le 1) _ (put_le 1 part_id) _ rest part_id (get_le-put_le 1 part_id _ hp)
      ∙ next_field (get_le 2) _ (put_le 2 id) _ rest id (get_le-put_le 2 id _ hi)
      ∙ next_field get_string _ (put_string name) _ rest name (get_string-put_string name _ hn)
      ∙ next_field (get_le 1) _ (put_le 1 type) _ rest type (get_le-put_le 1 type _ ht)
      ∙ ap (λ r. bind r (λ g. return (segment_tuple part_id id name type g)))
          (get_le-put_le 4 first_page rest hf),
  simp
      (
        length-append (put_le 1 part_id),
        length-append (put_le 2 id),
        length-append (put_string name),
        length-append (put_le 1 type),
        length-put_string,
        length-put_le,
      )
      (omega arith),
)

-- An employee whose numbers fit into their bytes and whose name holds no 0 is read back from what it writes to
-- disk, with its size, which is the number of bytes that it writes.
pub employee_to_memory-to_disk :
    (id salary age : ℕ) (name rest : List ℕ)
    → id < 2 ^ 64
    → salary < 2 ^ 64
    → age < 2 ^ 8
    → IsText name
    → let t = employee id salary age name in
      (employee_to_memory (employee_to_disk t ++ rest) ≡ some (t, rest))
      × (length (employee_to_disk t) ≡ t.size)
unfolding employee_to_disk employee_to_memory
employee_to_memory-to_disk id salary age name rest hi hs ha hn = (
  next_field (get_le 8) _ (put_le 8 id) _ rest id (get_le-put_le 8 id _ hi)
      ∙ next_field (get_le 8) _ (put_le 8 salary) _ rest salary (get_le-put_le 8 salary _ hs)
      ∙ next_field (get_le 1) _ (put_le 1 age) _ rest age (get_le-put_le 1 age _ ha)
      ∙ ap (λ r. bind r (λ g. return (employee id salary age g)))
          (get_string-put_string name rest hn),
  simp
      (
        length-append (put_le 8 id),
        length-append (put_le 8 salary),
        length-append (put_le 1 age),
        length-put_string,
        length-put_le,
      )
      (omega arith),
)
