-- ===== src/Interpreter/Sp/Tests.antt =====
-- A slotted page of 80 bytes: 56 bytes for records and slots.
use master_team_projekt.Prelude.{ℕ, ◌≡◌, refl, none, some, List, [], ◌∷◌, arith}
use master_team_projekt.Interpreter.Sp.{SpPage, init_new_page, add_new_record}
use master_team_projekt.Interpreter.Sp.Valid.{IsValid, init_new_page-IsValid}

abbrev raw : SpPage
raw = record {
  bytes = λ k. 9;
  slot = λ i. record { offset = 1; size = 2; status = 3 };
  header = record { no_records = 4; free_space = 5; next_free_space = 6 };
}

abbrev fresh : SpPage
fresh = init_new_page 80 raw

abbrev tuple : List ℕ
tuple = 11 ∷ 12 ∷ 13 ∷ []

fresh-IsValid : IsValid 80 fresh
fresh-IsValid = init_new_page-IsValid 80 raw (omega arith) (omega arith)

first_place : (add_new_record fresh 3).0 ≡ some 0
unfolding add_new_record init_new_page
first_place = refl

second_place : (add_new_record (add_new_record fresh 3).2 9).0 ≡ some 8
unfolding add_new_record init_new_page
second_place = refl

no_place : (add_new_record fresh 49).0 ≡ none
unfolding add_new_record init_new_page
no_place = refl
