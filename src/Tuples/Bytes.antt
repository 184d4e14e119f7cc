-- ===== src/Tuples/Bytes.antt =====
-- Numbers and strings as bytes, the way the tuples of src/infra lay them out: `*(uint16_t*) aPtr = v` with
-- the lower byte first, and strings with the 0 behind them. A string is the list of its bytes, and the
-- memory that a pointer points to is the list of the bytes from there on.
use master_team_projekt.Prelude.{
  ℕ, zero, suc, ◌+◌, ◌*◌, ◌/◌, ◌%◌, ◌^◌, ◌<◌, ◌≡◌, ◌≢◌, refl, ap, Option, none, some, List, [], ◌∷◌,
  ◌++◌, ◌==◌, if◌then◌else◌, length, arith,
}

-- What is read from a pointer, and what lies behind it; `none` if the memory ends.
abbrev pub Reader {ℓ} : Type ℓ → Type ℓ
Reader A = List ℕ → Option (A × List ℕ)

abbrev pub bind {ℓ κ} :
    {A : Type ℓ} {B : Type κ} → Option (A × List ℕ) → (A → Reader B) → Option (B × List ℕ)
bind none f = none
bind (some (a, rest)) f = f a rest

infixl 5 ◌>>=◌
abbrev pub ◌>>=◌ {ℓ κ} : {A : Type ℓ} {B : Type κ} → Reader A → (A → Reader B) → Reader B
◌>>=◌ m f bs = bind (m bs) f

abbrev pub return {ℓ} : {A : Type ℓ} → A → Reader A
return a bs = some (a, bs)

-- A number of `n` bytes.
unfoldable pub put_le : ℕ → ℕ → List ℕ
put_le zero v = []
put_le (suc n) v = v % 256 ∷ put_le n (v / 256)

unfoldable pub get_le : ℕ → Reader ℕ
get_le zero bs = some (0, bs)
get_le (suc n) [] = none
get_le (suc n) (b ∷ bs) = elim (get_le n bs) [
  | none ↦ none
  | some (v, rest) ↦ some (b + 256 * v, rest)
]

-- `c_str()` with its last character.
unfoldable pub put_string : List ℕ → List ℕ
put_string [] = 0 ∷ []
put_string (c ∷ cs) = c ∷ put_string cs

-- `std::string((const char*) aPtr)`, and the pointer behind its 0.
unfoldable pub get_string : Reader (List ℕ)
get_string [] = none
get_string (b ∷ bs) =
    let longer : Option (List ℕ × List ℕ) = elim (get_string bs) [
      | none ↦ none
      | some (s, rest) ↦ some (b ∷ s, rest)
    ] in
    if b == 0 then some ([], bs) else longer

-- A string that `c_str` shows as a whole: no character of it is 0.
abbrev pub IsText : List ℕ → Type 0
IsText [] = Unit
IsText (c ∷ cs) = (c ≢ 0) × IsText cs

power_suc : (n : ℕ) → 256 ^ suc n ≡ 256 * 256 ^ n
power_suc n = omega arith

pub get_le-put_le :
    (n v : ℕ) (rest : List ℕ) → v < 256 ^ n → get_le n (put_le n v ++ rest) ≡ some (v, rest)
unfolding get_le put_le
get_le-put_le zero v rest h = ap (λ w. some (w, rest)) (omega (arith, h))
get_le-put_le (suc n) v rest h =
    rw (get_le-put_le n (v / 256) rest (omega (arith, h, power_suc n)))
      (ap (λ w. some (w, rest)) (omega arith))

pub get_string-put_string :
    (s rest : List ℕ) → IsText s → get_string (put_string s ++ rest) ≡ some (s, rest)
unfolding get_string put_string
get_string-put_string [] rest h = refl
get_string-put_string (c ∷ cs) rest (h, hs) =
    rw (get_string-put_string cs rest hs) (ground (arith, h))

pub length-put_le : (n v : ℕ) → length (put_le n v) ≡ n
unfolding put_le
length-put_le zero v = refl
length-put_le (suc n) v = ap suc (length-put_le n (v / 256))

pub length-put_string : (s : List ℕ) → length (put_string s) ≡ length s + 1
unfolding put_string
length-put_string [] = refl
length-put_string (c ∷ cs) = omega (arith, length-put_string cs)
