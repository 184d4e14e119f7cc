-- ===== src/Cli/Time.antt =====
-- src/cli/stime.hh and stime.cc: times of a day in seconds, their reading and printing. An `int` is a number
-- below 2 ^ 32 in two's complement, and a product that does not fit wraps. A text is the list of its
-- characters before the null character.
pub mod Print
use master_team_projekt.Prelude.Word.{mod_32, add_32, sub_32}
use master_team_projekt.Prelude.{
  ℕ, zero, suc, ◌+◌, ◌-◌, ◌*◌, ◌/◌, ◌%◌, ◌^◌, min, Bool, true, false, not, ◌&&◌, ◌||◌, leb, ltb,
  ◌==◌, if◌then◌else◌, List, [], ◌∷◌, ◌++◌,
}

-- `*x`: the null character at the end.
abbrev pub peek : List ℕ → ℕ
peek [] = 0
peek (c ∷ s) = c

-- `++x`.
abbrev pub next : List ℕ → List ℕ
next [] = []
next (c ∷ s) = s

abbrev pub is_negative : ℕ → Bool
is_negative v = leb (2 ^ 31) v

-- `a / b` and `a % b` for an `int` and a positive constant, rounded towards 0.
abbrev pub quot_32 : ℕ → ℕ → ℕ
quot_32 a b = if is_negative a then sub_32 0 (sub_32 0 a / b) else a / b

abbrev pub rem_32 : ℕ → ℕ → ℕ
rem_32 a b = if is_negative a then sub_32 0 (sub_32 0 a % b) else a % b

abbrev pub is_digit : ℕ → Bool
is_digit c = leb 48 c && leb c 57

-- `isspace`: a blank, and the characters from tabulator to carriage return.
abbrev pub is_space : ℕ → Bool
is_space c = c == 32 || (leb 9 c && leb c 13)

-- What `strtol` gives back: the number as an `int`, whether there was one, and where it ends.
pub record Read : Type 0 where
  pub value : ℕ
  pub found : Bool
  pub end : List ℕ

-- The digits that follow a number that has been read so far.
unfoldable pub read_digits : ℕ → List ℕ → ℕ × List ℕ
read_digits v [] = (v, [])
read_digits v (c ∷ s) =
    let rest = read_digits (v * 10 + (c - 48)) s in if is_digit c then rest else (v, c ∷ s)

unfoldable pub skip_space : List ℕ → List ℕ
skip_space [] = []
skip_space (c ∷ s) = let rest = skip_space s in if is_space c then rest else c ∷ s

-- A number out of the range of a `long` is the nearest in it.
unfoldable pub unsigned_number : List ℕ → List ℕ → Read
unsigned_number x s =
    if is_digit (peek s)
    then record {
      value = min (read_digits 0 s).0 (2 ^ 63 - 1) % mod_32;
      found = true;
      end = (read_digits 0 s).1;
    }
    else record { value = 0; found = false; end = x }

unfoldable pub negative_number : List ℕ → List ℕ → Read
negative_number x s =
    if is_digit (peek s)
    then record {
      value = sub_32 0 (min (read_digits 0 s).0 (2 ^ 63) % mod_32);
      found = true;
      end = (read_digits 0 s).1;
    }
    else record { value = 0; found = false; end = x }

-- `strtol(x, &end, 10)`: white space, a sign and digits.
unfoldable pub strtol : List ℕ → Read
strtol x =
    let s = skip_space x in
    if peek s == 45
    then negative_number x (next s)
    else if peek s == 43
    then unsigned_number x (next s)
    else unsigned_number x s

-- What `set` leaves: its result, the time, and where the text goes on.
pub record Set : Type 0 where
  pub done : Bool
  pub time : ℕ
  pub rest : List ℕ

-- The third number, before `s`.
unfoldable pub set_second : ℕ → List ℕ → Set
set_second v s =
    let r = strtol s in
    if r.found
    then record { done = true; time = add_32 v r.value; rest = r.end }
    else record { done = false; time = v; rest = s }

-- The second number, and the third if a separator follows.
unfoldable pub set_minute : ℕ → ℕ → List ℕ → Set
set_minute sep v s =
    let r = strtol s in
    let w = add_32 v (r.value * 60 % mod_32) in
    if r.found
    then if sep == peek r.end
      then set_second w (next r.end)
      else record { done = true; time = w; rest = r.end }
    else record { done = false; time = v; rest = s }

-- `STime::set(x, sep)` for a time of the value `old`.
unfoldable pub set_text : ℕ → ℕ → List ℕ → Set
set_text sep old x =
    let r = strtol x in
    let v = r.value * 3600 % mod_32 in
    if r.found
    then if sep == peek r.end
      then set_minute sep v (next r.end)
      else record { done = false; time = v; rest = r.end }
    else record { done = false; time = old; rest = x }

-- `set(h, m, s)`.
unfoldable pub set_hms : ℕ → ℕ → ℕ → ℕ
set_hms h m s = ((h * 60 + m) * 60 + s) % mod_32

unfoldable pub hour : ℕ → ℕ
hour v = quot_32 v 3600

unfoldable pub minute : ℕ → ℕ
minute v = quot_32 (rem_32 v 3600) 60

unfoldable pub second : ℕ → ℕ
second v = rem_32 v 60

unfoldable pub reset_min_sec : ℕ → ℕ
reset_min_sec v = quot_32 v 3600 * 3600 % mod_32

-- The decimal digits of a number; a number has at most as many as it counts, and so is its own fuel.
unfoldable pub decimal_from : ℕ → ℕ → List ℕ
decimal_from zero n = (48 + n % 10) ∷ []
decimal_from (suc fuel) n =
    let front = decimal_from fuel (n / 10) in
    if ltb n 10 then (48 + n) ∷ [] else front ++ ((48 + n % 10) ∷ [])

-- `os << v` for an `int`.
unfoldable pub print_int : ℕ → List ℕ
print_int v =
    if is_negative v then 45 ∷ decimal_from (sub_32 0 v) (sub_32 0 v) else decimal_from v v

-- `STime::print`, which leaves out seconds that are 0.
unfoldable pub print : ℕ → ℕ → List ℕ
print sep v =
    let minutes = print_int (hour v) ++ (sep ∷ print_int (minute v)) in
    if second v == 0 then minutes else minutes ++ (sep ∷ print_int (second v))
