-- ===== src/Cli/Time/Print.antt =====
-- What is printed is read back.
use master_team_projekt.Prelude.{
  ℕ, zero, suc, ◌+◌, ◌-◌, ◌*◌, ◌/◌, ◌%◌, ◌^◌, ◌≤◌, ◌<◌, ◌≡◌, refl, ap, ◌∙◌, true, false, ltb, ◌==◌,
  if◌then◌else◌, List, [], ◌∷◌, ◌++◌, arith,
}
use mathlib.Core.List.{append_assoc}
use master_team_projekt.Prelude.{Bool-cases, ltb→lt, ==→≡}
use master_team_projekt.Prelude.Word.{mod_32, add_32}
use Prim.Native.Nat.{min}
use mathlib.Core.Logic.{inl, inr}
use master_team_projekt.Cli.Time.{
  peek, next, is_digit, is_negative, is_space, Read, read_digits, skip_space, unsigned_number,
  strtol, set_second, set_minute, set_text, set_hms, hour, minute, second, reset_min_sec,
  decimal_from, print_int, print,
}

-- What may follow a number.
abbrev pub IsEnd : List ℕ → Type 0
IsEnd s = is_digit (peek s) ≡ false

read_digits-end : (v : ℕ) (s : List ℕ) → IsEnd s → read_digits v s ≡ (v, s)
unfolding read_digits
read_digits-end v [] h = refl
read_digits-end v (c ∷ s) h = rw (h) refl

read_same : {v w : ℕ} (s : List ℕ) → v ≡ w → read_digits v s ≡ read_digits w s
read_same s e = ap (λ v. read_digits v s) e

is_digit-digit : (c : ℕ) → c < 10 → is_digit (48 + c) ≡ true
is_digit-digit c h = ground arith

read_digit :
    (v c : ℕ) (s : List ℕ) → c < 10 → read_digits v ((48 + c) ∷ s) ≡ read_digits (v * 10 + c) s
unfolding read_digits
read_digit v c s h = rw (is_digit-digit c h) (read_same s (omega arith))

step :
    (n : ℕ) (front s : List ℕ)
    → ((t : List ℕ) → read_digits 0 (front ++ t) ≡ read_digits (n / 10) t)
    → read_digits 0 ((front ++ ((48 + n % 10) ∷ [])) ++ s) ≡ read_digits n s
step n front s h =
    ap (read_digits 0) (append_assoc front ((48 + n % 10) ∷ []) s)
    ∙ h ((48 + n % 10) ∷ s)
    ∙ read_digit (n / 10) (n % 10) s (omega arith)
    ∙ read_same s (omega arith)

ltb→ge : (n : ℕ) → ltb n 10 ≡ false → 10 ≤ n
ltb→ge n h = ground arith

lower : (fuel n : ℕ) → n ≤ suc fuel → 10 ≤ n → n / 10 ≤ fuel
lower fuel n h k = omega arith

read_digits-decimal_from :
    (fuel n : ℕ) (s : List ℕ)
    → n ≤ fuel
    → read_digits 0 (decimal_from fuel n ++ s) ≡ read_digits n s
unfolding decimal_from
read_digits-decimal_from zero n s h =
    read_digit 0 (n % 10) s (omega arith) ∙ read_same s (omega arith)
read_digits-decimal_from (suc fuel) n s h = elim (Bool-cases (ltb n 10)) [
  | inl l ↦ rw (l) (read_digit 0 n s (ltb→lt n 10 l) ∙ read_same s (omega arith))
  | inr g ↦ rw (g) (
      step n (decimal_from fuel (n / 10)) s
        (λ t. read_digits-decimal_from fuel (n / 10) t (lower fuel n h (ltb→ge n g))))
]

-- A text that begins with a digit.
record Starts (s : List ℕ) : Type 0 where
  first : ℕ
  below : first < 10
  others : List ℕ
  whole : s ≡ (48 + first) ∷ others

decimal_from-Starts : (fuel n : ℕ) (s : List ℕ) → n ≤ fuel → Starts (decimal_from fuel n ++ s)
unfolding decimal_from
decimal_from-Starts zero n s h = record {
  first = n % 10;
  below = omega arith;
  others = s;
  whole = refl;
}
decimal_from-Starts (suc fuel) n s h = elim (Bool-cases (ltb n 10)) [
  | inl l ↦ record { first = n; below = ltb→lt n 10 l; others = s; whole = rw (l) refl }
  | inr g ↦
      let t =
        decimal_from-Starts fuel (n / 10) (((48 + n % 10) ∷ []) ++ s)
          (lower fuel n h (ltb→ge n g)) in
      record {
        first = t.first;
        below = t.below;
        others = t.others;
        whole = rw (g) (append_assoc (decimal_from fuel (n / 10)) ((48 + n % 10) ∷ []) s ∙ t.whole);
      }
]

not_negative : (n : ℕ) → n < 2 ^ 31 → is_negative n ≡ false
not_negative n h = ground arith

in_range : (n : ℕ) → n < 2 ^ 31 → min n (2 ^ 63 - 1) % mod_32 ≡ n
in_range n h = omega arith

self : (n : ℕ) → (n == n) ≡ true
self n = ground arith

no_space : (c : ℕ) → c < 10 → is_space (48 + c) ≡ false
no_space c h = ground arith

no_sign : (c d : ℕ) → d < 48 → ((48 + c) == d) ≡ false
no_sign c d h = ground arith

number : List ℕ → Read
number s = record {
  value = min (read_digits 0 s).0 (2 ^ 63 - 1) % mod_32;
  found = true;
  end = (read_digits 0 s).1;
}

strtol-digit : (c : ℕ) (s : List ℕ) → c < 10 → strtol ((48 + c) ∷ s) ≡ number ((48 + c) ∷ s)
unfolding strtol unsigned_number skip_space number
strtol-digit c s h =
    rw (no_space c h, no_sign c 45 (omega arith), no_sign c 43 (omega arith), is_digit-digit c h)
      refl

strtol-Starts : (s : List ℕ) → Starts s → strtol s ≡ number s
strtol-Starts s t = rw (t.whole) (strtol-digit t.first t.others t.below)

print_int-decimal_from : (n : ℕ) → n < 2 ^ 31 → print_int n ≡ decimal_from n n
unfolding print_int
print_int-decimal_from n h = rw (not_negative n h) refl

number-decimal_from :
    (n : ℕ) (s : List ℕ)
    → n < 2 ^ 31
    → IsEnd s
    → number (decimal_from n n ++ s) ≡ record { value = n; found = true; end = s }
unfolding number
number-decimal_from n s h e =
    rw (read_digits-decimal_from n n s (omega arith), read_digits-end n s e, in_range n h) refl

-- A number below 2 ^ 31, printed before a text that does not go on with a digit, is read back.
strtol-print_int :
    (n : ℕ) (s : List ℕ)
    → n < 2 ^ 31
    → IsEnd s
    → strtol (print_int n ++ s) ≡ record { value = n; found = true; end = s }
strtol-print_int n s h e = rw (print_int-decimal_from n h) (
    strtol-Starts (decimal_from n n ++ s) (decimal_from-Starts n n s (omega arith))
    ∙ number-decimal_from n s h e)

set_second-print_int :
    (v n : ℕ) (s : List ℕ)
    → n < 2 ^ 31
    → IsEnd s
    → set_second v (print_int n ++ s) ≡ record { done = true; time = add_32 v n; rest = s }
unfolding set_second
set_second-print_int v n s h e = rw (strtol-print_int n s h e) refl

-- The separator is not a digit.
set_minute-print_int :
    (sep v n : ℕ) (s : List ℕ)
    → n < 2 ^ 31
    → IsEnd s
    → set_minute sep v (print_int n ++ s) ≡ (
        if sep == peek s
        then set_second (add_32 v (n * 60 % mod_32)) (next s)
        else record { done = true; time = add_32 v (n * 60 % mod_32); rest = s })
unfolding set_minute
set_minute-print_int sep v n s h e = rw (strtol-print_int n s h e) refl

set_text-print_int :
    (sep old n : ℕ) (s : List ℕ)
    → n < 2 ^ 31
    → is_digit sep ≡ false
    → set_text sep old (print_int n ++ (sep ∷ s)) ≡ set_minute sep (n * 3600 % mod_32) s
unfolding set_text
set_text-print_int sep old n s h d = rw (strtol-print_int n (sep ∷ s) h d, self sep) refl

hour_lem : (v : ℕ) → v < 2 ^ 31 → hour v ≡ v / 3600
unfolding hour
hour_lem v h = rw (not_negative v h) refl

minute_lem : (v : ℕ) → v < 2 ^ 31 → minute v ≡ v % 3600 / 60
unfolding minute
minute_lem v h = rw (not_negative v h, not_negative (v % 3600) (omega arith)) refl

second_lem : (v : ℕ) → v < 2 ^ 31 → second v ≡ v % 60
unfolding second
second_lem v h = rw (not_negative v h) refl

-- The time after its hours and minutes, and after all three.
to_minute : ℕ → ℕ
to_minute v = add_32 (v / 3600 * 3600 % mod_32) (v % 3600 / 60 * 60 % mod_32)

to_second : (v : ℕ) → v < 2 ^ 31 → add_32 (to_minute v) (v % 60) ≡ v
unfolding to_minute
to_second v h = omega arith

no_second : (v : ℕ) → v < 2 ^ 31 → (v % 60 == 0) ≡ true → to_minute v ≡ v
unfolding to_minute
no_second v h z = omega (arith, ==→≡ (v % 60) 0 z)

-- Hours and minutes, and what comes after them.
set_text-minutes :
    (sep old v : ℕ) (s : List ℕ)
    → v < 2 ^ 31
    → is_digit sep ≡ false
    → IsEnd s
    → set_text sep old ((print_int (v / 3600) ++ (sep ∷ print_int (v % 3600 / 60))) ++ s) ≡ (
        if sep == peek s
        then set_second (to_minute v) (next s)
        else record { done = true; time = to_minute v; rest = s })
unfolding to_minute
set_text-minutes sep old v s h d e =
    ap (set_text sep old) (append_assoc (print_int (v / 3600)) (sep ∷ print_int (v % 3600 / 60)) s)
    ∙ set_text-print_int sep old (v / 3600) (print_int (v % 3600 / 60) ++ s) (omega arith) d
    ∙ set_minute-print_int sep (v / 3600 * 3600 % mod_32) (v % 3600 / 60) s (omega arith) e

set_text-seconds :
    (sep old v : ℕ) (s : List ℕ)
    → v < 2 ^ 31
    → is_digit sep ≡ false
    → IsEnd s
    → set_text sep old (
        ((print_int (v / 3600) ++ (sep ∷ print_int (v % 3600 / 60))) ++ (sep ∷ print_int (v % 60)))
        ++ s)
      ≡ record { done = true; time = v; rest = s }
set_text-seconds sep old v s h d e =
    ap (set_text sep old) (
      append_assoc (print_int (v / 3600) ++ (sep ∷ print_int (v % 3600 / 60)))
        (sep ∷ print_int (v % 60)) s)
    ∙ set_text-minutes sep old v (sep ∷ (print_int (v % 60) ++ s)) h d d
    ∙ (rw (self sep) (
        set_second-print_int (to_minute v) (v % 60) s (omega arith) e
        ∙ ap (λ t. record { done = true; time = t; rest = s }) (to_second v h)))

-- A time from 0 on that is printed with a separator that is not a digit is read back whatever the time was
-- before, and the reading ends where the printed text ends, if neither a digit nor the separator follows
-- there: seconds of 0 are not printed and are not missed.
pub set_text-print :
    (sep old v : ℕ) (s : List ℕ)
    → v < 2 ^ 31
    → is_digit sep ≡ false
    → is_digit (peek s) ≡ false
    → (sep == peek s) ≡ false
    → set_text sep old (print sep v ++ s) ≡ record { done = true; time = v; rest = s }
unfolding print
set_text-print sep old v s h d e f =
    rw (hour_lem v h, minute_lem v h, second_lem v h)
      (elim (Bool-cases (v % 60 == 0)) [
        | inl z ↦ rw (z) (
            set_text-minutes sep old v s h d e
            ∙ (rw (f) (ap (λ t. record { done = true; time = t; rest = s }) (no_second v h z))))
        | inr z ↦ rw (z) (set_text-seconds sep old v s h d e)
      ])

-- A time that is set from its parts has them, and resetting minutes and seconds leaves the hour.
set_hms-parts :
    (h m s : ℕ)
    → h < 24
    → m < 60
    → s < 60
    → (hour (set_hms h m s) ≡ h)
      × (minute (set_hms h m s) ≡ m)
      × (second (set_hms h m s) ≡ s)
      × (reset_min_sec (set_hms h m s) ≡ set_hms h 0 0)
unfolding hour minute second set_hms reset_min_sec
set_hms-parts h m s hh hm hs =
    let v = ((h * 60 + m) * 60 + s) % mod_32 in
    let low : v < 2 ^ 31 = omega arith in
    rw (not_negative v low, not_negative (v % 3600) (omega arith))
      (omega arith, omega arith, omega arith, omega arith)
