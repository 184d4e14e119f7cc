-- ===== src/Cli/Date/Week.antt =====
-- The days of the week, and the two forms of a date in one number.
use master_team_projekt.Prelude.{ℕ, ◌+◌, ◌*◌, ◌%◌, ◌^◌, ◌<◌, ◌≡◌, refl, leb, if◌then◌else◌, arith}
use master_team_projekt.Cli.Date.{ymd2jd, day_of_week, from_ddmmyy, set_yyyymmdd}

-- For day numbers below 2 ^ 31: from Sunday, October 12, 1997 on the day of the week moves on by one from each day to the next; before it,
-- the day of the week moves back by one instead.
pub day_of_week-step :
    (jd : ℕ)
    → jd + 1 < 2 ^ 31
    → day_of_week (jd + 1)
      ≡ (if leb (ymd2jd 1997 10 12) jd then (day_of_week jd + 1) % 7 else (day_of_week jd + 6) % 7)
unfolding day_of_week ymd2jd
day_of_week-step jd small = ground arith

same_parts : {y m d y' m' d' : ℕ} → y ≡ y' → m ≡ m' → d ≡ d' → ymd2jd y m d ≡ ymd2jd y' m' d'
same_parts e f g = rw (e, f, g) refl

-- A date that is written as one number, the day first and the last two digits of the year last, or the
-- year first, is the date that its parts name.
pub one_number_lem :
    (y m d : ℕ)
    → m < 100
    → d < 100
    → (set_yyyymmdd (y * 10000 + m * 100 + d) ≡ ymd2jd y m d)
      × (from_ddmmyy (d * 10000 + m * 100 + y % 100) ≡ ymd2jd (2000 + y % 100) m d)
unfolding set_yyyymmdd from_ddmmyy
one_number_lem y m d hm hd = (
  same_parts (omega (arith, hm, hd)) (omega (arith, hm, hd)) (omega (arith, hm, hd)),
  same_parts (omega (arith, hm, hd)) (omega (arith, hm, hd)) (omega (arith, hm, hd)),
)
