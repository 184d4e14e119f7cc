-- ===== src/Cli/Date/Next.antt =====
-- The Julian day number counts the days of the Gregorian calendar.
use master_team_projekt.Prelude.{
  ℕ, zero, suc, ◌+◌, ◌%◌, ◌≤◌, ◌<◌, ◌≡◌, ap, ◌∙◌, Bool, false, not, ◌&&◌, ◌||◌, leb, ltb, ◌==◌,
  if◌then◌else◌, Bool-cases, inl, inr, ltb→lt, arith,
}
use master_team_projekt.Cli.Date.{ymd2jd, Ymd, is_leap_year}

-- The Gregorian calendar.
abbrev pub is_leap : ℕ → Bool
is_leap y = y % 4 == 0 && (not (y % 100 == 0) || y % 400 == 0)

abbrev pub days_in_month : ℕ → ℕ → ℕ
days_in_month y m =
    if m == 2
    then if is_leap y then 29 else 28
    else if m == 4 || m == 6 || m == 9 || m == 11
    then 30
    else 31

month_end-march : (y : ℕ) → ymd2jd y 3 1 ≡ ymd2jd y 2 (days_in_month y 2) + 1
unfolding ymd2jd
month_end-march y = ground arith

year_end : (y : ℕ) → ymd2jd (y + 1) 1 1 ≡ ymd2jd y 12 31 + 1
unfolding ymd2jd
year_end y = omega arith

month_end : (y m : ℕ) → 0 < m → m < 12 → ymd2jd y (m + 1) 1 ≡ ymd2jd y m (days_in_month y m) + 1
unfolding ymd2jd
month_end y zero lo hi = absurd (omega arith)
month_end y (suc zero) lo hi = omega arith
month_end y (suc (suc zero)) lo hi = month_end-march y
month_end y (suc (suc (suc zero))) lo hi = omega arith
month_end y (suc (suc (suc (suc zero)))) lo hi = omega arith
month_end y (suc (suc (suc (suc (suc zero))))) lo hi = omega arith
month_end y (suc (suc (suc (suc (suc (suc zero)))))) lo hi = omega arith
month_end y (suc (suc (suc (suc (suc (suc (suc zero))))))) lo hi = omega arith
month_end y (suc (suc (suc (suc (suc (suc (suc (suc zero)))))))) lo hi = omega arith
month_end y (suc (suc (suc (suc (suc (suc (suc (suc (suc zero))))))))) lo hi = omega arith
month_end y (suc (suc (suc (suc (suc (suc (suc (suc (suc (suc zero)))))))))) lo hi = omega arith
month_end y (suc (suc (suc (suc (suc (suc (suc (suc (suc (suc (suc zero))))))))))) lo hi =
    omega arith
month_end y (suc (suc (suc (suc (suc (suc (suc (suc (suc (suc (suc (suc m)))))))))))) lo hi =
    absurd (omega arith)

next_day : (y m d : ℕ) → ymd2jd y m (d + 1) ≡ ymd2jd y m d + 1
unfolding ymd2jd
next_day y m d = elim (Bool-cases (leb m 2)) [
  | inl e ↦ rw e (omega arith)
  | inr e ↦ rw e (omega arith)
]

pub record IsDate (t : Ymd) : Type 0 where
  pub month : (1 ≤ t.month) × (t.month ≤ 12)
  pub day : (1 ≤ t.day) × (t.day ≤ days_in_month t.year t.month)

-- The day after a date of the Gregorian calendar.
abbrev pub tomorrow : Ymd → Ymd
tomorrow t =
    if ltb t.day (days_in_month t.year t.month)
    then record t { day = t.day + 1 }
    else if ltb t.month 12
    then record { year = t.year; month = t.month + 1; day = 1 }
    else record { year = t.year + 1; month = 1; day = 1 }

abbrev pub jd_of : Ymd → ℕ
jd_of t = ymd2jd t.year t.month t.day

-- For each date of the Gregorian calendar from the year 0 to the year 1460000, up to which no product leaves the
-- range of an `int`, the Julian day number of the next day is greater by one, across the ends of months, of February in leap years and others, and of years.
pub ymd2jd-tomorrow : (t : Ymd) → IsDate t → t.year ≤ 1460000 → jd_of (tomorrow t) ≡ jd_of t + 1
ymd2jd-tomorrow t w small = elim (Bool-cases (ltb t.day (days_in_month t.year t.month))) [
  | inl inside ↦ rw inside (next_day t.year t.month t.day)
  | inr last ↦ rw last (elim (Bool-cases (ltb t.month 12)) [
    | inl more ↦ rw more (
        month_end t.year t.month w.month.0 (ltb→lt t.month 12 more)
        ∙ ap (λ d. ymd2jd t.year t.month d + 1) (day_last last))
    | inr december ↦ rw december (
        year_end t.year
        ∙ ap (λ m. ymd2jd t.year m 31 + 1) (twelve december)
        ∙ ap (λ d. ymd2jd t.year t.month d + 1) (day_december last december))
  ])
]
  where
    day_last :
        ltb t.day (days_in_month t.year t.month) ≡ false → days_in_month t.year t.month ≡ t.day
    day_last h = ground (arith, h, w.day)

    twelve : ltb t.month 12 ≡ false → 12 ≡ t.month
    twelve h = ground (arith, h, w.month)

    day_december :
        ltb t.day (days_in_month t.year t.month) ≡ false → ltb t.month 12 ≡ false → 31 ≡ t.day
    day_december h h' = ground (arith, day_last h, twelve h')

-- `is_leap_year` is the rule of the Gregorian calendar except in the years 4000, 8000 and 12000, which it
-- takes for common years, and in the years that leave 1800 when they are divided by 3600, as 1800 and
-- 5400, which it takes for leap years.
pub is_leap_year_lem :
    (y : ℕ)
    → is_leap_year y
      ≡ (not (y == 4000 || y == 8000 || y == 12000) && (is_leap y || y % 3600 == 1800))
unfolding is_leap_year
is_leap_year_lem y = ground arith
