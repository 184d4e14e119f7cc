-- ===== src/Cli/Tests.antt =====
-- A few dates.
use master_team_projekt.Prelude.{ℕ, ◌+◌, ◌≡◌, refl, true, not, ◌&&◌, ◌||◌, ◌%◌, ◌==◌, arith}
use master_team_projekt.Prelude.{◌-◌, ◌^◌, [], ◌∷◌, ◌++◌, false}
use master_team_projekt.Cli.Time.{
  print, print_int, decimal_from, hour, minute, second, set_hms, set_text, strtol, skip_space,
  unsigned_number, read_digits,
}
use master_team_projekt.Cli.Time.Print.{set_text-print}
use master_team_projekt.Cli.Date.{Ymd, ymd2jd, jd2ymd, is_leap_year, year, day_of_year, day_of_week}
use master_team_projekt.Cli.Date.Week.{day_of_week-step}
use master_team_projekt.Cli.Date.Next.{tomorrow, jd_of, ymd2jd-tomorrow, is_leap, is_leap_year_lem}

abbrev date : ℕ → ℕ → ℕ → Ymd
date y m d = record { year = y; month = m; day = d }

ymd2jd-tomorrow_example : jd_of (tomorrow (date 2000 2 28)) ≡ jd_of (date 2000 2 28) + 1
ymd2jd-tomorrow_example =
    ymd2jd-tomorrow (date 2000 2 28)
      (record { month = (omega arith, omega arith); day = (omega arith, omega arith) })
      (omega arith)

is_leap_year_lem_example :
    is_leap_year 1800
    ≡ (not (1800 == 4000 || 1800 == 8000 || 1800 == 12000) && (is_leap 1800 || 1800 % 3600 == 1800))
is_leap_year_lem_example = is_leap_year_lem 1800

a_sunday : ymd2jd 1997 10 12 ≡ 2450734
unfolding ymd2jd
a_sunday = refl

back_again : jd2ymd (ymd2jd 1997 10 12) ≡ date 1997 10 12
unfolding ymd2jd jd2ymd
back_again = refl

december_again : jd2ymd (ymd2jd 2018 12 31) ≡ date 2018 12 31
unfolding ymd2jd jd2ymd
december_again = refl

takes_1800 : is_leap_year 1800 ≡ true
unfolding is_leap_year
takes_1800 = refl

-- Saturday, October 11, 1997, is taken for a Monday.
day_of_week-step_example : day_of_week 2450733 ≡ (day_of_week 2450732 + 6) % 7
unfolding day_of_week ymd2jd
day_of_week-step_example = day_of_week-step 2450732 (omega arith)

before_sunday : day_of_week (ymd2jd 1997 10 11) ≡ 1
unfolding ymd2jd day_of_week
before_sunday = refl

first_of_year : day_of_year (ymd2jd 2018 2 1) ≡ 32
unfolding ymd2jd day_of_year year
first_of_year = refl

-- 9:05 in the morning is printed as `9:5`.
nine_five : print 58 (set_hms 9 5 0) ≡ 57 ∷ 58 ∷ 53 ∷ []
unfolding print print_int decimal_from hour minute second set_hms
nine_five = refl

set_text-print_example :
    set_text 58 7 (print 58 43507 ++ (32 ∷ 49 ∷ []))
    ≡ record { done = true; time = 43507; rest = 32 ∷ 49 ∷ [] }
set_text-print_example = set_text-print 58 7 43507 (32 ∷ 49 ∷ []) (omega arith) refl refl refl

before_midnight : hour (set_hms 0 0 0 + (2 ^ 32 - 3600)) ≡ 2 ^ 32 - 1
unfolding hour set_hms
before_midnight = refl

-- Without minutes the hours are kept, and the reading has failed.
only_hours : set_text 58 7 (49 ∷ 48 ∷ []) ≡ record { done = false; time = 36000; rest = [] }
unfolding set_text strtol skip_space unsigned_number read_digits
only_hours = refl
