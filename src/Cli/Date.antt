-- ===== src/Cli/Date.antt =====
-- src/cli/datejd.cc: dates as Julian day numbers. Years are from 0 to 1460000, for
-- which the products fit into an `int`, and day numbers are below 2 ^ 31, which an `int` keeps.
pub mod Next
pub mod Week
use master_team_projekt.Prelude.Word.{sub_32}
use master_team_projekt.Prelude.{
  ℕ, ◌+◌, ◌-◌, ◌*◌, ◌/◌, ◌%◌, Bool, true, false, not, ◌&&◌, ◌||◌, leb, ◌==◌, if◌then◌else◌,
}

-- `-((m - 14) / 12)`, which is rounded towards 0.
abbrev pub early : ℕ → ℕ
early m = if leb m 2 then 1 else 0

unfoldable pub ymd2jd : ℕ → ℕ → ℕ → ℕ
ymd2jd y m d =
    1461 * (y + 4800 - early m) / 4
    + 367 * (m + 12 * early m - 2) / 12
    - 3 * ((y + 4900 - early m) / 100) / 4
    + d
    - 32075

pub record Ymd : Type 0 where
  pub year : ℕ
  pub month : ℕ
  pub day : ℕ

unfoldable pub jd2ymd : ℕ → Ymd
jd2ymd jd =
    let l0 = jd + 68569 in
    let n = 4 * l0 / 146097 in
    let l1 = l0 - (146097 * n + 3) / 4 in
    let i = 4000 * (l1 + 1) / 1461001 in
    let l2 = l1 - 1461 * i / 4 + 31 in
    let j = 80 * l2 / 2447 in
    let l3 = j / 11 in
    record { year = 100 * (n - 49) + i + l3; month = j + 2 - 12 * l3; day = l2 - 2447 * j / 80 }

-- Of the year of the date.
unfoldable pub is_leap_year : ℕ → Bool
is_leap_year y =
    if y == 4000 || y == 8000 || y == 12000
    then false
    else if y % 900 == 0 && (y % 200 == 0 || y % 600 == 0)
    then true
    else if y % 100 == 0 && y % 400 == 0
    then true
    else not (y % 100 == 0) && y % 4 == 0

-- `year`, which leaves out the day.
unfoldable pub year : ℕ → ℕ
year jd =
    let l0 = jd + 68569 in
    let n = 4 * l0 / 146097 in
    let l1 = l0 - (146097 * n + 3) / 4 in
    let i = 4000 * (l1 + 1) / 1461001 in
    let l2 = l1 - 1461 * i / 4 + 31 in let j = 80 * l2 / 2447 in 100 * (n - 49) + i + j / 11

-- `day_of_year` counts from 1.
unfoldable pub day_of_year : ℕ → ℕ
unfolding year
day_of_year jd = sub_32 jd (ymd2jd (year jd) 1 1) + 1

unfoldable pub day_of_week : ℕ → ℕ
day_of_week jd =
    let some_sunday = ymd2jd 1997 10 12 in
    if leb some_sunday jd then (jd - some_sunday) % 7 else (some_sunday - jd) % 7

-- `DateJd(uint)`, for a date `ddmmyy`.
unfoldable pub from_ddmmyy : ℕ → ℕ
from_ddmmyy x = let y = x % 100 in let m = (x - y) / 100 % 100 in ymd2jd (y + 2000) m (x / 10000)

-- `set(aYYYYMMDD)`.
unfoldable pub set_yyyymmdd : ℕ → ℕ
set_yyyymmdd x = ymd2jd (x / 10000) (x % 10000 / 100) (x % 10000 % 100)
