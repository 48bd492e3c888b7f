-- ===== src/Calendar.antt =====
-- nodes/SodaqOneDevice/MyTime.cpp: days since 1970 from a date of the Gregorian calendar, and the
-- rules of the calendar. Years are those of an `int32_t` from 1 on, where no division is of a
-- negative number; `uint32_t` results wrap.
pub mod Months
pub mod Local
pub mod Dst
pub mod Weekdays
use docker_applications.Common.{
  ℕ, ◌+◌, ◌-◌, ◌*◌, ◌/◌, ◌%◌, ◌^◌, Bool, true, false, not, ◌&&◌, ◌||◌, List, [], ◌∷◌, get_or, leb,
  ltb, ◌==◌, if◌then◌else◌,
}

abbrev pub days_per_era : ℕ
days_per_era = 146097

abbrev pub epoch_adjustment_days : ℕ
epoch_adjustment_days = 719468

-- `y -= m <= 2`, and `m + (m > 2 ? -3 : 9)`: the year and the month counted from March.
abbrev pub march_year : ℕ → ℕ → ℕ
march_year y m = if leb m 2 then y - 1 else y

abbrev pub march_month : ℕ → ℕ
march_month m = if ltb 2 m then m - 3 else m + 9

-- Without the `-1` of `d - 1`, an `uint32_t` that wraps on day 0 of March: it is taken from the sum,
-- in `adjusted_days`, that wraps back.
abbrev pub day_of_year : ℕ → ℕ → ℕ
day_of_year m d = (153 * march_month m + 2) / 5 + d

abbrev pub day_of_era : ℕ → ℕ → ℕ
day_of_era yoe doy = yoe * 365 + yoe / 4 - yoe / 100 + doy

-- The days since 1st March of year 0.
abbrev pub adjusted_days : ℕ → ℕ → ℕ → ℕ
adjusted_days y m d =
    march_year y m / 400 * days_per_era + day_of_era (march_year y m % 400) (day_of_year m d) - 1

unfoldable pub days_from_civil : ℕ → ℕ → ℕ → ℕ
days_from_civil y m d = (adjusted_days y m d + 2 ^ 32 - epoch_adjustment_days) % 2 ^ 32

unfoldable pub is_leap : ℕ → Bool
is_leap y = y % 4 == 0 && (not (y % 100 == 0) || y % 400 == 0)

abbrev pub last_day_of_month_common_year : ℕ → ℕ
last_day_of_month_common_year m =
    get_or (31 ∷ 28 ∷ 31 ∷ 30 ∷ 31 ∷ 30 ∷ 31 ∷ 31 ∷ 30 ∷ 31 ∷ 30 ∷ 31 ∷ []) (m - 1) 0

unfoldable pub lastdayofmonth : ℕ → ℕ → ℕ
unfolding is_leap
lastdayofmonth y m = if not (m == 2) || not (is_leap y) then last_day_of_month_common_year m else 29

-- `weekday_from_days` of a day from 1970 on; Sunday is 0.
abbrev pub weekday_from_days : ℕ → ℕ
weekday_from_days z = (z + 4) % 7

-- `x -= y; return x <= 6 ? x : x + 7;` on unsigned numbers
unfoldable pub weekdaydifference : ℕ → ℕ → ℕ
weekdaydifference x y =
    let z = (x + 2 ^ 32 - y) % 2 ^ 32 in if leb z 6 then z else (z + 7) % 2 ^ 32 % 256

-- The `n`-th weekday `wd` of a month, or the one before where the month has no `n`-th.
unfoldable pub get_nth_dow_month_year : ℕ → ℕ → ℕ → ℕ → ℕ
unfolding days_from_civil weekdaydifference lastdayofmonth
get_nth_dow_month_year n wd month year =
    let wd_1st = weekday_from_days (days_from_civil year month 1) in
    let day = (weekdaydifference wd wd_1st + 1 + (n - 1) * 7) % 256 in
    if ltb (lastdayofmonth year month) day then day - 7 else day
