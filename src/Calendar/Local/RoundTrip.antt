-- ===== src/Calendar/Local/RoundTrip.antt =====
-- `localtime` gives the date and the time of day whose `mktime` is the local time.
use docker_applications.Common.{
  ℕ, ◌+◌, ◌-◌, ◌*◌, ◌/◌, ◌%◌, ◌^◌, ◌≤◌, ◌<◌, ◌≡◌, refl, ◌∙◌, some, leb, if◌then◌else◌, le→leb,
  lt→ltb, arith,
}
use docker_applications.Calendar.{
  march_year, march_month, days_per_era, epoch_adjustment_days, adjusted_days,
}
use docker_applications.Calendar.Local.{
  secs_per_day, mktime, Zone, local_seconds, year_of_era, day_of_march_year, month_of_march_year,
  month_from_january, localtime,
}

year_of_era_bounds :
    (e : ℕ)
    → e < 146097
    → (year_of_era e < 400) × (365 * year_of_era e + year_of_era e / 4 - year_of_era e / 100 ≤ e)
year_of_era_bounds e h = omega arith

day_range : (e : ℕ) → e < 146097 → day_of_march_year e < 366
day_range e h = omega arith

-- The month and the day of a day of the year that begins in March.
month_range : (yd : ℕ) → yd < 366 → month_of_march_year yd < 12
month_range yd h = omega arith

month_start : (yd : ℕ) → (153 * month_of_march_year yd + 2) / 5 ≤ yd
month_start yd = omega arith

march_month-january : (m : ℕ) → m < 12 → march_month (month_from_january m + 1) ≡ m
march_month-january m h = ground arith

march_year-january :
    (y m : ℕ)
    → m < 12
    → march_year (y + (if leb (month_from_january m) 1 then 1 else 0)) (month_from_january m + 1)
      ≡ y
march_year-january y m h = ground arith

recombined :
    (n y e s : ℕ)
    → y < 400
    → 365 * y + y / 4 - y / 100 ≤ e
    → s ≤ e - (365 * y + y / 4 - y / 100)
    → (y + n * 400) / 400 * 146097
        + ((y + n * 400) % 400 * 365
            + (y + n * 400) % 400 / 4
            - (y + n * 400) % 400 / 100
            + (s + (e - (365 * y + y / 4 - y / 100) - s + 1)))
        - 1
      ≡ n * 146097 + e
recombined n y e s small below start =
    let year : (y + n * 400) % 400 ≡ y = omega arith in
    let era : (y + n * 400) / 400 ≡ n = omega arith in rw (year, era) (omega arith)

-- The date of the day `e` of the era `n`.
adjusted_days-date :
    (n e : ℕ)
    → e < 146097
    → (let yd = day_of_march_year e in
        let m = month_of_march_year yd in
        adjusted_days
          (year_of_era e + n * 400 + (if leb (month_from_january m) 1 then 1 else 0))
          (month_from_january m + 1)
          (yd - (153 * m + 2) / 5 + 1))
      ≡ n * 146097 + e
adjusted_days-date n e h =
    let yd = day_of_march_year e in
    let m = month_of_march_year yd in
    let year = year_of_era_bounds e h in
    let small = month_range yd (day_range e h) in
    rw (march_year-january (year_of_era e + n * 400) m small, march_month-january m small)
      (recombined n (year_of_era e) e ((153 * m + 2) / 5) year.0 year.1 (month_start yd))

-- A day from 1970 on lies in the years from 1970 on.
year_from : (n e : ℕ) → 719468 ≤ n * 146097 + e → e < 146097 → 1900 ≤ year_of_era e + n * 400
year_from n e h small = omega arith

-- `mktime` of a date that lies as many days after 1970 as `t`, at the time of day of `t`.
mktime-adjusted :
    (y m d t : ℕ)
    → adjusted_days y m d ≡ t / 86400 + 719468
    → t < 2 ^ 31
    → mktime y m d (t % 86400 / 3600) (t % 86400 % 3600 / 60) (t % 86400 % 3600 % 60) ≡ some t
unfolding mktime
mktime-adjusted y m d t days h =
    let whole : (t / 86400 + 719468 - 719468) * 86400
          + (t % 86400 / 3600 * 3600 + t % 86400 % 3600 / 60 * 60 + t % 86400 % 3600 % 60)
        ≡ t =
      omega arith in
    rw (days, le→leb 719468 (t / 86400 + 719468) (omega arith), whole, lt→ltb t (2 ^ 31) h) refl

-- For a local time before the overflow of a 32-bit `long` in 2038, `localtime` gives the date and
-- the time of day of which `mktime` makes that local time again.
pub mktime-localtime :
    (z : Zone) (utctime : ℕ)
    → local_seconds z utctime < 2 ^ 31
    → (let t = localtime z utctime in
        mktime (t.tm_year + 1900) (t.tm_mon + 1) t.tm_mday t.tm_hour t.tm_min t.tm_sec)
      ≡ some (local_seconds z utctime)
unfolding localtime
mktime-localtime z utctime h =
    let t = local_seconds z utctime in
    let days = t / secs_per_day + epoch_adjustment_days in
    let era = days / days_per_era in
    let e = days - era * days_per_era in
    let m = month_of_march_year (day_of_march_year e) in
    let year = year_of_era e + era * 400 + (if leb (month_from_january m) 1 then 1 else 0) in
    let small : e < 146097 = omega arith in
    let same : era * 146097 + e ≡ days = omega arith in
    let modern = year_from era e (omega arith) small in
    let from_1900 : year - 1900 + 1900 ≡ year = omega (arith, modern) in
    rw from_1900 (
      mktime-adjusted year (month_from_january m + 1) (day_of_march_year e - (153 * m + 2) / 5 + 1)
        t (adjusted_days-date era e small ∙ same) h)
