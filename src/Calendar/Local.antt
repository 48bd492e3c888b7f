-- ===== src/Calendar/Local.antt =====
-- `mktime` and `localtime` of nodes/SodaqOneDevice/MyTime.cpp: seconds since 1970 from a date and a
-- time of day, and back. A month of `struct tmx` counts from 0 and a year from 1900.
pub mod RoundTrip
use docker_applications.Common.{
  ℕ, ◌+◌, ◌-◌, ◌*◌, ◌/◌, ◌%◌, ◌^◌, Bool, true, false, ◌&&◌, Option, none, some, leb, ltb,
  if◌then◌else◌,
}
use docker_applications.Calendar.{days_per_era, epoch_adjustment_days, adjusted_days, is_leap}

abbrev pub secs_per_day : ℕ
secs_per_day = 86400

-- The product and the sum are of the signed 32-bit `long`, whose overflow is undefined: `none`. A
-- date before 1970 has a negative value, which the result, a `uint32_t`, wraps.
unfoldable pub mktime : ℕ → ℕ → ℕ → ℕ → ℕ → ℕ → Option ℕ
mktime year month day hour minute seconds =
    let adjusted = adjusted_days year month day in
    let in_day = hour * 3600 + minute * 60 + seconds in
    if leb epoch_adjustment_days adjusted
    then (let t = (adjusted - epoch_adjustment_days) * secs_per_day + in_day in
        if ltb t (2 ^ 31) then some t else none)
    else (let before = (epoch_adjustment_days - adjusted) * secs_per_day in
        if leb before (2 ^ 31) then some ((2 ^ 32 - before + in_day) % 2 ^ 32) else none)

-- `struct tmx`
pub record Tmx : Type 0 where
  pub tm_sec : ℕ
  pub tm_min : ℕ
  pub tm_hour : ℕ
  pub tm_mday : ℕ
  pub tm_mon : ℕ
  pub tm_year : ℕ
  pub tm_wday : ℕ
  pub tm_yday : ℕ
  pub tm_isdst : Bool

-- What `localtime` reads of the class `Time`. The offset is in hours, as the `uint32_t` that is
-- added: a negative one is there as 2 ^ 32 less.
pub record Zone : Type 0 where
  pub dst : Bool
  pub xdst_first : ℕ
  pub xdst_last : ℕ
  pub offset : ℕ

abbrev pub in_dst : Zone → ℕ → Bool
in_dst z utctime = z.dst && (leb z.xdst_first utctime && ltb utctime z.xdst_last)

abbrev pub local_seconds : Zone → ℕ → ℕ
local_seconds z utctime =
    (utctime + z.offset * 3600 + (if in_dst z utctime then 3600 else 0)) % 2 ^ 32

-- The year of the era, counted from March, and the day of that year.
abbrev pub year_of_era : ℕ → ℕ
year_of_era eraday = (eraday - eraday / 1460 + eraday / 36524 - eraday / 146096) / 365

abbrev pub day_of_march_year : ℕ → ℕ
day_of_march_year eraday =
    let erayear = year_of_era eraday in eraday - (365 * erayear + erayear / 4 - erayear / 100)

abbrev pub month_of_march_year : ℕ → ℕ
month_of_march_year yearday = (5 * yearday + 2) / 153

-- `month += month < 10 ? 2 : -10`
abbrev pub month_from_january : ℕ → ℕ
month_from_january month = if ltb month 10 then month + 2 else month - 10

unfoldable pub localtime : Zone → ℕ → Tmx
unfolding is_leap
localtime z utctime =
    let lcltime = local_seconds z utctime in
    let days = lcltime / secs_per_day + epoch_adjustment_days in
    let rem = lcltime % secs_per_day in
    let era = days / days_per_era in
    let eraday = days - era * days_per_era in
    let erayear = year_of_era eraday in
    let yearday = day_of_march_year eraday in
    let from_march = month_of_march_year yearday in
    let month = month_from_january from_march in
    let year = erayear + era * 400 + (if leb month 1 then 1 else 0) in
    record {
      tm_sec = rem % 3600 % 60;
      tm_min = rem % 3600 / 60;
      tm_hour = rem / 3600;
      tm_mday = yearday - (153 * from_march + 2) / 5 + 1;
      tm_mon = month;
      tm_year = year - 1900;
      tm_wday = (3 + days) % 7;
      tm_yday =
          if leb 306 yearday
          then yearday - 306
          else yearday + 31 + 28 + (if is_leap erayear then 1 else 0);
      tm_isdst = in_dst z utctime;
    }
