-- ===== src/Calendar/Dst.antt =====
-- `get_dst_time` and `dstwindow` of nodes/SodaqOneDevice/MyTime.cpp: the window of daylight saving
-- time in a year, for years below 2 ^ 15, which `int16_t year` holds.
pub mod Window
use docker_applications.Common.{
  ℕ, ◌+◌, ◌-◌, ◌*◌, ◌%◌, ◌^◌, Bool, not, ◌&&◌, Option, none, some, ◌>>=◌, leb, ◌==◌, if◌then◌else◌,
}
use docker_applications.Calendar.{get_nth_dow_month_year}
use docker_applications.Calendar.Local.{Zone, mktime}

-- `struct rule`; its name and its minute are not used.
pub record Rule : Type 0 where
  pub week : ℕ
  pub weekday : ℕ
  pub month : ℕ
  pub hour : ℕ

-- `rule_hour - offset - dst_offset`, an `int8_t`: from 128 on it is negative.
abbrev pub utc_hour : ℕ → ℕ → ℕ → ℕ
utc_hour rule_hour offset dst_offset = (rule_hour + 2 ^ 33 - offset - dst_offset) % 256

unfoldable pub get_dst_time : ℕ → ℕ → Rule → ℕ → Option ℕ
unfolding mktime get_nth_dow_month_year
get_dst_time offset dst_offset r current_year =
    let month_day = get_nth_dow_month_year r.week r.weekday r.month current_year in
    let hour = utc_hour r.hour offset dst_offset in
    if leb 128 hour
    then mktime current_year r.month (month_day - 1) ((24 + hour) % 256) 0 0
    else mktime current_year r.month month_day hour 0 0

-- The class `Time`: what `localtime` reads, the year of the window, and the two rules.
pub record Time : Type 0 where
  pub zone : Zone
  pub year : ℕ
  pub begin : Rule
  pub end : Rule

unfoldable pub dstwindow : ℕ → Time → Option Time
unfolding get_dst_time
dstwindow cyear t =
    if not (cyear == t.year) && t.zone.dst
    then (get_dst_time t.zone.offset 0 t.begin cyear >>= λ first.
        get_dst_time t.zone.offset 1 t.end cyear >>= λ last.
        some (record t {
          year = cyear;
          zone = record t.zone { xdst_first = first; xdst_last = last };
        }))
    else some t

abbrev dstfirst : Time → ℕ
dstfirst t = t.zone.xdst_first

abbrev dstlast : Time → ℕ
dstlast t = (t.zone.xdst_last + 2 ^ 32 - 1) % 2 ^ 32
