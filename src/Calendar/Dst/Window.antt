-- ===== src/Calendar/Dst/Window.antt =====
-- The window is in the time of Greenwich what the rules say in local time.
use docker_applications.Common.{
  ℕ, ◌+◌, ◌-◌, ◌*◌, ◌%◌, ◌^◌, ◌≤◌, ◌<◌, ◌≡◌, ◌≢◌, ◌⊎◌, inl, inr, refl, ap, ne→==, true, false, some,
  leb, le→leb, lt→ltb, arith,
}
use docker_applications.Calendar.{adjusted_days, days_from_civil, get_nth_dow_month_year}
use docker_applications.Calendar.Months.{days_from_civil-eq, lastdayofmonth_range}
use docker_applications.Calendar.Weekdays.{get_nth_dow_month_year_lem}
use docker_applications.Calendar.Local.{mktime}
use docker_applications.Calendar.Dst.{Rule, Time, utc_hour, get_dst_time, dstwindow}

-- A rule as its fields are described.
pub record IsRule (r : Rule) : Type 0 where
  pub week_in : (1 ≤ r.week) × (r.week ≤ 5)
  pub weekday_in : r.weekday < 7
  pub month_in : (1 ≤ r.month) × (r.month ≤ 12)
  pub hour_in : r.hour < 24

-- An offset of at most 14 hours to the east or 12 to the west of Greenwich.
abbrev pub IsOffset : ℕ → Type 0
IsOffset offset = (offset ≤ 14) ⊎ ((2 ^ 32 - 12 ≤ offset) × (offset < 2 ^ 32))

-- The moment at which a rule applies, in seconds since 1970 of the local time.
abbrev pub rule_moment : Rule → ℕ → ℕ
rule_moment r year =
    days_from_civil year r.month (get_nth_dow_month_year r.week r.weekday r.month year) * 86400
    + r.hour * 3600

lt→not_leb : (a b : ℕ) → a < b → leb b a ≡ false
lt→not_leb a b h = ground arith

-- `mktime` in these years, with any hour that a byte can be reduced to.
mktime-hour :
    (y m d h : ℕ)
    → 719468 ≤ adjusted_days y m d
    → adjusted_days y m d ≤ 719468 + 24836
    → h ≤ 127
    → mktime y m d h 0 0 ≡ some ((adjusted_days y m d - 719468) * 86400 + h * 3600)
unfolding mktime
mktime-hour y m d h from to hh =
    rw
      (
        le→leb 719468 (adjusted_days y m d) from,
        lt→ltb ((adjusted_days y m d - 719468) * 86400 + (h * 3600 + 0 * 60 + 0)) (2 ^ 31)
            (omega arith),
      )
      (ap some (omega arith))

years :
    (y m d : ℕ)
    → 1971 ≤ y
    → y ≤ 2037
    → 1 ≤ m
    → m ≤ 12
    → d ≤ 31
    → (719468 + 364 ≤ adjusted_days y m d) × (adjusted_days y m d ≤ 719468 + 24836)
years y m d hy hy' hm hm' hd = ground arith

day_before : (y m d : ℕ) → 1971 ≤ y → 1 ≤ d → adjusted_days y m (d - 1) + 1 ≡ adjusted_days y m d
day_before y m d hy hd = ground arith

-- The hour in the time of Greenwich, where it is one of the day of the rule, or of the day before.
utc_hour_lem :
    (hour o dst_offset : ℕ)
    → hour < 24
    → dst_offset ≤ 1
    → IsOffset o
    → ((utc_hour hour o dst_offset ≤ 127)
        × ((utc_hour hour o dst_offset * 3600 + (o + dst_offset) * 3600) % 2 ^ 32 ≡ hour * 3600))
      ⊎ ((128 ≤ utc_hour hour o dst_offset)
          × ((24 + utc_hour hour o dst_offset) % 256 ≤ 23)
          × ((24 + utc_hour hour o dst_offset) % 256 + o + dst_offset ≡ 24 + hour))
utc_hour_lem hour o dst_offset hh hd (inl east) = omega arith
utc_hour_lem hour o dst_offset hh hd (inr west) = inl (omega arith, omega arith)

get_dst_time_lem :
    (o dst_offset : ℕ)
    → (r : Rule) → (year : ℕ) → IsOffset o
    → dst_offset ≤ 1
    → IsRule r
    → 1971 ≤ year
    → year ≤ 2037
    → (t : ℕ) × (get_dst_time o dst_offset r year ≡ some t)
      × ((t + (o + dst_offset) * 3600) % 2 ^ 32 ≡ rule_moment r year)
unfolding get_dst_time
get_dst_time_lem o dst_offset r year ho hd hr hy hy' =
    let d : ℕ = get_nth_dow_month_year r.week r.weekday r.month year in
    let u : ℕ = utc_hour r.hour o dst_offset in
    let found =
      get_nth_dow_month_year_lem r.week r.weekday r.month year hr.week_in.0 hr.week_in.1
        hr.weekday_in hr.month_in.0 hr.month_in.1 (omega arith) (omega arith) in
    let last = lastdayofmonth_range year r.month hr.month_in.0 hr.month_in.1 in
    let now = years year r.month d hy hy' hr.month_in.0 hr.month_in.1 (omega arith) in
    let before = day_before year r.month d hy found.0 in
    let civil =
      days_from_civil-eq year r.month d (omega arith) (omega arith) found.0 (omega arith)
        hr.month_in.0 hr.month_in.1 in
    elim (utc_hour_lem r.hour o dst_offset hr.hour_in hd ho) [
      | inl same ↦ (
        (adjusted_days year r.month d - 719468) * 86400 + u * 3600,
        rw (lt→not_leb u 128 (omega arith))
            (mktime-hour year r.month d u (omega arith) now.1 same.0),
        omega (arith, same, civil, now),
      )
      | inr early ↦ (
        (adjusted_days year r.month (d - 1) - 719468) * 86400 + (24 + u) % 256 * 3600,
        rw (le→leb 128 u early.0) (
            mktime-hour year r.month (d - 1) ((24 + u) % 256) (omega arith) (omega arith)
              (omega arith)),
        omega (arith, early, before, civil),
      )
    ]

-- For another year than that of the window, one of 1971 to 2037, with daylight saving in use, an
-- offset of at most 14 hours to the east or 12 to the west, and two rules as their fields are
-- described, `dstwindow` ends without an overflow. It sets the year and the window, and nothing
-- else: the window begins at the moment that the first rule says, in the local time without daylight
-- saving, and ends at the one that the second says, in the local time with it; also where that
-- moment is on the day before in the time of Greenwich.
pub dstwindow_lem :
    (t : Time)
    → (cyear : ℕ) → cyear ≢ t.year
    → t.zone.dst ≡ true
    → IsOffset t.zone.offset
    → IsRule t.begin
    → IsRule t.end
    → 1971 ≤ cyear
    → cyear ≤ 2037
    → (first : ℕ) × (last : ℕ) × (dstwindow cyear t
        ≡ some (record t {
          year = cyear;
          zone = record t.zone { xdst_first = first; xdst_last = last };
        }))
      × ((first + t.zone.offset * 3600) % 2 ^ 32 ≡ rule_moment t.begin cyear)
      × ((last + (t.zone.offset + 1) * 3600) % 2 ^ 32 ≡ rule_moment t.end cyear)
unfolding dstwindow
dstwindow_lem t cyear other used ho hb he hy hy' =
    let b = get_dst_time_lem t.zone.offset 0 t.begin cyear ho (omega arith) hb hy hy' in
    let e = get_dst_time_lem t.zone.offset 1 t.end cyear ho (omega arith) he hy hy' in
    (b.0, e.0, rw (ne→== cyear t.year other, used, b.1, e.1) refl, omega (arith, b.2), e.2)
