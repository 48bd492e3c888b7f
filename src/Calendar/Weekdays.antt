-- ===== src/Calendar/Weekdays.antt =====
-- `get_nth_dow_month_year` finds the weekday that it is asked for.
use docker_applications.Common.{
  ℕ, ◌+◌, ◌-◌, ◌*◌, ◌%◌, ◌≤◌, ◌<◌, ◌≡◌, ltb, ltb→lt, ltb→le, Bool-cases, inl, inr, if◌then◌else◌,
  ◌∙◌, arith,
}
use docker_applications.Calendar.{
  days_from_civil, lastdayofmonth, weekday_from_days, weekdaydifference, get_nth_dow_month_year,
}
use docker_applications.Calendar.Months.{days_from_civil-eq, days_in_month, lastdayofmonth_range}

weekdaydifference_lem : (x y : ℕ) → x < 7 → y < 7 → weekdaydifference x y ≡ (x + 7 - y) % 7
unfolding weekdaydifference
weekdaydifference_lem x y hx hy = ground arith

-- The day found, without the wrap-around.
found_day :
    (n wd month year : ℕ)
    → 1 ≤ n
    → n ≤ 5
    → wd < 7
    → get_nth_dow_month_year n wd month year ≡ (
        let day =
          (wd + 7 - weekday_from_days (days_from_civil year month 1)) % 7 + 1 + (n - 1) * 7 in
        if ltb (lastdayofmonth year month) day then day - 7 else day)
unfolding get_nth_dow_month_year
found_day n wd month year hn hn' hw =
    let w : ℕ = weekday_from_days (days_from_civil year month 1) in
    let small : ((wd + 7 - w) % 7 + 1 + (n - 1) * 7) % 256 ≡ (wd + 7 - w) % 7 + 1 + (n - 1) * 7 =
      omega arith in
    rw (weekdaydifference_lem wd w hw (omega arith), small)

on_weekday :
    (last w wd n day : ℕ)
    → 1 ≤ n
    → n ≤ 5
    → wd < 7
    → w < 7
    → 28 ≤ last
    → day ≡ (let v = (wd + 7 - w) % 7 + 1 + (n - 1) * 7 in if ltb last v then v - 7 else v)
    → (1 ≤ day) × (day ≤ last) × ((w + (day - 1)) % 7 ≡ wd)
on_weekday last w wd n day hn hn' hw hw' hl h =
    let v : ℕ = (wd + 7 - w) % 7 + 1 + (n - 1) * 7 in
    elim (Bool-cases (ltb last v)) [
      | inl over ↦
          let beyond = ltb→lt last v over in
          let is : day ≡ v - 7 = h ∙ rw over in (omega arith, omega arith, omega arith)
      | inr fits ↦
          let within = ltb→le last v fits in
          let is : day ≡ v = h ∙ rw fits in (omega arith, omega arith, omega arith)
    ]

-- For a month of the years 1970 to 9999, the `n`-th weekday, for `n` up to 5, is a day of that month
-- and falls on the weekday.
pub get_nth_dow_month_year_lem :
    (n wd month year : ℕ)
    → 1 ≤ n
    → n ≤ 5
    → wd < 7
    → 1 ≤ month
    → month ≤ 12
    → 1970 ≤ year
    → year ≤ 9999
    → (1 ≤ get_nth_dow_month_year n wd month year)
      × (get_nth_dow_month_year n wd month year ≤ lastdayofmonth year month)
      × (weekday_from_days (days_from_civil year month (get_nth_dow_month_year n wd month year))
          ≡ wd)
get_nth_dow_month_year_lem n wd month year hn hn' hw hm hm' hy hy' =
    let w : ℕ = weekday_from_days (days_from_civil year month 1) in
    let found = found_day n wd month year hn hn' hw in
    let range = lastdayofmonth_range year month hm hm' in
    let facts =
      on_weekday (lastdayofmonth year month) w wd n (get_nth_dow_month_year n wd month year) hn hn'
        hw (omega arith) range.0 found in
    let day : ℕ = get_nth_dow_month_year n wd month year in
    (
      facts.0,
      facts.1,
      omega (
        arith,
        found,
        facts,
        days_in_month year month day facts.0,
        days_from_civil-eq year month 1 hy (omega arith) (omega arith) (omega arith) hm hm',
        days_from_civil-eq year month day hy (omega arith) facts.0 (omega arith) hm hm',
      ),
    )
