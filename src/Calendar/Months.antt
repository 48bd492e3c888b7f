-- ===== src/Calendar/Months.antt =====
-- `days_from_civil` counts the days of the calendar.
use docker_applications.Common.{
  ℕ, zero, suc, ◌+◌, ◌-◌, ◌≤◌, ◌<◌, ◌≡◌, refl, subst, ltb, ltb→lt, ltb→le, ◌∙◌, inl, inr,
  Bool-cases, if◌then◌else◌, arith,
}
use docker_applications.Calendar.{
  adjusted_days, days_from_civil, is_leap, lastdayofmonth, last_day_of_month_common_year,
  epoch_adjustment_days,
}

february :
    (y : ℕ) → 1 ≤ y → adjusted_days y 3 1 ≡ adjusted_days y 2 1 + (if is_leap y then 29 else 28)
unfolding is_leap
february y hy = ground arith

year_end : (y : ℕ) → 1 ≤ y → adjusted_days (y + 1) 1 1 ≡ adjusted_days y 12 1 + 31
year_end y hy = omega arith

month_step :
    (y m : ℕ)
    → 1 ≤ y
    → 1 ≤ m
    → m < 12
    → adjusted_days y (m + 1) 1 ≡ adjusted_days y m 1 + lastdayofmonth y m
unfolding lastdayofmonth
month_step y zero hy lo hi = absurd (omega arith)
month_step y (suc zero) hy lo hi = omega arith
month_step y (suc (suc zero)) hy lo hi = february y hy ∙ (ground arith)
month_step y (suc (suc (suc zero))) hy lo hi = omega arith
month_step y (suc (suc (suc (suc zero)))) hy lo hi = omega arith
month_step y (suc (suc (suc (suc (suc zero))))) hy lo hi = omega arith
month_step y (suc (suc (suc (suc (suc (suc zero)))))) hy lo hi = omega arith
month_step y (suc (suc (suc (suc (suc (suc (suc zero))))))) hy lo hi = omega arith
month_step y (suc (suc (suc (suc (suc (suc (suc (suc zero)))))))) hy lo hi = omega arith
month_step y (suc (suc (suc (suc (suc (suc (suc (suc (suc zero))))))))) hy lo hi = omega arith
month_step y (suc (suc (suc (suc (suc (suc (suc (suc (suc (suc zero)))))))))) hy lo hi = omega arith
month_step y (suc (suc (suc (suc (suc (suc (suc (suc (suc (suc (suc zero))))))))))) hy lo hi =
    omega arith
month_step y (suc (suc (suc (suc (suc (suc (suc (suc (suc (suc (suc (suc m)))))))))))) hy lo hi =
    absurd (omega arith)

-- A date of the Gregorian calendar from 1970 to 9999.
pub record IsDate (y m d : ℕ) : Type 0 where
  pub year_from : 1970 ≤ y
  pub year_to : y ≤ 9999
  pub month_from : 1 ≤ m
  pub month_to : m ≤ 12
  pub day_from : 1 ≤ d
  pub day_to : d ≤ lastdayofmonth y m

pub days_in_month : (y m d : ℕ) → 1 ≤ d → adjusted_days y m d ≡ adjusted_days y m 1 + (d - 1)
days_in_month y m d h = omega arith

pub days_from_civil-eq :
    (y m d : ℕ)
    → 1970 ≤ y
    → y ≤ 10000
    → 1 ≤ d
    → d ≤ 31
    → 1 ≤ m
    → m ≤ 12
    → days_from_civil y m d + epoch_adjustment_days ≡ adjusted_days y m d
unfolding days_from_civil
days_from_civil-eq y m d hy hy' hd hd' hm hm' = ground arith

common_range :
    (m : ℕ)
    → 1 ≤ m
    → m ≤ 12
    → (28 ≤ last_day_of_month_common_year m) × (last_day_of_month_common_year m ≤ 31)
common_range zero lo hi = absurd (omega arith)
common_range (suc zero) lo hi = omega arith
common_range (suc (suc zero)) lo hi = omega arith
common_range (suc (suc (suc zero))) lo hi = omega arith
common_range (suc (suc (suc (suc zero)))) lo hi = omega arith
common_range (suc (suc (suc (suc (suc zero))))) lo hi = omega arith
common_range (suc (suc (suc (suc (suc (suc zero)))))) lo hi = omega arith
common_range (suc (suc (suc (suc (suc (suc (suc zero))))))) lo hi = omega arith
common_range (suc (suc (suc (suc (suc (suc (suc (suc zero)))))))) lo hi = omega arith
common_range (suc (suc (suc (suc (suc (suc (suc (suc (suc zero))))))))) lo hi = omega arith
common_range (suc (suc (suc (suc (suc (suc (suc (suc (suc (suc zero)))))))))) lo hi = omega arith
common_range (suc (suc (suc (suc (suc (suc (suc (suc (suc (suc (suc zero))))))))))) lo hi =
    omega arith
common_range (suc (suc (suc (suc (suc (suc (suc (suc (suc (suc (suc (suc zero)))))))))))) lo hi =
    omega arith
common_range (suc (suc (suc (suc (suc (suc (suc (suc (suc (suc (suc (suc (suc m))))))))))))) lo hi =
    absurd (omega arith)

pub lastdayofmonth_range :
    (y m : ℕ) → 1 ≤ m → m ≤ 12 → (28 ≤ lastdayofmonth y m) × (lastdayofmonth y m ≤ 31)
unfolding lastdayofmonth
lastdayofmonth_range y m lo hi = let c = common_range m lo hi in ground arith

december : (y m : ℕ) → m ≡ 12 → lastdayofmonth y m ≡ 31
unfolding lastdayofmonth
december y m h = rw h

-- The day after, by the rules of the calendar.
abbrev pub next_day : ℕ → ℕ → ℕ → ℕ × (ℕ × ℕ)
next_day y m d =
    if ltb d (lastdayofmonth y m)
    then (y, (m, d + 1))
    else if ltb m 12
    then (y, (m + 1, 1))
    else (y + 1, (1, 1))

-- `days_from_civil` is 0 on 1st January 1970, and from a date of the years 1970 to 9999 to the day
-- after it grows by one: across months, leap days and years alike.
pub days_from_civil-next_day :
    (y m d : ℕ)
    → IsDate y m d
    → (days_from_civil 1970 1 1 ≡ 0)
      × (days_from_civil (next_day y m d).0 (next_day y m d).1.0 (next_day y m d).1.1
          ≡ days_from_civil y m d + 1)
days_from_civil-next_day y m d t =
    let from = t.year_from in
    let to = t.year_to in
    let lo = t.month_from in
    let hi = t.month_to in
    let first = t.day_from in
    let range = lastdayofmonth_range y m lo hi in
    let within = t.day_to in
    let now = days_from_civil-eq y m d from (omega arith) first (omega arith) lo hi in
    let here = days_in_month y m d first in
    (
      unfold days_from_civil in refl,
      elim (Bool-cases (ltb d (lastdayofmonth y m))) [
        | inl inside ↦ rw inside (
            let below = ltb→lt d (lastdayofmonth y m) inside in
            omega (
              arith,
              now,
              here,
              days_in_month y m (d + 1) (omega arith),
              days_from_civil-eq y m (d + 1) from (omega arith) (omega arith) (omega arith) lo hi,
            ))
        | inr last ↦ rw last (
            let above = ltb→le d (lastdayofmonth y m) last in
            elim (Bool-cases (ltb m 12)) [
              | inl more ↦ rw more (
                  let before = ltb→lt m 12 more in
                  omega (
                    arith,
                    now,
                    here,
                    month_step y m (omega arith) lo before,
                    days_from_civil-eq y (m + 1) 1 from (omega arith) (omega arith) (omega arith)
                        (omega arith) (omega arith),
                  ))
              | inr over ↦ rw over (
                  let past = ltb→le m 12 over in
                  let m_is : m ≡ 12 = omega arith in
                  let now' : days_from_civil y m d + epoch_adjustment_days ≡ adjusted_days y 12 d =
                    subst (λ k. days_from_civil y m d + epoch_adjustment_days ≡ adjusted_days y k d)
                      m_is now in
                  omega (
                    arith,
                    now',
                    days_in_month y 12 d first,
                    december y m m_is,
                    year_end y (omega arith),
                    days_from_civil-eq (y + 1) 1 1 (omega arith) (omega arith) (omega arith)
                        (omega arith) (omega arith) (omega arith),
                  ))
            ])
      ],
    )
