-- ===== src/Tests/Dates.antt =====
-- The calendar on concrete values.
use docker_applications.Common.{ℕ, ◌+◌, ◌%◌, ◌^◌, ◌≡◌, refl, true, some, inl, arith}
use docker_applications.Calendar.{days_from_civil, lastdayofmonth}
use docker_applications.Calendar.Months.{IsDate, days_from_civil-next_day}
use docker_applications.Calendar.Dst.{Time, dstwindow}
use docker_applications.Calendar.Dst.Window.{IsRule, rule_moment, dstwindow_lem}

leap_day-IsDate : IsDate 2016 2 29
unfolding lastdayofmonth
leap_day-IsDate = record {
  year_from = omega arith;
  year_to = omega arith;
  month_from = omega arith;
  month_to = omega arith;
  day_from = omega arith;
  day_to = omega arith;
}

days_from_civil-next_day_example :
    (days_from_civil 1970 1 1 ≡ 0) × (days_from_civil 2016 3 1 ≡ days_from_civil 2016 2 29 + 1)
unfolding lastdayofmonth
days_from_civil-next_day_example = days_from_civil-next_day 2016 2 29 leap_day-IsDate

-- The last Sundays of March and October, in a zone one hour to the east.
abbrev amsterdam : Time
amsterdam = record {
  zone = record { dst = true; xdst_first = 0; xdst_last = 0; offset = 1 };
  year = 0;
  begin = record { week = 5; weekday = 0; month = 3; hour = 2 };
  end = record { week = 5; weekday = 0; month = 10; hour = 3 };
}

begin-IsRule : IsRule amsterdam.begin
begin-IsRule = record {
  week_in = (omega arith, omega arith);
  weekday_in = omega arith;
  month_in = (omega arith, omega arith);
  hour_in = omega arith;
}

end-IsRule : IsRule amsterdam.end
end-IsRule = record {
  week_in = (omega arith, omega arith);
  weekday_in = omega arith;
  month_in = (omega arith, omega arith);
  hour_in = omega arith;
}

dstwindow_lem_example :
    (first : ℕ) × (last : ℕ) × (dstwindow 2016 amsterdam
      ≡ some (record amsterdam {
        year = 2016;
        zone = record { dst = true; xdst_first = first; xdst_last = last; offset = 1 };
      }))
    × ((first + 3600) % 2 ^ 32 ≡ rule_moment amsterdam.begin 2016)
    × ((last + 7200) % 2 ^ 32 ≡ rule_moment amsterdam.end 2016)
dstwindow_lem_example =
    dstwindow_lem amsterdam 2016 (omega arith) refl (inl (omega arith)) begin-IsRule end-IsRule
      (omega arith) (omega arith)
