-- ===== src/Tests/Search.antt =====
-- The search for a fix, the local time, the boot menu and the gauge of the battery.
use docker_applications.Common.{
  ℕ, ◌+◌, ◌^◌, ◌≡◌, refl, true, some, ◌>>=◌, leb, le→leb, ◌*◌, ◌/◌, if◌then◌else◌, arith,
}
use docker_applications.Calendar.Local.{mktime, Zone, localtime}
use docker_applications.Calendar.Local.RoundTrip.{mktime-localtime}
use docker_applications.Record.Report.{Report, on_air}
use docker_applications.Ring.{push}
use docker_applications.Ring.Refine.{IsValid}
use docker_applications.Tracker.Acquire.{store_fix, recall_fix}
use docker_applications.Tracker.Acquire.Position.{fix_of, recalled, recall_fix-store_fix}
use docker_applications.Gauge as Gauge
use docker_applications.Gauge.{Gauge, Registers}
use docker_applications.Gauge.Losses.{Exact, losses, update-losses, update_counts_twice}
use docker_applications.Tests.Data.{two_fixes}

-- An hour east of Greenwich, in daylight saving time: 29th February 2016, 13:14:15.
abbrev east : Zone
east = record { dst = true; xdst_first = 0; xdst_last = 2 ^ 31; offset = 1 }

mktime-localtime_example :
    (let t = localtime east 1456744455 in
      mktime (t.tm_year + 1900) (t.tm_mon + 1) t.tm_mday t.tm_hour t.tm_min t.tm_sec)
    ≡ some 1456751655
mktime-localtime_example = mktime-localtime east 1456744455 (omega arith)

leap_day : ((localtime east 1456744455).tm_mday ≡ 29) × ((localtime east 1456744455).tm_yday ≡ 59)
unfolding localtime
leap_day = (refl, refl)

abbrev fixed : Report
fixed = record {
  timestamp = 1451606400;
  battery_voltage = 80;
  board_temperature = 21;
  lat = 520000000;
  long = 48000000;
  altitude = 3;
  speed = 0;
  course = 0;
  satellite_count = 7;
  time_to_fix = 0;
}

abbrev later : Report
later = record fixed { timestamp = 1451607000; lat = 0; long = 0 }

two_fixes-IsValid : IsValid two_fixes
two_fixes-IsValid = record {
  slots = refl;
  top_in = omega arith;
  count_in = omega arith;
  bottom_at = refl;
  bottom_in = omega arith;
  filling = λ _. refl;
}

recall_fix-store_fix_example :
    (store_fix 1451606370 (on_air fixed) two_fixes
      ≡ some (on_air (record fixed { time_to_fix = 30 }), push two_fixes (fix_of fixed)))
    × (recall_fix (on_air later) (push two_fixes (fix_of fixed))
        ≡ some (on_air (recalled later 520000000 48000000)))
recall_fix-store_fix_example =
    recall_fix-store_fix 1451606370 fixed later two_fixes two_fixes-IsValid
      (record { timestamp_small = omega arith; lat_small = omega arith; long_small = omega arith })

-- 500 mAh before three updates without power, 20 mAh after it.
abbrev used : Gauge
used = record { valid = true; charge_state = true; charge = 500; charge_offset = 300 }

abbrev counting : ℕ → ℕ → Registers
counting status reading = record {
  acknowledged = true;
  status_code = status;
  charge_reading = reading;
}

-- Floats as whole numbers, exact up to 2 ^ 24.
abbrev cut : ℕ → ℕ
cut n = if leb n 0x100_0000 then n else n / 256 * 256

cut-Exact : Exact cut
cut-Exact n h = rw (le→leb n 0x100_0000 h) refl

update-losses_example :
    (losses cut 3 (counting 0 0) used >>= λ g. Gauge.update cut (counting 1 20) g)
    ≡ some (record { valid = true; charge_state = true; charge = 520; charge_offset = 500 })
update-losses_example =
    update-losses cut cut-Exact 2 (counting 0 0) (counting 1 20) used refl refl (omega arith)
      (omega arith) (omega arith)

-- 500 mAh are counted, and 702 after one failure.
update_counts_twice_example :
    (once twice : Gauge) × (Gauge.update cut (counting 0 200) used ≡ some once)
    × (once.charge ≡ 500)
    × ((losses cut 1 (counting 0 200) once >>= λ g. Gauge.update cut (counting 0 202) g)
        ≡ some twice)
    × (twice.charge ≡ 702)
update_counts_twice_example =
    update_counts_twice cut cut-Exact (counting 0 200) (counting 0 202) used refl refl refl refl
      (omega arith) (omega arith) (omega arith)
