-- ===== src/Tracker/Acquire/FixReport.antt =====
-- The report of a fix: what a solution and the end of the search write into it.
use docker_applications.Common.{ℕ, ◌%◌, ◌^◌, ◌<◌, ◌≡◌, refl, true, some}
use docker_applications.Record.{set_field_value}
use docker_applications.Record.Report.{
  Report, on_air, set_altitude, set_course, set_lat, set_long, set_satellite_count, set_speed,
  set_timestamp, set_battery_voltage, set_board_temperature,
}
use docker_applications.Ring.{Ring, push}
use docker_applications.Tracker.Acquire.{Board, stamp, finish_report}
use docker_applications.Tracker.Acquire.Position.{fix_of, took, store_fix-on_air}
use docker_applications.Tracker.NavPvt.{
  Rtc, NavPvt, Tracking, altitude, speed, is_fix, write_fix, set_now, sync_clock, delegate_nav_pvt,
}
use docker_applications.Tracker.NavPvt.Clock.{sync_clock-holds}

-- What a solution with a fix writes.
abbrev pub with_fix : NavPvt → ℕ → Report → Report
with_fix v kmh p = record p {
  altitude = altitude v.h_msl;
  course = v.heading % 2 ^ 8;
  lat = v.lat;
  long = v.lon;
  satellite_count = v.num_sv;
  speed = kmh;
}

write_fix-on_air :
    (v : NavPvt) (kmh : ℕ) (p : Report)
    → speed v.g_speed ≡ some kmh
    → write_fix v (on_air p) ≡ some (on_air (with_fix v kmh p))
unfolding write_fix set_altitude set_course set_lat set_long set_satellite_count set_speed
    set_field_value
write_fix-on_air v kmh p h = rw h refl

abbrev pub stamped : ℕ → Board → Report → Report
stamped now board p = record p {
  timestamp = now;
  battery_voltage = board.battery_voltage;
  board_temperature = board.board_temperature;
}

stamp-on_air :
    (now : ℕ) (board : Board) (p : Report)
    → stamp now board (on_air p) ≡ some (on_air (stamped now board p))
unfolding stamp set_timestamp set_battery_voltage set_board_temperature set_field_value
stamp-on_air now board p = refl

-- The report after a search with a fix.
abbrev pub final_report : ℕ → ℕ → Board → Report → Report
final_report start now board p = took start (stamped now board p)

pub finish_report-on_air :
    (start now : ℕ) (board : Board) (p : Report) (ring : Ring)
    → now < 2 ^ 32
    → p.lat < 2 ^ 32
    → p.long < 2 ^ 32
    → finish_report true start now board (on_air p) ring
      ≡ some (on_air (final_report start now board p), push ring (fix_of (stamped now board p)))
unfolding finish_report
finish_report-on_air start now board p ring hn hlat hlong = rw (stamp-on_air now board p) (
    store_fix-on_air start (stamped now board p) ring
      (record { timestamp_small = hn; lat_small = hlat; long_small = hlong }))

module _ {Timer : Type 0} (rtc : Rtc Timer) where
  sync_clock-pending :
      (v : NavPvt) (s t : Tracking Timer) → sync_clock rtc v s ≡ some t → t.pending ≡ s.pending
  unfolding set_now
  sync_clock-pending v s t h =
      sync_clock-holds rtc (λ x. x.pending ≡ s.pending) v s t refl (λ e valid made. refl) h

  -- A solution with a fix, once the clock was synchronised.
  pub delegate-fix :
      (v : NavPvt) (kmh : ℕ) (p : Report) (s t : Tracking Timer)
      → s.pending ≡ on_air p
      → is_fix v ≡ true
      → speed v.g_speed ≡ some kmh
      → sync_clock rtc v s ≡ some t
      → delegate_nav_pvt rtc v s
        ≡ some (record t { pending = on_air (with_fix v kmh p); is_pending_new = true })
  unfolding delegate_nav_pvt
  delegate-fix v kmh p s t pending fix kmh_is synced =
      rw (synced, fix, sync_clock-pending v s t synced, pending, write_fix-on_air v kmh p kmh_is)
        refl
