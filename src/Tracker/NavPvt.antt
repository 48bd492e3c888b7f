-- ===== src/Tracker/NavPvt.antt =====
-- `delegateNavPvt` and `setNow` of nodes/SodaqOneDevice/SodaqOneDevice.ino: what becomes of a
-- solution of the GPS receiver. The real-time clock RTCZero and the timer RTCTimer are
-- libraries and a parameter. `none` is an overflow of a signed number or an
-- access out of bounds.
pub mod Clock
use docker_applications.Common.{
  ℕ, zero, suc, ◌+◌, ◌-◌, ◌*◌, ◌/◌, ◌%◌, ◌^◌, ◌≤◌, ◌<◌, ◌≡◌, Bool, true, false, ◌&&◌, ◌||◌, Option,
  none, some, ◌>>=◌, List, [], ◌∷◌, leb, ltb, ◌==◌, if◌then◌else◌,
}
use docker_applications.Calendar.Local.{mktime}
use docker_applications.Record.Report
use docker_applications.Record.Report.{
  set_altitude, set_course, set_lat, set_long, set_satellite_count, set_speed,
}

-- The fields of `NavigationPositionVelocityTimeSolution` that are used; an `int32_t` is its 32-bit
-- pattern.
pub record NavPvt : Type 0 where
  pub year : ℕ
  pub month : ℕ
  pub day : ℕ
  pub hour : ℕ
  pub minute : ℕ
  pub seconds : ℕ
  pub valid : ℕ
  pub fix_type : ℕ
  pub flags : ℕ
  pub num_sv : ℕ
  pub lon : ℕ
  pub lat : ℕ
  pub h_msl : ℕ
  pub g_speed : ℕ
  pub heading : ℕ

-- `NavPvt->hMSL < 0 ? 0xFFFF : (uint16_t)(NavPvt->hMSL / 1000)`
abbrev pub altitude : ℕ → ℕ
altitude h_msl = if ltb h_msl (2 ^ 31) then h_msl / 1000 % 2 ^ 16 else 0xFFFF

-- `(NavPvt->gSpeed * 36) / 10000` in `int`, as a `uint16_t`
abbrev pub speed : ℕ → Option ℕ
speed g_speed =
    if ltb g_speed (2 ^ 31)
    then (if ltb (g_speed * 36) (2 ^ 31) then some (g_speed * 36 / 10000 % 2 ^ 16) else none)
    else (let size = (2 ^ 32 - g_speed) * 36 in
        if leb size (2 ^ 31) then some ((2 ^ 16 - size / 10000 % 2 ^ 16) % 2 ^ 16) else none)

abbrev pub max_rtc_epoch_offset : ℕ
max_rtc_epoch_offset = 25

-- The two libraries: what `getEpoch` returns after some seconds and an epoch before them, what it
-- returns after `setEpoch`, and `timer.adjust`.
pub record Rtc {ℓ} (Timer : Type ℓ) : Type ℓ where
  pub advance : ℕ → ℕ → ℕ
  pub set_epoch : ℕ → ℕ
  pub adjust : ℕ → ℕ → Timer → Timer

-- A time from which the clock runs for `k` seconds from 2000, where it begins, to 2038, before the
-- end of its range.
abbrev pub IsRtcTime : ℕ → ℕ → Type 0
IsRtcTime k epoch = (946684800 ≤ epoch) × (epoch + k < 2 ^ 31)

-- What the clock does in that range: it counts the seconds, and it takes the time that is set.
pub record IsRtc {ℓ} {Timer : Type ℓ} (rtc : Rtc Timer) : Type 0 where
  pub advances :
      (elapsed epoch : ℕ) → IsRtcTime elapsed epoch → rtc.advance elapsed epoch ≡ epoch + elapsed
  pub sets : (epoch : ℕ) → IsRtcTime 0 epoch → rtc.set_epoch epoch ≡ epoch

-- The state that a solution changes. `rtcEpochDelta` is there as the `uint32_t` to which its use
-- converts it.
pub record Tracking {ℓ} (Timer : Type ℓ) : Type ℓ where
  pub epoch : ℕ
  pub rtc_epoch_delta : ℕ
  pub is_rtc_initialized : Bool
  pub timer : Timer
  pub pending : Report.Buffer
  pub is_pending_new : Bool

-- The test of the fix: it is OK, and of three dimensions or with dead reckoning.
abbrev pub is_fix : NavPvt → Bool
is_fix v = v.flags % 2 == 1 && (v.fix_type == 3 || v.fix_type == 4)

-- The setters of the report.
unfoldable pub write_fix : NavPvt → Report.Buffer → Option Report.Buffer
write_fix v pending = do
  r ← set_altitude pending (altitude v.h_msl)
  r ← set_course r (v.heading % 2 ^ 8)
  r ← set_lat r v.lat
  r ← set_long r v.lon
  r ← set_satellite_count r v.num_sv
  kmh ← speed v.g_speed
  set_speed r kmh

module _ {ℓ} {Timer : Type ℓ} (rtc : Rtc Timer) where
  unfoldable pub set_now : ℕ → Tracking Timer → Tracking Timer
  set_now new_epoch s = record s {
    epoch = rtc.set_epoch new_epoch;
    rtc_epoch_delta = (new_epoch + 2 ^ 32 - s.epoch) % 2 ^ 32;
    is_rtc_initialized = true;
    timer = rtc.adjust s.epoch new_epoch s.timer;
  }

  -- The clock is set if it is more than 25 seconds off.
  unfoldable pub sync_clock : NavPvt → Tracking Timer → Option (Tracking Timer)
  unfolding set_now
  sync_clock v s =
      if v.valid % 4 == 3
      then (do
        epoch ← mktime v.year v.month v.day v.hour v.minute v.seconds
        some (
            if ltb max_rtc_epoch_offset ((s.epoch - epoch) + (epoch - s.epoch))
            then set_now epoch s
            else s))
      else some s

  unfoldable pub delegate_nav_pvt : NavPvt → Tracking Timer → Option (Tracking Timer)
  unfolding sync_clock
  delegate_nav_pvt v s = do
    t ← sync_clock v s
    if is_fix v
        then (do r ← write_fix v t.pending; some (record t { pending = r; is_pending_new = true }))
        else some t
