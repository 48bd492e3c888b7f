-- ===== src/Tracker/Acquire.antt =====
-- `getGpsFixAndTransmit` and `getDataAndTransmit` of nodes/SodaqOneDevice/SodaqOneDevice.ino. What
-- the GPS receiver delivers in each round of the loop is a list of solutions, and the clock ticks
-- between the rounds; the battery and the temperature are arguments. Turning the GPS on is in
-- SwitchOn; the watchdog and what is printed are left out.
pub mod TimeOut
pub mod Position
pub mod Bus
pub mod FixReport
pub mod Found
pub mod Sent
pub mod SwitchOn
pub mod NoFunction
pub mod Ends
use docker_applications.Common.{
  ℕ, zero, suc, ◌+◌, ◌-◌, ◌%◌, ◌^◌, Bool, true, false, not, Option, none, some, ◌>>=◌, List, [],
  ◌∷◌, leb, ◌==◌, if◌then◌else◌,
}
use docker_applications.Config.{FlashStorage}
use docker_applications.Record.GpsFix
use docker_applications.Record.GpsFix.{GpsFixDataRecord}
use docker_applications.Record.Report
use docker_applications.Ring.{Ring, push, peek}
use docker_applications.Tracker.NavPvt.{Rtc, NavPvt, Tracking, delegate_nav_pvt}
use docker_applications.Sensor.{Nanopb}
use docker_applications.Tracker.Readings.{Devices}
use docker_applications.Tracker.Sending.{buffer_of, with_message, get_alive_data_and_transmit}
use docker_applications.Tracker.SendBuffer.{SendBuffer, update_gps_send_buffer}
use docker_applications.Tracker.Transmit.{LoRaBee, Run, done, fault, out_of_fuel, Sketch, transmit}

-- One round of the loop: the seconds since the round before, what `ublox.available()` returns, and
-- the solutions for which `ublox.GetPeriodic` calls the delegate.
pub record Round : Type 0 where
  pub elapsed : ℕ
  pub bytes : ℕ
  pub solutions : List NavPvt

module _ {ℓ} {Timer : Type ℓ} (rtc : Rtc Timer) where
  unfoldable pub deliver : List NavPvt → Tracking Timer → Option (Tracking Timer)
  deliver [] s = some s
  deliver (v ∷ vs) s = delegate_nav_pvt rtc v s >>= λ t. deliver vs t

  abbrev pub tick : ℕ → Tracking Timer → Tracking Timer
  tick elapsed s = record s { epoch = rtc.advance elapsed s.epoch }

  -- `rtcEpochDelta = 0; isPendingReportDataRecordNew = false;`
  abbrev pub cleared : Tracking Timer → Tracking Timer
  cleared s = record s { rtc_epoch_delta = 0; is_pending_new = false }

  -- The rest of a round, once the delegate was called: `again` are the rounds that follow.
  abbrev pub delivered :
      ℕ
      → (ℕ → Tracking Timer → Run (Bool × ℕ × Tracking Timer))
      → Option (Tracking Timer)
      → Run (Bool × ℕ × Tracking Timer)
  delivered start again none = fault
  delivered start again (some t) =
      let start' = (start + t.rtc_epoch_delta) % 2 ^ 32 in
      if t.is_pending_new then done (true, start', t) else again start' t

  -- The loop: `isSuccessful` and `startTime` after it. It ends early on a new report.
  unfoldable pub acquire : ℕ → List Round → ℕ → Tracking Timer → Run (Bool × ℕ × Tracking Timer)
  unfolding deliver
  acquire timeout [] start s = out_of_fuel
  acquire timeout (r ∷ rs) start s =
      let now = tick r.elapsed s in
      if not (leb ((now.epoch + 2 ^ 32 - start) % 2 ^ 32) timeout)
      then done (false, start, now)
      else if r.bytes == 0
      then acquire timeout rs start now
      else delivered start (λ start' t. acquire timeout rs start' t)
          (deliver r.solutions (cleared now))

-- The battery voltage and the temperature of the board.
pub record Board : Type 0 where
  pub battery_voltage : ℕ
  pub board_temperature : ℕ

-- After a fix: the time that it took, and the position in the ring.
unfoldable pub store_fix : ℕ → Report.Buffer → Ring → Option (Report.Buffer × Ring)
store_fix start pending ring = do
  now ← Report.get_timestamp pending
  pending ← Report.set_time_to_fix pending ((now + 2 ^ 32 - start) % 2 ^ 32 % 2 ^ 8)
  lat ← Report.get_lat pending
  long ← Report.get_long pending
  let empty = GpsFix.init (record { buffer = []; timestamp = 0 })
  fix ← GpsFix.set_lat empty lat
  fix ← GpsFix.set_long fix long
  some (pending, push ring (GpsFix.set_timestamp fix now))

-- What `record` holds after `peek` was given it.
abbrev pub found_or : GpsFixDataRecord → Option GpsFixDataRecord → GpsFixDataRecord
found_or before none = before
found_or before (some value) = value

-- After a time-out: the position of the last fix, or 0, 0.
unfoldable pub recall_fix : Report.Buffer → Ring → Option Report.Buffer
recall_fix pending ring = do
  pending ← Report.set_time_to_fix pending 0xFF
  peeked ← peek ring 0
  let empty = GpsFix.init (record { buffer = []; timestamp = 0 })
  let fix = found_or empty peeked.1
  lat ← GpsFix.get_lat fix
  long ← GpsFix.get_long fix
  pending ← Report.set_lat pending lat
  Report.set_long pending long

-- The three setters after the loop.
unfoldable pub stamp : ℕ → Board → Report.Buffer → Option Report.Buffer
stamp now board pending = do
  pending ← Report.set_timestamp pending now
  pending ← Report.set_battery_voltage pending board.battery_voltage
  Report.set_board_temperature pending board.board_temperature

-- The report and the ring after the loop.
unfoldable pub finish_report :
    Bool → ℕ → ℕ → Board → Report.Buffer → Ring → Option (Report.Buffer × Ring)
unfolding stamp store_fix recall_fix
finish_report is_successful start now board pending ring = do
  pending ← stamp now board pending
  if is_successful
      then store_fix start pending ring
      else (do pending ← recall_fix pending ring; some (pending, ring))

module _ (pb : Nanopb) (fs : FlashStorage) where
  -- `updateGpsSendBuffer(); transmit();`
  unfoldable pub send_report : LoRaBee → Report.Buffer → Ring → Sketch fs → Run (Sketch fs × Bool)
  send_report lora pending ring s =
      elim (update_gps_send_buffer ring pending s.config.params.coordinate_upload_count
        (buffer_of pb fs s)) [ none ↦ fault | some b ↦ transmit fs lora (with_message pb fs s b) ]

module _ (pb : Nanopb) (fs : FlashStorage) (Timer : Type 0) where
  pub record Device : Type 0 where
    pub tracking : Tracking Timer
    pub ring : Ring
    pub sketch : Sketch fs

  abbrev pub concluded : Bool → Tracking Timer → Ring → Run (Sketch fs × Bool) → Run (Device × Bool)
  concluded is_successful t ring (done (s, sent)) =
      done (record { tracking = t; ring = ring; sketch = s }, is_successful)
  concluded is_successful t ring fault = fault
  concluded is_successful t ring out_of_fuel = out_of_fuel

  -- What follows the loop.
  unfoldable pub conclude :
      LoRaBee → Board → Device → Run (Bool × ℕ × Tracking Timer) → Run (Device × Bool)
  unfolding send_report finish_report
  conclude lora board dev fault = fault
  conclude lora board dev out_of_fuel = out_of_fuel
  conclude lora board dev (done (is_successful, start, t)) =
      elim (finish_report is_successful start t.epoch board t.pending dev.ring) [
        | none ↦ fault
        | some (pending, ring) ↦
            concluded is_successful (record t { pending = pending }) ring
              (send_report pb fs lora pending ring dev.sketch)
      ]

  unfoldable pub get_gps_fix_and_transmit :
      Rtc Timer → LoRaBee → Board → List Round → Device → Run (Device × Bool)
  unfolding acquire conclude
  get_gps_fix_and_transmit rtc lora board rounds dev =
      conclude lora board dev (
        acquire rtc dev.sketch.config.params.gps_fix_timeout rounds dev.tracking.epoch dev.tracking)

  abbrev pub with_sketch : Device → Run (Sketch fs × Bool) → Run (Device × Bool)
  with_sketch dev (done (s, ok)) = done (record dev { sketch = s }, ok)
  with_sketch dev fault = fault
  with_sketch dev out_of_fuel = out_of_fuel

  abbrev pub state_of : Run (Device × Bool) → Run Device
  state_of (done (dev, ok)) = done dev
  state_of fault = fault
  state_of out_of_fuel = out_of_fuel

  -- The function has no `return`: what it returns is undefined, and not in the model.
  unfoldable pub get_data_and_transmit :
      Rtc Timer → LoRaBee → Board → List Round → Devices → Device → Run Device
  unfolding get_gps_fix_and_transmit
  get_data_and_transmit rtc lora board rounds d dev = state_of (
      if not (dev.sketch.config.params.is_gps_enabled == 0)
      then get_gps_fix_and_transmit rtc lora board rounds dev
      else with_sketch dev (get_alive_data_and_transmit pb fs lora d dev.sketch))
