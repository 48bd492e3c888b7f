-- ===== src/Tracker/Acquire/Sent.antt =====
-- A fix, from the bytes on the bus of the GPS receiver to the message that the LoRa module sends.
use docker_applications.Common.{
  ℕ, ◌+◌, ◌%◌, ◌^◌, ◌≤◌, ◌<◌, ◌≡◌, refl, ap, ◌∙◌, true, ◌||◌, some, List, ◌∷◌, length, ◌==◌, arith,
}
use docker_applications.Common.Memory.{splice}
use docker_applications.Config.{FlashStorage}
use docker_applications.Sensor.{Nanopb}
use docker_applications.Ring.{Ring, push}
use docker_applications.Tracker.Acquire.{Board, Device, finish_report, send_report, conclude}
use docker_applications.Tracker.Acquire.Position.{fix_of}
use docker_applications.Tracker.SendBuffer.{update_gps_send_buffer}
use docker_applications.Tracker.SendBuffer.Message.{report_alone}
use docker_applications.Tracker.Sending.Delivery.{Delivered, transmit-Delivered}
use docker_applications.Tracker.Sending.{buffer_of, with_message}
use docker_applications.Tracker.Acquire.Bus.{BusRound, delegate, get_gps_fix_and_transmit_bus}
use docker_applications.Tracker.Acquire.FixReport.{with_fix, finish_report-on_air}
use docker_applications.Tracker.NavPvt.{Rtc, IsRtc, NavPvt, Tracking, altitude}
use docker_applications.Tracker.Transmit.{LoRaBee, done, Sketch}
use docker_applications.Record.Report.{Report, on_air}
use docker_applications.Ublox.{UBlox}
use docker_applications.Tracker.Acquire.Found.{
  waiting, total, solution_frame, solution_of, IsFound, found_clock, search_finds,
}

known_small : (n : ℕ) → (n == 84 || n == 92) ≡ true → n < 65536
known_small n h = ground arith

-- The report that is sent: the values of the solution, the clock after it, and how long the search
-- took.
abbrev pub report_of : NavPvt → ℕ → ℕ → Board → ℕ → Report
report_of v kmh now board seconds = record {
  timestamp = now;
  battery_voltage = board.battery_voltage;
  board_temperature = board.board_temperature;
  lat = v.lat;
  long = v.lon;
  altitude = altitude v.h_msl;
  speed = kmh;
  course = v.heading % 2 ^ 8;
  satellite_count = v.num_sv;
  time_to_fix = seconds % 2 ^ 8;
}

module _ (pb : Nanopb) (fs : FlashStorage) where
  -- The sketch with a report as its message.
  abbrev pub with_report_message : Report → Sketch fs → Sketch fs
  with_report_message r s =
      with_message pb fs s (record { bytes = splice 0 (on_air r) s.send_buffer; size = 21 })

  report_is_sent :
      (lora : LoRaBee) (k : ℕ) (r : Report) (ring : Ring) (s after : Sketch fs)
      → s.config.params.coordinate_upload_count ≡ 1
      → length s.send_buffer ≡ 128
      → Delivered fs lora k (with_report_message r s) after
      → send_report pb fs lora (on_air r) ring s ≡ done (record after { num_tx_retries = k }, true)
  unfolding send_report
  report_is_sent lora k r ring s after one room sent =
      rw
        (
          send_report,
          ap (λ n. update_gps_send_buffer ring (on_air r) n (buffer_of pb fs s)) one
              ∙ report_alone ring (on_air r) (buffer_of pb fs s) refl room,
        )
        (transmit-Delivered fs lora k (with_report_message r s) after sent)

module _ (pb : Nanopb) (fs : FlashStorage) (Timer : Type 0) where
  conclude-done :
      (lora : LoRaBee) (board : Board) (dev : Device pb fs Timer) (start : ℕ) (t : Tracking Timer)
      → (pending : List ℕ) (ring : Ring) (s' : Sketch fs)
      → finish_report true start t.epoch board t.pending dev.ring ≡ some (pending, ring)
      → send_report pb fs lora pending ring dev.sketch ≡ done (s', true)
      → conclude pb fs Timer lora board dev (done (true, start, t))
        ≡ done
            (record { tracking = record t { pending = pending }; ring = ring; sketch = s' }, true)
  unfolding conclude
  conclude-done lora board dev start t pending ring s' finishes sends =
      rw (conclude, finishes) (rw sends refl)

module _ (pb : Nanopb) (fs : FlashStorage) (Timer : Type 0) (rtc : Rtc Timer)
    (law : IsRtc rtc) where
  -- From the bus to the air. A solution with a fix that is framed as `send` does, whose payload has
  -- the length that one of the two receivers sends and fits the buffer, and which a parser in state 0
  -- reads after rounds without a byte, within the time-out, with a clock that works from 2000 to 2038
  -- and times in that range: the search ends with it, whether or not it sets the clock. With one coordinate to upload and a message that the module delivers at attempt `k`,
  -- the message is the report of the solution's values, with the clock after it, and the seconds
  -- of the search modulo 256; the ring gets its position, and the function returns true.
  pub get_gps_fix_and_transmit_bus-sent :
      (lora : LoRaBee) (board : Board) (e c : ℕ) (cs ws : List ℕ) (more : List BusRound)
      → (u : UBlox) (kmh k : ℕ) (p : Report) (dev : Device pb fs Timer) (t : Tracking Timer)
      → (after : Sketch fs) → u.state_ ≡ 0
      → (length (c ∷ cs) == 84 || length (c ∷ cs) == 92) ≡ true
      → length (c ∷ cs) ≤ length u.payload_buffer
      → total ws + e ≤ dev.sketch.config.params.gps_fix_timeout
      → dev.sketch.config.params.gps_fix_timeout < 2 ^ 16
      → IsFound rtc (solution_of u (c ∷ cs)) kmh e ws p dev.tracking t
      → (solution_of u (c ∷ cs)).lat < 2 ^ 32
      → (solution_of u (c ∷ cs)).lon < 2 ^ 32
      → dev.sketch.config.params.coordinate_upload_count ≡ 1
      → length dev.sketch.send_buffer ≡ 128
      → Delivered fs lora k
          (with_report_message pb fs
            (report_of (solution_of u (c ∷ cs)) kmh t.epoch board (total ws + e))
            dev.sketch)
          after
      → get_gps_fix_and_transmit_bus pb fs Timer rtc lora board
          (some (delegate rtc))
          (waiting ws (record { elapsed = e; bytes = solution_frame (c ∷ cs) } ∷ more))
          u
          dev
        ≡ (let r = report_of (solution_of u (c ∷ cs)) kmh t.epoch board (total ws + e) in
            done (
              record {
                tracking = record t { pending = on_air r; is_pending_new = true };
                ring = push dev.ring (fix_of r);
                sketch = record after { num_tx_retries = k };
              },
              true,
            ))
  unfolding get_gps_fix_and_transmit_bus conclude
  get_gps_fix_and_transmit_bus-sent lora board e c cs ws more u kmh k p dev t after idle known fits
        in_time short found lat_small lon_small one room sent =
      let v = solution_of u (c ∷ cs) in
      let clock = found_clock rtc law v kmh e ws p dev.tracking t found in
      let r = report_of v kmh t.epoch board (total ws + e) in
      let finished =
        finish_report-on_air ((dev.tracking.epoch + t.rtc_epoch_delta) % 2 ^ 32) t.epoch board
          (with_fix v kmh p) dev.ring clock.1 lat_small lon_small
        ∙ ap (λ n. some (on_air (report_of v kmh t.epoch board n), push dev.ring (fix_of r)))
            clock.0 in
      ap (λ x. conclude pb fs Timer lora board dev x)
        (search_finds rtc law dev.sketch.config.params.gps_fix_timeout e c cs ws more u kmh p
          dev.tracking t idle known fits (known_small (length (c ∷ cs)) known) in_time (omega arith)
          found)
      ∙ conclude-done pb fs Timer lora board dev ((dev.tracking.epoch + t.rtc_epoch_delta) % 2 ^ 32)
          (record t { pending = on_air (with_fix v kmh p); is_pending_new = true }) (on_air r)
          (push dev.ring (fix_of r)) (record after { num_tx_retries = k }) finished
          (report_is_sent pb fs lora k r (push dev.ring (fix_of r)) dev.sketch after one room sent)
