-- ===== src/Tracker/Acquire/SwitchOn.antt =====
-- `getGpsFixAndTransmit` from `setGpsActive(true)` on. `setGpsActive(false)`, after the loop, clears
-- the pin and the state of the parser, which the next `setGpsActive(true)` sets in any case: the
-- result has the rest of the device.
use docker_applications.Common.{
  ℕ, ◌+◌, ◌*◌, ◌≤◌, ◌<◌, ◌^◌, ◌≡◌, subst, true, ◌||◌, none, some, List, ◌∷◌, length, ◌==◌, Bool,
  arith, Option,
}
use docker_applications.Config.{FlashStorage}
use docker_applications.Sensor.{Nanopb}
use docker_applications.Ring.{push}
use docker_applications.Record.Report.{Report, on_air}
use docker_applications.Tracker.Acquire.{Board, Device}
use docker_applications.Tracker.Acquire.Bus.{BusRound, delegate, get_gps_fix_and_transmit_bus}
use docker_applications.Tracker.Acquire.Position.{fix_of}
use docker_applications.Tracker.Acquire.Found.{waiting, total, solution_frame, IsFound}
use docker_applications.Tracker.Acquire.Sent.{
  with_report_message, report_of, get_gps_fix_and_transmit_bus-sent,
}
use docker_applications.Tracker.GpsActive.{Gps, Replies, set_gps_active}
use docker_applications.Tracker.GpsActive.Configured.{ack_frame, set_gps_active-configures}
use docker_applications.Tracker.NavPvt.{Rtc, IsRtc, NavPvt, Tracking}
use docker_applications.Tracker.Sending.Delivery.{Delivered}
use docker_applications.Tracker.Transmit.{LoRaBee, Run, done, fault, Sketch}
use docker_applications.Ublox.{is_ack, send}
use docker_applications.Ublox.Receiver.{nav_pvt}
use docker_applications.Ublox.Receiver.Payload.{nav_pvt-splice}

module _ (pb : Nanopb) (fs : FlashStorage) (Timer : Type 0) where
  abbrev pub search_on :
      Rtc Timer
      → LoRaBee
      → Board
      → List BusRound
      → Device pb fs Timer
      → Option (List (List ℕ) × Gps (Tracking Timer) × Tracking Timer)
      → Run (Device pb fs Timer × Bool)
  search_on rtc lora board rounds dev none = fault
  search_on rtc lora board rounds dev (some (sent, g, t)) =
      get_gps_fix_and_transmit_bus pb fs Timer rtc lora board g.func_nav_pvt rounds g.parser
        (record dev { tracking = t })

  unfoldable pub get_gps_fix_and_transmit_on :
      Rtc Timer
      → LoRaBee
      → Board
      → Replies
      → List ℕ
      → List BusRound
      → Gps (Tracking Timer)
      → Device pb fs Timer
      → Run (Device pb fs Timer × Bool)
  unfolding get_gps_fix_and_transmit_bus set_gps_active
  get_gps_fix_and_transmit_on rtc lora board replies pcd rounds g dev =
      search_on rtc lora board rounds dev
        (set_gps_active (delegate rtc) replies pcd true g dev.tracking)

known_long : (n : ℕ) → (n == 84 || n == 92) ≡ true → 68 ≤ n
known_long n h = ground arith

-- What the receiver answers to the three messages: its port configuration, and twice an
-- acknowledgment (1) or a refusal (0).
abbrev pub answers : List ℕ → ℕ → ℕ → Replies
answers configuration id id' = record {
  to_question = send (6 ∷ 0 ∷ 20 ∷ 0 ∷ configuration);
  to_port = ack_frame id 6 0;
  to_rate = ack_frame id' 6 1;
}

module _ (pb : Nanopb) (fs : FlashStorage) (Timer : Type 0) (rtc : Rtc Timer)
    (law : IsRtc rtc) where
  -- The device once the report of a solution is delivered.
  abbrev pub delivered_fix :
      Board
      → ℕ
      → ℕ
      → ℕ
      → Device pb fs Timer
      → Tracking Timer
      → Sketch fs
      → NavPvt
      → Device pb fs Timer
  delivered_fix board kmh k seconds dev t after v =
      let r = report_of v kmh t.epoch board seconds in
      record {
        tracking = record t { pending = on_air r; is_pending_new = true };
        ring = push dev.ring (fix_of r);
        sketch = record after { num_tx_retries = k };
      }

  -- From switching on the receiver to the air, whatever its parser holds and in whatever state it was
  -- left. The receiver answers the question with a port configuration of 20 bytes and the
  -- two messages with an acknowledgment or a refusal. After rounds without a byte, within the
  -- time-out, it sends a solution with a fix, of the length that one of the two receivers sends, which
  -- fits the buffer; all is framed as `send` does. The clock works from 2000 to 2038 and is there for
  -- the search, as is the time of the solution, if it has one. Then the search ends with it, whether
  -- or not it sets the clock. With one coordinate to upload and a message that the module delivers at attempt `k`, the
  -- message is the report of the solution's values, with the clock after it, and the seconds of the
  -- search modulo 256; the ring gets its position, and the function returns true.
  pub get_gps_fix_and_transmit_on-sent :
      (lora : LoRaBee) (board : Board) (a : ℕ) (bs pcd : List ℕ) (id id' : ℕ)
      → (e c : ℕ) (cs ws : List ℕ) (more : List BusRound) (g : Gps (Tracking Timer))
      → (kmh k : ℕ) (p : Report) (dev : Device pb fs Timer) (t : Tracking Timer)
      → (after : Sketch fs) → length g.parser.acked_id ≡ 2
      → length (a ∷ bs) ≡ 20
      → length pcd ≡ 20
      → is_ack (5 * 256 + id) ≡ true
      → is_ack (5 * 256 + id') ≡ true
      → (length (c ∷ cs) == 84 || length (c ∷ cs) == 92) ≡ true
      → length (c ∷ cs) ≤ length g.parser.payload_buffer
      → total ws + e ≤ dev.sketch.config.params.gps_fix_timeout
      → dev.sketch.config.params.gps_fix_timeout < 2 ^ 16
      → IsFound rtc (nav_pvt (c ∷ cs)) kmh e ws p dev.tracking t
      → (nav_pvt (c ∷ cs)).lat < 2 ^ 32
      → (nav_pvt (c ∷ cs)).lon < 2 ^ 32
      → dev.sketch.config.params.coordinate_upload_count ≡ 1
      → length dev.sketch.send_buffer ≡ 128
      → Delivered fs lora k
          (with_report_message pb fs
            (report_of (nav_pvt (c ∷ cs)) kmh t.epoch board (total ws + e))
            dev.sketch)
          after
      → get_gps_fix_and_transmit_on pb fs Timer rtc lora board
          (answers (a ∷ bs) id id')
          pcd
          (waiting ws (record { elapsed = e; bytes = solution_frame (c ∷ cs) } ∷ more))
          g
          dev
        ≡ done (delivered_fix board kmh k (total ws + e) dev t after (nav_pvt (c ∷ cs)), true)
  unfolding get_gps_fix_and_transmit_on
  get_gps_fix_and_transmit_on-sent lora board a bs pcd id id' e c cs ws more g kmh k p dev t after
        two size size' ack ack' known fits in_time short found lat_small lon_small one room sent =
      let payload : List ℕ = c ∷ cs in
      let long = known_long (length payload) known in
      let (v, configures, ready, same) =
        set_gps_active-configures (delegate rtc) g a bs pcd dev.tracking id id'
          (omega (arith, long, fits)) two size size' ack ack' in
      let fits' : length payload ≤ length v.payload_buffer = omega (arith, same) in
      rw configures (
        subst
          (λ sol.
            IsFound rtc sol kmh e ws p dev.tracking t
            → sol.lat < 2 ^ 32
            → sol.lon < 2 ^ 32
            → Delivered fs lora k
                (with_report_message pb fs (report_of sol kmh t.epoch board (total ws + e))
                  dev.sketch)
                after
            → get_gps_fix_and_transmit_bus pb fs Timer rtc lora board (some (delegate rtc))
                (waiting ws (record { elapsed = e; bytes = solution_frame payload } ∷ more)) v dev
              ≡ done (delivered_fix board kmh k (total ws + e) dev t after sol, true))
          (nav_pvt-splice payload v.payload_buffer fits' long)
          (λ x y z w.
            get_gps_fix_and_transmit_bus-sent pb fs Timer rtc law lora board e c cs ws more v kmh k
              p dev t after ready.idle known fits' in_time short x y z one room w)
          found lat_small lon_small sent)
