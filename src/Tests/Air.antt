-- ===== src/Tests/Air.antt =====
-- From the bus to the air, and from the air to the flash.
use docker_applications.Common.{
  ℕ, ◌≡◌, ◌++◌, refl, Bool, true, false, none, some, List, [], ◌∷◌, length, replicate, arith,
}
use docker_applications.Config.{read, get_alternative_fix_from, get_alternative_fix_to}
use docker_applications.Config.Store.{sealed_params}
use docker_applications.Record.Report.{Report, on_air}
use docker_applications.Ring.{push}
use docker_applications.Tracker.Acquire.{Round, Board, Device}
use docker_applications.Tracker.Acquire.Bus.{BusRound, decode}
use docker_applications.Tracker.Acquire.Position.{fix_of}
use docker_applications.Tracker.Acquire.Found.{waiting, solution_frame, solution_of, IsFound}
use docker_applications.Tracker.Acquire.Sent.{report_of, with_report_message}
use docker_applications.Tracker.Acquire.SwitchOn.{
  answers, get_gps_fix_and_transmit_on, get_gps_fix_and_transmit_on-sent,
}
use docker_applications.Tracker.GpsActive.{Gps}
use docker_applications.Tracker.NavPvt.{Tracking, sync_clock}
use docker_applications.Tracker.Schedule.{reset_rtc_timer_events}
use docker_applications.Tracker.Sending.Delivery.{Delivered}
use docker_applications.Tracker.Transmit.{
  LoRaBee, Sketch, done, transmit, on_success, with_counters,
}
use docker_applications.Tracker.Transmit.Received.{
  Settings, IsSettings, message_of, with_settings, counted, transmit-received,
}
use docker_applications.Ublox.Receiver.{nav_pvt, get_periodic}
use docker_applications.Ublox.Receiver.Collect.{collect}
use docker_applications.Ublox.Receiver.Solution.{get_periodic-send}
use docker_applications.Tests.Data.{
  flash_cell, erased, two_fixes, third_time, sketch, listening, rtc_zero, rtc_zero-IsRtc,
}
use docker_applications.Tests.Encoder.{four_bytes}

-- Every ten minutes from 8:00 to 9:30, every quarter of an hour else.
abbrev settings : Settings
settings = record { interval = 15; alternative = 10; from = 28800; to = 34200; timeout = 120 }

settings-IsSettings : IsSettings settings
settings-IsSettings = record {
  interval_in = omega arith;
  not_reserved = omega arith;
  alternative_in = omega arith;
  from_in = omega arith;
  to_in = omega arith;
  timeout_in = omega arith;
}

abbrev answering : LoRaBee
answering = record third_time {
  receive_buffer = message_of settings ++ (0 ∷ []);
  receive_buffer_size = 14;
}

transmit-received_example :
    (after : Sketch flash_cell) × (transmit flash_cell answering sketch ≡ done (after, true))
    × (after.config.params
        ≡ sealed_params (counted answering (with_settings settings sketch.config.params)))
    × (get_alternative_fix_from after.config.params ≡ 28800)
    × (get_alternative_fix_to after.config.params ≡ 34200)
    × (after.events
        ≡ some (reset_rtc_timer_events (with_settings settings sketch.config.params) true))
    × (read flash_cell (record (after.config) { params = erased }) ≡ after.config)
transmit-received_example =
    transmit-received flash_cell answering (λ p f. refl) 2 settings (0 ∷ []) sketch erased
      settings-IsSettings refl refl refl (omega arith) (omega arith) (refl, (refl, tt)) refl

-- The payload of a fix of 7 satellites, without a valid time, behind its first byte.
abbrev fix_payload : List ℕ
fix_payload =
    replicate 19 0 ++ (3 ∷ 1 ∷ 0 ∷ 7 ∷ 1 ∷ 2 ∷ 0 ∷ 0 ∷ 5 ∷ 6 ∷ 0 ∷ 0 ∷ []) ++ replicate 52 0

abbrev zero_report : Report
zero_report = record {
  timestamp = 0;
  battery_voltage = 0;
  board_temperature = 0;
  lat = 0;
  long = 0;
  altitude = 0;
  speed = 0;
  course = 0;
  satellite_count = 0;
  time_to_fix = 0;
}

abbrev pub ready : Device four_bytes flash_cell Bool
ready = record {
  tracking = record {
    epoch = 1000000000;
    rtc_epoch_delta = 0;
    is_rtc_initialized = true;
    timer = true;
    pending = on_air zero_report;
    is_pending_new = false;
  };
  ring = two_fixes;
  sketch = record sketch { send_buffer = replicate 128 0; send_buffer_size = 0 };
}

-- The clock runs on for 30 seconds.
abbrev at_fix : Tracking Bool
at_fix = record (ready.tracking) { epoch = 1000000030 }

abbrev board : Board
board = record { battery_voltage = 80; board_temperature = 21 }

abbrev fix_report : Report
fix_report = report_of (nav_pvt (0 ∷ fix_payload)) 0 1000000030 board 30

abbrev acknowledged : Sketch flash_cell → Sketch flash_cell
acknowledged s = record s { config = with_counters flash_cell third_time s.config }

fix-IsFound :
    IsFound rtc_zero
      (nav_pvt (0 ∷ fix_payload))
      0
      10
      (10 ∷ 10 ∷ [])
      zero_report
      ready.tracking
      at_fix
unfolding sync_clock nav_pvt
fix-IsFound = record {
  pending = refl;
  fix = refl;
  speed_is = refl;
  synced = refl;
  in_range = (omega arith, omega arith);
  dated = λ m valid made. absurd (cc);
}

fix-Delivered :
    Delivered flash_cell third_time 2
      (with_report_message four_bytes flash_cell fix_report ready.sketch)
      (acknowledged (with_report_message four_bytes flash_cell fix_report ready.sketch))
unfolding on_success
fix-Delivered = record {
  initialized = refl;
  small = omega arith;
  in_time = omega arith;
  fails = (refl, (refl, tt));
  hit = refl;
  harmless = refl;
  received = refl;
}

-- A receiver that is off, whose parser was left in the middle of a packet.
abbrev pub off : Gps (Tracking Bool)
off = record { enabled = false; parser = record listening { state_ = 5 }; func_nav_pvt = none }

-- The receiver acknowledges its configuration and refuses the rate. Two rounds of ten seconds
-- without a byte, and then the fix.
get_gps_fix_and_transmit_on-sent_example :
    get_gps_fix_and_transmit_on four_bytes flash_cell Bool rtc_zero third_time board
      (answers (replicate 20 3) 1 0)
      (replicate 20 0)
      (waiting
        (10 ∷ 10 ∷ [])
        (record { elapsed = 10; bytes = solution_frame (0 ∷ fix_payload) } ∷ []))
      off
      ready
    ≡ done (
      record {
        tracking = record at_fix { pending = on_air fix_report; is_pending_new = true };
        ring = push two_fixes (fix_of fix_report);
        sketch =
            record (acknowledged
              (with_report_message four_bytes flash_cell fix_report ready.sketch)) {
                num_tx_retries = 2;
              };
      },
      true,
    )
unfolding nav_pvt
get_gps_fix_and_transmit_on-sent_example =
    get_gps_fix_and_transmit_on-sent four_bytes flash_cell Bool rtc_zero rtc_zero-IsRtc third_time
      board 3 (replicate 19 3) (replicate 20 0) 1 0 10 0 fix_payload (10 ∷ 10 ∷ []) [] off 0 2
      zero_report ready at_fix
      (acknowledged (with_report_message four_bytes flash_cell fix_report ready.sketch)) refl refl
      refl refl refl refl (omega arith) (omega arith) (omega arith) fix-IsFound (omega arith)
      (omega arith) refl refl fix-Delivered

abbrev pub bus_rounds : List BusRound
bus_rounds =
    waiting (10 ∷ []) (record { elapsed = 10; bytes = solution_frame (0 ∷ fix_payload) } ∷ [])

abbrev pub solution_rounds : List Round
solution_rounds =
    record { elapsed = 10; bytes = 0; solutions = [] }
    ∷ record {
      elapsed = 10;
      bytes = length (solution_frame (0 ∷ fix_payload));
      solutions = solution_of listening (0 ∷ fix_payload) ∷ [];
    }
    ∷ []

pub decoded : decode bus_rounds listening ≡ some solution_rounds
unfolding get_periodic
decoded =
    rw (get_periodic-send collect listening 0 fix_payload [] refl refl (omega arith) (omega arith))
      refl
