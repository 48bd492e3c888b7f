-- ===== src/Tests/Messages.antt =====
-- The messages with sensor readings, of both nodes.
use docker_applications.Common.{◌≡◌, refl, true, false, some, [], ◌∷◌, replicate, arith}
use docker_applications.Sensor.{with_id}
use docker_applications.Tracker.Readings.{Devices, with_value}
use docker_applications.Tracker.SendBuffer.{SendBuffer}
use docker_applications.Tracker.Schedule.{reset_rtc_timer_events}
use docker_applications.Tracker.Transmit.{done, Sketch, with_counters, on_success}
use docker_applications.Tracker.Sending.{get_switch_data_and_transmit, get_alive_data_and_transmit}
use docker_applications.Tracker.Sending.Delivery.{
  Delivered, with_one, with_alive, get_switch_data_and_transmit_lem,
  get_alive_data_and_transmit_lem,
}
use docker_applications.Tests.Data.{flash_cell, third_time, sketch}
use docker_applications.Tests.Encoder.{four_bytes, encodes}

abbrev devices : Devices
devices = record {
  htu_is_valid = true;
  htu_temp = 215;
  htu_hum = 40;
  ltc_is_valid = false;
  ltc_voltage = 0;
  ltc_current = 0;
  ltc_charge = 0;
  microswitch1 = 1;
  microswitch2 = 0;
}

-- A sketch whose last message needed 3 retries.
abbrev roomy : Sketch flash_cell
roomy = record sketch { send_buffer = replicate 40 0; send_buffer_size = 0; num_tx_retries = 3 }

abbrev pressed : Sketch flash_cell
pressed = with_one four_bytes encodes flash_cell third_time (with_value (with_id 1) 1) roomy

abbrev acknowledged : Sketch flash_cell → Sketch flash_cell
acknowledged s = record s { config = with_counters flash_cell third_time s.config }

received_nothing :
    (s : Sketch flash_cell) → on_success flash_cell third_time s ≡ done (acknowledged s)
unfolding on_success
received_nothing s = refl

-- The module sends at the third attempt.
at_third :
    (s : Sketch flash_cell)
    → s.config ≡ sketch.config
    → s.is_lora_initialized ≡ true
    → Delivered flash_cell third_time 2 s (acknowledged s)
at_third s same on = record {
  initialized = on;
  small = rw same (omega arith);
  in_time = rw same (omega arith);
  fails = (refl, (refl, tt));
  hit = refl;
  harmless = refl;
  received = received_nothing s;
}

-- A press of switch 1 is sent at the third attempt.
get_switch_data_and_transmit_lem_example :
    get_switch_data_and_transmit four_bytes flash_cell third_time 1 devices roomy
    ≡ done (record (acknowledged pressed) {
      num_tx_retries = 2;
      events = some (reset_rtc_timer_events (acknowledged pressed).config.params true);
    })
get_switch_data_and_transmit_lem_example =
    get_switch_data_and_transmit_lem four_bytes encodes flash_cell third_time 2 devices roomy
      (acknowledged pressed) (omega arith) (omega arith) (omega arith) (at_third pressed refl refl)

abbrev alive : Sketch flash_cell
alive = with_alive four_bytes encodes flash_cell third_time devices roomy

-- The alive message after it has six readings of five bytes, the last that of the 3 retries.
get_alive_data_and_transmit_lem_example :
    get_alive_data_and_transmit four_bytes flash_cell third_time devices roomy
    ≡ done (record (acknowledged alive) { num_tx_retries = 2 }, false)
get_alive_data_and_transmit_lem_example =
    get_alive_data_and_transmit_lem four_bytes encodes flash_cell third_time 2 devices roomy
      (acknowledged alive) (omega arith) (omega arith) (at_third alive refl refl)

alive_size : alive.send_buffer_size ≡ 30
alive_size = refl

-- A reading of five bytes in a buffer of four.
abbrev narrow : SendBuffer
narrow = record { bytes = 9 ∷ 9 ∷ 9 ∷ 9 ∷ []; size = 30 }
