-- ===== src/Tests/Wan.antt =====
-- The node of nodes/SodaqWAN.
use docker_applications.Common.{
  ℕ, ◌≤◌, ◌≡◌, refl, true, false, some, [], ◌∷◌, replicate, ltb, if◌then◌else◌, length, Bool-cases,
  inl, inr, arith,
}
use docker_applications.Switch.{Switch}
use docker_applications.Tracker.Transmit.{busy, no_error, done}
use docker_applications.Tracker.Messages.Alive.{on_wire}
use docker_applications.Wan.Alive.{Alive, update, set_current_time, update-set_current_time}
use docker_applications.Wan.Movement.{Axes, Compass, lsm303_updates, lsm303_updates_lem}
use docker_applications.Wan.Hal.{Hal, Radio, send_message}
use docker_applications.Wan.Hal.Sending.{send_message_lem}
use docker_applications.Wan.Readings.{Instruments}
use docker_applications.Wan.Act.{Node, World, act_on_time, check_and_act}
use docker_applications.Wan.Act.Settled.{IsSettled}
use docker_applications.Wan.Act.AliveMessage.{readings, act_on_time_lem}
use docker_applications.Wan.Act.Total.{Room, check_and_act_ends}
use docker_applications.Tests.Encoder.{four_bytes, encodes}

abbrev minute : Alive
minute = record { alive_frequency_millis = 60000; previous_millis = 0; time_passed = false }

-- A minute after the time was set, the counter having wrapped.
update-set_current_time_example :
    update 59000 59001 (set_current_time 4294966296 minute)
    ≡ record minute { previous_millis = 59001; time_passed = true }
update-set_current_time_example =
    update-set_current_time minute 4294966296 60000 59001 (omega arith) (omega arith)

abbrev at_x : ℕ → Axes
at_x n = record { x = n; y = 32768; z = 32768 }

abbrev at_rest : Compass
at_rest = record { old = at_x 32768; delta = at_x 0; has_moved = false }

lsm303_updates_lem_example :
    (lsm303_updates (at_x 33400 ∷ at_x 34200 ∷ []) at_rest).has_moved ≡ true
lsm303_updates_lem_example = lsm303_updates_lem (at_x 33400 ∷ at_x 34200 ∷ []) at_rest

abbrev third : Radio
third = λ ack payload size i. if ltb i 2 then busy else no_error

abbrev ready : Hal
ready = record {
  compass = record at_rest { has_moved = true };
  is_hal_initialized = true;
  is_ack_active = false;
  num_tx_retries = 4;
}

send_message_lem_example :
    send_message third (1 ∷ 2 ∷ []) 2 ready ≡ done (record ready { num_tx_retries = 2 }, true)
send_message_lem_example = send_message_lem third (1 ∷ 2 ∷ []) 2 ready refl

abbrev opened : Switch
opened = record {
  counter = 0;
  reading = 1;
  current_state = 1;
  input_pin = some 6;
  switch_state = 0;
  switch_old_state = 0;
}

-- Everything is to be done.
abbrev node : Node
node = record { hal = ready; micro_switch = opened; alive = record minute { time_passed = true } }

abbrev instruments : Instruments
instruments = record {
  htu_is_valid = true;
  htu_temp = 215;
  htu_hum = 40;
  ltc_is_valid = false;
  ltc_voltage = 0;
  ltc_current = 0;
  ltc_charge = 0;
}

abbrev world : World
world = record {
  switch_buf = replicate 40 0xAA;
  move_buf = replicate 40 0xBB;
  alive_buf = replicate 40 0xCC;
  switch_millis = 70000;
  move_millis = 71000;
}

-- The message needs two retries, and then none are counted.
act_on_time_lem_example :
    act_on_time four_bytes third instruments world node
    ≡ done (record node { hal = record ready { num_tx_retries = 0 }; alive = minute })
act_on_time_lem_example =
    act_on_time_lem four_bytes encodes third instruments world node refl refl (omega arith)
      (omega arith)

alive_fits : (retries : ℕ) → length (on_wire four_bytes encodes (readings instruments retries)) ≤ 40
alive_fits retries = elim (Bool-cases (ltb 0 retries)) [
  | inl retried ↦ rw retried (omega arith)
  | inr once ↦ rw once (omega arith)
]

room : Room four_bytes encodes third instruments world node
room = record {
  switch_fits = omega arith;
  switch_small = omega arith;
  move_fits = omega arith;
  move_small = omega arith;
  alive_fits = alive_fits;
  alive_small = omega arith;
}

check_and_act_ends_example :
    (n' : Node) × (check_and_act four_bytes third instruments world node ≡ done n') × IsSettled n'
check_and_act_ends_example =
    check_and_act_ends four_bytes encodes third instruments world node room refl
