-- ===== src/Wan/Act.antt =====
-- `Hal::Update` and `Hal::CheckAndAct` of nodes/SodaqWAN/Hal.cpp, the body of the main loop. What
-- the stack held where a buffer is not initialised and what `millis()` returns are arguments. The
-- LoRa module and the encoder are parameters; what is printed is left out.
pub mod Settled
pub mod Messages
pub mod AliveMessage
pub mod Total
use docker_applications.Common.{
  ℕ, zero, suc, ◌%◌, ◌^◌, Bool, true, false, Option, none, some, List, ltb, if◌then◌else◌,
}
use docker_applications.Sensor.{Nanopb}
use docker_applications.Switch as Switch
use docker_applications.Switch.{Switch, read_state, is_changed}
use docker_applications.Tracker.Readings.{Callback}
use docker_applications.Tracker.Transmit.{Run, done, fault, out_of_fuel}
use docker_applications.Wan.Alive as Alive
use docker_applications.Wan.Alive.{Alive, set_current_time, reset_time_passed}
use docker_applications.Wan.Movement.{Axes, lsm303_update}
use docker_applications.Wan.Hal.{Hal, Radio, set_num_tx_retries, send_message}
use docker_applications.Wan.Readings.{
  Instruments, switchsensor_callback, tempsensor_callback, humsensor_callback, voltsensor_callback,
  currentsensor_callback, chargesensor_callback, movesensor_callback, retriessensor_callback,
}

-- `HalImpl`, `microSwitch` and `alive`
pub record Node : Type 0 where
  pub hal : Hal
  pub micro_switch : Switch
  pub alive : Alive

-- What the parts read in one round of `Update`: the pin of the switch, `millis()` and what a second
-- call of it returns, and the compass.
unfoldable pub update : ℕ → ℕ → ℕ → Axes → Node → Node
update level millis later axes n = record {
  hal = record (n.hal) { compass = lsm303_update axes n.hal.compass };
  micro_switch = Switch.update level n.micro_switch;
  alive = Alive.update millis later n.alive;
}

-- Of the three blocks of `CheckAndAct`: the buffer before it is written, and the time after a
-- message was sent.
pub record World : Type 0 where
  pub switch_buf : List ℕ
  pub move_buf : List ℕ
  pub alive_buf : List ℕ
  pub switch_millis : ℕ
  pub move_millis : ℕ

module _ {ℓ} {A B : Type ℓ} where
  abbrev pub and_then : Run A → (A → Run B) → Run B
  and_then (done a) f = f a
  and_then fault f = fault
  and_then out_of_fuel f = out_of_fuel

-- A block of `CheckAndAct`: if the condition holds, a message is sent and the node is as `after`
-- says of its result; otherwise it is `idle`.
abbrev pub send_if : Bool → Run (Hal × Bool) → (Hal × Bool → Node) → Node → Run Node
send_if true sent after idle = and_then sent (λ result. done (after result))
send_if false sent after idle = done idle

abbrev pub not_moved : Hal → Hal
not_moved h = record h { compass = record (h.compass) { has_moved = false } }

module _ (pb : Nanopb) where
  open pb use {Stream, from_buffer, buffer, bytes_written, encode}

  -- A stream, and `message_length`: `none` before it is assigned.
  abbrev pub Message : Type 0
  Message = Stream × Option ℕ

  unfoldable pub encode_reading : Callback pb → Message → Message
  encode_reading callback (stream, message_length) =
      let (ok, s) = encode callback stream in
      (s, if ok then some (bytes_written s) else message_length)

  -- `HalImpl.sendMessage(buf, message_length)`: the use of a length that was not assigned is
  -- undefined; one that was is converted to a `uint8_t`.
  unfoldable pub send : Radio → Message → Hal → Run (Hal × Bool)
  send radio (s, none) h = fault
  send radio (s, some message_length) h = send_message radio (buffer s) (message_length % 2 ^ 8) h

  unfoldable pub act_on_switch : Radio → World → Node → Run Node
  unfolding encode_reading send
  act_on_switch radio w n =
      let (changed, switch) = is_changed n.micro_switch in
      let after : Node = record n { micro_switch = switch } in
      let message =
        encode_reading (switchsensor_callback pb (read_state switch))
          (from_buffer w.switch_buf, none) in
      send_if changed (send radio message n.hal)
        (λ (hal, send_result). record after {
          hal = hal;
          alive = set_current_time w.switch_millis n.alive;
        })
        after

  unfoldable pub act_on_movement : Radio → World → Node → Run Node
  unfolding encode_reading send
  act_on_movement radio w n =
      let message = encode_reading (movesensor_callback pb) (from_buffer w.move_buf, none) in
      send_if n.hal.compass.has_moved (send radio message n.hal)
        (λ (hal, send_result). record n {
          hal = not_moved hal;
          alive = set_current_time w.move_millis n.alive;
        })
        n

  -- The alive message.
  unfoldable pub alive_message : Instruments → ℕ → List ℕ → Message
  unfolding encode_reading
  alive_message d num_tx_retries buf =
      let five = encode_reading (chargesensor_callback pb d) (
        encode_reading (currentsensor_callback pb d) (
          encode_reading (voltsensor_callback pb d) (
            encode_reading (humsensor_callback pb d)
              (encode_reading (tempsensor_callback pb d) (from_buffer buf, none))))) in
      if ltb 0 num_tx_retries
      then encode_reading (retriessensor_callback pb num_tx_retries) five
      else five

  unfoldable pub act_on_time : Radio → Instruments → World → Node → Run Node
  unfolding send alive_message
  act_on_time radio d w n =
      send_if n.alive.time_passed
        (send radio (alive_message d n.hal.num_tx_retries w.alive_buf) n.hal)
        (λ (hal, send_result). record n {
          hal = if send_result then set_num_tx_retries 0 hal else hal;
          alive = reset_time_passed n.alive;
        })
        n

  unfoldable pub check_and_act : Radio → Instruments → World → Node → Run Node
  unfolding act_on_switch act_on_movement act_on_time
  check_and_act radio d w n =
      and_then (act_on_switch radio w n)
        (λ n1. and_then (act_on_movement radio w n1) (λ n2. act_on_time radio d w n2))
