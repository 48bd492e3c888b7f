-- ===== src/Tracker/Messages.antt =====
-- The messages of nodes/SodaqOneDevice/SodaqOneDevice.ino that carry sensor readings. The encoder is
-- a parameter; what is printed is left out.
pub mod Alive
pub mod Single
use docker_applications.Common.{
  ℕ, zero, suc, ◌%◌, ◌^◌, Bool, true, false, List, ltb, ◌==◌, if◌then◌else◌,
}
use docker_applications.Sensor.{Nanopb}
use docker_applications.Tracker.SendBuffer.{SendBuffer}
use docker_applications.Tracker.Readings.{
  Devices, Callback, switch1sensor_callback, switch2sensor_callback, tempsensor_callback,
  humsensor_callback, voltsensor_callback, currentsensor_callback, chargesensor_callback,
  movesensor_callback, retriessensor_callback, powerlosssensor_callback,
}

module _ (pb : Nanopb) where
  open pb use {Stream, from_buffer, buffer, bytes_written, encode}

  -- A stream over `sendBuffer`, and `sendBufferSize`.
  abbrev pub Filling : Type 0
  Filling = Stream × ℕ

  -- One `pb_encode` of `updateAliveSendBuffer`: a failure leaves `sendBufferSize`.
  unfoldable pub add_reading : Callback pb → Filling → Filling
  add_reading callback (stream, size) =
      let (ok, s) = encode callback stream in (s, if ok then bytes_written s % 2 ^ 8 else size)

  unfoldable pub update_alive_send_buffer : Devices → ℕ → SendBuffer → SendBuffer
  unfolding add_reading
  update_alive_send_buffer d num_tx_retries b =
      let five = add_reading (chargesensor_callback pb d) (
        add_reading (currentsensor_callback pb d) (
          add_reading (voltsensor_callback pb d) (
            add_reading (humsensor_callback pb d)
              (add_reading (tempsensor_callback pb d) (from_buffer b.bytes, b.size))))) in
      let all =
        if ltb 0 num_tx_retries
        then add_reading (retriessensor_callback pb num_tx_retries) five
        else five in
      record { bytes = buffer all.0; size = all.1 }

  -- A message of one reading: whether it was encoded, and the buffer.
  unfoldable pub encode_single : Callback pb → SendBuffer → Bool × SendBuffer
  encode_single callback b =
      let (ok, s) = encode callback (from_buffer b.bytes) in
      (ok, record { bytes = buffer s; size = if ok then bytes_written s % 2 ^ 8 else b.size })

  unfoldable pub update_switch_send_buffer : ℕ → Devices → SendBuffer → Bool × SendBuffer
  unfolding encode_single
  update_switch_send_buffer switch_no d b =
      if switch_no == 1
      then encode_single (switch1sensor_callback pb d) b
      else if switch_no == 2
      then encode_single (switch2sensor_callback pb d) b
      else (false, b)

  unfoldable pub update_move_send_buffer : SendBuffer → Bool × SendBuffer
  unfolding encode_single
  update_move_send_buffer b = encode_single (movesensor_callback pb) b

  unfoldable pub update_powerloss_send_buffer : Devices → SendBuffer → Bool × SendBuffer
  unfolding encode_single
  update_powerloss_send_buffer d b = encode_single (powerlosssensor_callback pb d) b
