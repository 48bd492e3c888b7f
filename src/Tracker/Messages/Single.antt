-- ===== src/Tracker/Messages/Single.antt =====
-- The messages of one reading: `updateSwitchSendBuffer`, `updateMoveSendBuffer` and
-- `updatePowerlossSendBuffer`.
use docker_applications.Common.{
  ℕ, ◌≤◌, ◌<◌, ◌≡◌, refl, ap₂, true, false, not, [], length, arith, ◌==◌, if◌then◌else◌,
}
use docker_applications.Common.Memory.{splice}
use docker_applications.Sensor.{SensorReading, Nanopb, write_reading, with_id}
use docker_applications.Sensor.Stream.{
  Encodes, reading_bytes, Holds-from_buffer, encode-Holds, encode_full,
}
use docker_applications.Tracker.SendBuffer.{SendBuffer}
use docker_applications.Tracker.Readings.{
  Devices, with_value, switch1sensor_callback, switch2sensor_callback, movesensor_callback,
  powerlosssensor_callback,
}
use docker_applications.Tracker.Messages.{
  encode_single, update_switch_send_buffer, update_move_send_buffer, update_powerloss_send_buffer,
}

module _ (pb : Nanopb) (enc : Encodes pb) where
  -- The send buffer with one reading in it.
  abbrev pub with_reading : SensorReading → SendBuffer → SendBuffer
  with_reading r b = record {
    bytes = splice 0 (reading_bytes pb enc r) b.bytes;
    size = length (reading_bytes pb enc r);
  }

  -- A reading that fits the send buffer makes the whole message.
  pub encode_single_lem :
      (r : SensorReading) (b : SendBuffer)
      → length (reading_bytes pb enc r) ≤ length b.bytes
      → length b.bytes < 256
      → encode_single pb (write_reading pb r) b ≡ (true, with_reading r b)
  unfolding encode_single
  encode_single_lem r b room small =
      let (ok, held) =
        encode-Holds pb enc b.bytes [] r (pb.from_buffer b.bytes) (Holds-from_buffer pb enc b.bytes)
          (omega arith) in
      rw ok (
        ap₂ (λ c n. let after : SendBuffer = record { bytes = c; size = n } in (true, after))
          held.content (omega (arith, held.position, held.inside)))

  -- With an encoder that does what its documentation says, a reading that does not fit the send
  -- buffer is an error, and the size of the message before stays.
  pub encode_single_full :
      (r : SensorReading) (b : SendBuffer)
      → length b.bytes < length (reading_bytes pb enc r)
      → ((encode_single pb (write_reading pb r) b).0 ≡ false)
        × ((encode_single pb (write_reading pb r) b).1.size ≡ b.size)
  unfolding encode_single
  encode_single_full r b over =
      rw
        (encode_full pb enc b.bytes [] r (pb.from_buffer b.bytes) (Holds-from_buffer pb enc b.bytes)
          (omega arith))
        (refl, refl)

  -- With an encoder that does what its documentation says and readings that fit the send buffer,
  -- which is shorter than 256 bytes, the message of switch 1 is its pin with the id 1, that of
  -- switch 2 its pin with the id 9, and for any other number there is none: the buffer stays.
  pub update_switch_send_buffer_lem :
      (switch_no : ℕ) (d : Devices) (b : SendBuffer)
      → length (reading_bytes pb enc (with_value (with_id 1) d.microswitch1)) ≤ length b.bytes
      → length (reading_bytes pb enc (with_value (with_id 9) d.microswitch2)) ≤ length b.bytes
      → length b.bytes < 256
      → update_switch_send_buffer pb switch_no d b ≡ (
          if switch_no == 1
          then (true, with_reading (with_value (with_id 1) d.microswitch1) b)
          else if switch_no == 2
          then (true, with_reading (with_value (with_id 9) d.microswitch2) b)
          else (false, b))
  unfolding update_switch_send_buffer switch1sensor_callback switch2sensor_callback
  update_switch_send_buffer_lem switch_no d b room1 room2 small =
      rw
        (
          encode_single_lem (with_value (with_id 1) d.microswitch1) b room1 small,
          encode_single_lem (with_value (with_id 9) d.microswitch2) b room2 small,
        )
        refl

  pub update_move_send_buffer_lem :
      (b : SendBuffer)
      → length (reading_bytes pb enc (with_value (with_id 7) 1)) ≤ length b.bytes
      → length b.bytes < 256
      → update_move_send_buffer pb b ≡ (true, with_reading (with_value (with_id 7) 1) b)
  unfolding update_move_send_buffer movesensor_callback
  update_move_send_buffer_lem b room small = encode_single_lem _ b room small

  -- The value is 1 while the gauge of the battery does not answer, and 0 when it answers again.
  pub update_powerloss_send_buffer_lem :
      (d : Devices) (b : SendBuffer)
      → length
          (reading_bytes pb enc (with_value (with_id 10) (if not d.ltc_is_valid then 1 else 0)))
        ≤ length b.bytes
      → length b.bytes < 256
      → update_powerloss_send_buffer pb d b
        ≡ (true, with_reading (with_value (with_id 10) (if not d.ltc_is_valid then 1 else 0)) b)
  unfolding update_powerloss_send_buffer powerlosssensor_callback
  update_powerloss_send_buffer_lem d b room small = encode_single_lem _ b room small
