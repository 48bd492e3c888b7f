-- ===== src/Tracker/Messages/Alive.antt =====
-- The message that `updateAliveSendBuffer` builds.
use mathlib.Core.List.{foldl}
use docker_applications.Common.{
  ℕ, ◌+◌, ◌≤◌, ◌<◌, ◌≡◌, ap₂, List, [], ◌∷◌, ◌++◌, length, length-append, ltb, if◌then◌else◌,
  Bool-cases, inl, inr, arith,
}
use mathlib.Core.List.{append_assoc, append-nil}
use docker_applications.Common.Memory.{splice}
use docker_applications.Sensor.{SensorReading, Nanopb, write_reading, value_or_error, with_id}
use docker_applications.Sensor.Stream.{
  Encodes, reading_bytes, Holds, Holds-from_buffer, encode-Holds,
}
use docker_applications.Tracker.SendBuffer.{SendBuffer}
use docker_applications.Tracker.Readings.{
  Devices, with_value, tempsensor_callback, humsensor_callback, voltsensor_callback,
  currentsensor_callback, chargesensor_callback, retriessensor_callback,
}
use docker_applications.Tracker.Messages.{Filling, add_reading, update_alive_send_buffer}

abbrev temperature : Devices → SensorReading
temperature d = value_or_error d.htu_is_valid d.htu_temp (with_id 2)

-- Those behind the temperature, before the given ones.
abbrev further_readings : Devices → List SensorReading → List SensorReading
further_readings d rest =
    value_or_error d.htu_is_valid d.htu_hum (with_id 3)
    ∷ value_or_error d.ltc_is_valid d.ltc_voltage (with_id 4)
    ∷ value_or_error d.ltc_is_valid d.ltc_current (with_id 5)
    ∷ value_or_error d.ltc_is_valid d.ltc_charge (with_id 6)
    ∷ rest

-- The readings of an alive message, in order; the retries only if there were any.
abbrev pub alive_readings : Devices → ℕ → List SensorReading
alive_readings d num_tx_retries =
    temperature d
    ∷ further_readings d
        (if ltb 0 num_tx_retries then with_value (with_id 8) num_tx_retries ∷ [] else [])

module _ (pb : Nanopb) (enc : Encodes pb) where
  open pb use {Stream, from_buffer, buffer}

  -- Readings on the wire, one behind the other.
  abbrev pub on_wire : List SensorReading → List ℕ
  on_wire [] = []
  on_wire (r ∷ rs) = reading_bytes pb enc r ++ on_wire rs

  abbrev add_readings : List SensorReading → Filling pb → Filling pb
  add_readings rs f = foldl (λ g r. add_reading pb (write_reading pb r) g) f rs

  add_reading-Holds :
      (b bs : List ℕ) (r : SensorReading) (f : Filling pb)
      → Holds pb enc b bs f.0
      → length bs + length (reading_bytes pb enc r) ≤ length b
      → length b < 256
      → Holds pb enc b (bs ++ reading_bytes pb enc r) (add_reading pb (write_reading pb r) f).0
        × ((add_reading pb (write_reading pb r) f).1 ≡ length (bs ++ reading_bytes pb enc r))
  unfolding add_reading
  add_reading-Holds b bs r f h room small =
      let (ok, held) = encode-Holds pb enc b bs r f.0 h room in
      (held, rw ok (omega (arith, held.position, held.inside)))

  add_readings-Holds :
      (b bs : List ℕ) (rs : List SensorReading) (f : Filling pb)
      → Holds pb enc b bs f.0
      → f.1 ≡ length bs
      → length bs + length (on_wire rs) ≤ length b
      → length b < 256
      → Holds pb enc b (bs ++ on_wire rs) (add_readings rs f).0
        × ((add_readings rs f).1 ≡ length (bs ++ on_wire rs))
  add_readings-Holds b bs [] f h size room small = rw (append-nil bs) (h, size)
  add_readings-Holds b bs (r ∷ rs) f h size room small =
      let bytes = reading_bytes pb enc r in
      let longer = length-append bytes (on_wire rs) in
      let longer' = length-append bs bytes in
      let (held, counted) = add_reading-Holds b bs r f h (omega arith) small in
      rw (← append_assoc bs bytes (on_wire rs)) (
        add_readings-Holds b (bs ++ bytes) rs (add_reading pb (write_reading pb r) f) held counted
          (omega arith) small)

  -- The send buffer after a list of readings, put on a new stream over it.
  filled :
      (r : SensorReading) (rs : List SensorReading) (b : SendBuffer)
      → length (on_wire (r ∷ rs)) ≤ length b.bytes
      → length b.bytes < 256
      → (let f = add_readings (r ∷ rs) (from_buffer b.bytes, b.size) in
          let after : SendBuffer = record { bytes = buffer f.0; size = f.1 } in after)
        ≡ record { bytes = splice 0 (on_wire (r ∷ rs)) b.bytes; size = length (on_wire (r ∷ rs)) }
  filled r rs b room small =
      let bytes = reading_bytes pb enc r in
      let whole = length-append bytes (on_wire rs) in
      let (held, counted) =
        add_reading-Holds b.bytes [] r (from_buffer b.bytes, b.size)
          (Holds-from_buffer pb enc b.bytes) (omega arith) small in
      let (held', counted') =
        add_readings-Holds b.bytes bytes rs
          (add_reading pb (write_reading pb r) (from_buffer b.bytes, b.size)) held counted
          (omega arith) small in
      ap₂ (λ c n. let after : SendBuffer = record { bytes = c; size = n } in after) held'.content
        counted'

  -- With an encoder that does what its documentation says, if the readings fit the send buffer,
  -- which is shorter than 256 bytes, the message is the readings of all sensors on the wire:
  -- temperature, humidity, voltage, current, charge, and the retries if there were any, each an
  -- error where its device is not valid.
  pub update_alive_send_buffer_lem :
      (d : Devices) (num_tx_retries : ℕ) (b : SendBuffer)
      → length (on_wire (alive_readings d num_tx_retries)) ≤ length b.bytes
      → length b.bytes < 256
      → update_alive_send_buffer pb d num_tx_retries b ≡ record {
        bytes = splice 0 (on_wire (alive_readings d num_tx_retries)) b.bytes;
        size = length (on_wire (alive_readings d num_tx_retries));
      }
  unfolding update_alive_send_buffer tempsensor_callback humsensor_callback voltsensor_callback
      currentsensor_callback chargesensor_callback retriessensor_callback
  update_alive_send_buffer_lem d num_tx_retries b room small =
      elim (Bool-cases (ltb 0 num_tx_retries)) [
        | inl some_retries ↦ rw some_retries (
            filled (temperature d) (further_readings d (with_value (with_id 8) num_tx_retries ∷ []))
              b (rw some_retries at room) small)
        | inr no_retries ↦
            rw no_retries
              (filled (temperature d) (further_readings d []) b (rw no_retries at room) small)
      ]
