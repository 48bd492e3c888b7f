-- ===== src/Sensor.antt =====
-- The readings that nodes/SodaqOneDevice/SodaqOneDevice.ino and nodes/SodaqWAN/Hal.cpp send, and how
-- their callbacks put one on a stream. The encoder, nanopb, is a library and a parameter.
pub mod Stream
use docker_applications.Common.{ℕ, ◌%◌, ◌^◌, Bool, true, false, not, List, if◌then◌else◌}

-- `SensorReading` of sensor.proto, less the values that no callback sets. Values are 32-bit
-- patterns.
pub record SensorReading : Type 0 where
  pub has_id : Bool
  pub id : ℕ
  pub has_error : Bool
  pub error : ℕ
  pub has_value1 : Bool
  pub value1 : ℕ

-- `SensorReading_init_zero`
abbrev pub init_zero : SensorReading
init_zero = record {
  has_id = false;
  id = 0;
  has_error = false;
  error = 0;
  has_value1 = false;
  value1 = 0;
}

-- What the code uses of nanopb: `pb_ostream_from_buffer`, the buffer and `bytes_written` of a stream,
-- `pb_encode` of a `NodeMessage` with the given callback, `pb_encode_tag_for_field` and
-- `pb_encode_submessage`. The last three return whether they succeeded.
pub record Nanopb : Type 1 where
  pub Stream : Type 0
  pub from_buffer : List ℕ → Stream
  pub buffer : Stream → List ℕ
  pub bytes_written : Stream → ℕ
  pub encode : (Stream → Bool × Stream) → Stream → Bool × Stream
  pub encode_tag_for_field : Stream → Bool × Stream
  pub encode_submessage : SensorReading → Stream → Bool × Stream

-- A reading of a device, or the error where the device is not valid.
abbrev pub value_or_error : Bool → ℕ → SensorReading → SensorReading
value_or_error true value msg = record msg { value1 = value; has_value1 = true }
value_or_error false value msg = record msg { error = 1; has_error = true }

abbrev pub with_id : ℕ → SensorReading
with_id n = record init_zero { id = n; has_id = true }

module _ (pb : Nanopb) where
  open pb use {Stream, encode_tag_for_field, encode_submessage}

  -- The end of every callback: the header of the field, and then the reading.
  unfoldable pub write_reading : SensorReading → Stream → Bool × Stream
  write_reading sensormsg stream =
      let (tagged, s) = encode_tag_for_field stream in
      if not tagged
      then (false, s)
      else (let (written, s') = encode_submessage sensormsg s in
          if not written then (false, s') else (true, s'))
