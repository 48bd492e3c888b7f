-- ===== src/Tracker/Readings.antt =====
-- The sensor callbacks of nodes/SodaqOneDevice/SodaqOneDevice.ino: which reading each puts on the
-- stream. What the drivers of the sensors return is an argument: of a floating-point value, the
-- integer to which the callback converts it, as a 32-bit pattern.
use docker_applications.Common.{ℕ, Bool, true, not, if◌then◌else◌}
use docker_applications.Sensor.{SensorReading, Nanopb, value_or_error, with_id, write_reading}

-- `htu`, `ltc`, the pins of the switches, and `numTxRetries`.
pub record Devices : Type 0 where
  pub htu_is_valid : Bool
  pub htu_temp : ℕ
  pub htu_hum : ℕ
  pub ltc_is_valid : Bool
  pub ltc_voltage : ℕ
  pub ltc_current : ℕ
  pub ltc_charge : ℕ
  pub microswitch1 : ℕ
  pub microswitch2 : ℕ

abbrev pub with_value : SensorReading → ℕ → SensorReading
with_value r v = record r { value1 = v; has_value1 = true }

module _ (pb : Nanopb) where
  -- A callback: from the stream to whether it succeeded and the stream after it.
  abbrev pub Callback : Type 0
  Callback = pb.Stream → Bool × pb.Stream

  unfoldable pub switch1sensor_callback : Devices → Callback
  switch1sensor_callback d = write_reading pb (with_value (with_id 1) d.microswitch1)

  unfoldable pub switch2sensor_callback : Devices → Callback
  switch2sensor_callback d = write_reading pb (with_value (with_id 9) d.microswitch2)

  unfoldable pub tempsensor_callback : Devices → Callback
  tempsensor_callback d = write_reading pb (value_or_error d.htu_is_valid d.htu_temp (with_id 2))

  unfoldable pub humsensor_callback : Devices → Callback
  humsensor_callback d = write_reading pb (value_or_error d.htu_is_valid d.htu_hum (with_id 3))

  unfoldable pub voltsensor_callback : Devices → Callback
  voltsensor_callback d = write_reading pb (value_or_error d.ltc_is_valid d.ltc_voltage (with_id 4))

  unfoldable pub currentsensor_callback : Devices → Callback
  currentsensor_callback d =
      write_reading pb (value_or_error d.ltc_is_valid d.ltc_current (with_id 5))

  unfoldable pub chargesensor_callback : Devices → Callback
  chargesensor_callback d =
      write_reading pb (value_or_error d.ltc_is_valid d.ltc_charge (with_id 6))

  unfoldable pub movesensor_callback : Callback
  movesensor_callback = write_reading pb (with_value (with_id 7) 1)

  unfoldable pub retriessensor_callback : ℕ → Callback
  retriessensor_callback num_tx_retries = write_reading pb (with_value (with_id 8) num_tx_retries)

  unfoldable pub powerlosssensor_callback : Devices → Callback
  powerlosssensor_callback d =
      write_reading pb (with_value (with_id 10) (if not d.ltc_is_valid then 1 else 0))
