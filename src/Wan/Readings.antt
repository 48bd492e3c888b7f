-- ===== src/Wan/Readings.antt =====
-- The sensor callbacks of nodes/SodaqWAN/Hal.cpp: which reading each puts on the stream. What the
-- drivers of the sensors return is an argument: of a floating-point value, the integer to which the
-- callback converts it, as a 32-bit pattern.
use docker_applications.Common.{ℕ, Bool}
use docker_applications.Sensor.{Nanopb, value_or_error, with_id, write_reading}
use docker_applications.Tracker.Readings.{with_value, Callback}

-- `htu` and `ltc`
pub record Instruments : Type 0 where
  pub htu_is_valid : Bool
  pub htu_temp : ℕ
  pub htu_hum : ℕ
  pub ltc_is_valid : Bool
  pub ltc_voltage : ℕ
  pub ltc_current : ℕ
  pub ltc_charge : ℕ

module _ (pb : Nanopb) where
  unfoldable pub switchsensor_callback : ℕ → Callback pb
  switchsensor_callback state = write_reading pb (with_value (with_id 1) state)

  unfoldable pub tempsensor_callback : Instruments → Callback pb
  tempsensor_callback d = write_reading pb (value_or_error d.htu_is_valid d.htu_temp (with_id 2))

  unfoldable pub humsensor_callback : Instruments → Callback pb
  humsensor_callback d = write_reading pb (value_or_error d.htu_is_valid d.htu_hum (with_id 3))

  unfoldable pub voltsensor_callback : Instruments → Callback pb
  voltsensor_callback d = write_reading pb (value_or_error d.ltc_is_valid d.ltc_voltage (with_id 4))

  unfoldable pub currentsensor_callback : Instruments → Callback pb
  currentsensor_callback d =
      write_reading pb (value_or_error d.ltc_is_valid d.ltc_current (with_id 5))

  unfoldable pub chargesensor_callback : Instruments → Callback pb
  chargesensor_callback d =
      write_reading pb (value_or_error d.ltc_is_valid d.ltc_charge (with_id 6))

  unfoldable pub movesensor_callback : Callback pb
  movesensor_callback = write_reading pb (with_value (with_id 7) 1)

  unfoldable pub retriessensor_callback : ℕ → Callback pb
  retriessensor_callback num_tx_retries = write_reading pb (with_value (with_id 8) num_tx_retries)
