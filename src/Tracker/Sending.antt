-- ===== src/Tracker/Sending.antt =====
-- The functions of nodes/SodaqOneDevice/SodaqOneDevice.ino that prepare a message and transmit it.
-- What `ltc.Update()` and `htu.Update()` read is an argument, the encoder and the LoRa module are
-- parameters.
pub mod Delivery
use docker_applications.Common.{
  ℕ, zero, suc, ◌+◌, Bool, true, false, not, ◌&&◌, Option, none, some, List, ◌==◌, if◌then◌else◌,
}
use docker_applications.Config.{FlashStorage}
use docker_applications.Sensor.{Nanopb}
use docker_applications.Tracker.SendBuffer.{SendBuffer}
use docker_applications.Tracker.Readings.{Devices}
use docker_applications.Tracker.Messages.{
  update_alive_send_buffer, update_switch_send_buffer, update_move_send_buffer,
}
use docker_applications.Tracker.Schedule.{reset_rtc_timer_events}
use docker_applications.Tracker.Transmit.{LoRaBee, Run, done, fault, out_of_fuel, Sketch, transmit}

module _ (pb : Nanopb) (fs : FlashStorage) where
  abbrev pub buffer_of : Sketch fs → SendBuffer
  buffer_of s = record { bytes = s.send_buffer; size = s.send_buffer_size }

  abbrev pub with_message : Sketch fs → SendBuffer → Sketch fs
  with_message s b = record s { send_buffer = b.bytes; send_buffer_size = b.size }

  -- `resetRtcTimerEvents()` if `transmit()` returned true.
  abbrev pub rescheduled : Run (Sketch fs × Bool) → Run (Sketch fs)
  rescheduled (done (s, true)) =
      done
        (record s { events = some (reset_rtc_timer_events s.config.params s.is_lora_initialized) })
  rescheduled (done (s, false)) = done s
  rescheduled fault = fault
  rescheduled out_of_fuel = out_of_fuel

  -- `getAliveDataAndTransmit` returns `isSuccessful`, which stays false.
  abbrev pub not_successful : Run (Sketch fs × Bool) → Run (Sketch fs × Bool)
  not_successful (done (s, sent)) = done (s, false)
  not_successful fault = fault
  not_successful out_of_fuel = out_of_fuel

  unfoldable pub get_switch_data_and_transmit : LoRaBee → ℕ → Devices → Sketch fs → Run (Sketch fs)
  get_switch_data_and_transmit lora switch_no d s =
      let (encoded, b) = update_switch_send_buffer pb switch_no d (buffer_of s) in
      if encoded then rescheduled (transmit fs lora (with_message s b)) else done (with_message s b)

  unfoldable pub get_move_data_and_transmit : LoRaBee → Sketch fs → Run (Sketch fs)
  get_move_data_and_transmit lora s =
      let (encoded, b) = update_move_send_buffer pb (buffer_of s) in
      if encoded then rescheduled (transmit fs lora (with_message s b)) else done (with_message s b)

  -- The message is sent whether or not it was encoded, and the function returns false.
  unfoldable pub get_alive_data_and_transmit :
      LoRaBee → Devices → Sketch fs → Run (Sketch fs × Bool)
  get_alive_data_and_transmit lora d s =
      let b = update_alive_send_buffer pb d s.num_tx_retries (buffer_of s) in
      not_successful (transmit fs lora (with_message s b))
