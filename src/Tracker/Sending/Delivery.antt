-- ===== src/Tracker/Sending/Delivery.antt =====
-- What becomes of a press of a switch, a movement and an alive message.
use docker_applications.Common.{ℕ, ◌≤◌, ◌<◌, ◌≡◌, refl, ◌∙◌, true, false, some, length, ◌==◌}
use docker_applications.Common.Memory.{splice}
use docker_applications.Config.{FlashStorage}
use docker_applications.Sensor.{SensorReading, Nanopb, with_id}
use docker_applications.Sensor.Stream.{Encodes, reading_bytes}
use docker_applications.Tracker.Readings.{Devices, with_value}
use docker_applications.Tracker.Messages.Alive.{
  on_wire, alive_readings, update_alive_send_buffer_lem,
}
use docker_applications.Tracker.Messages.Single.{
  with_reading, update_switch_send_buffer_lem, update_move_send_buffer_lem,
}
use docker_applications.Tracker.Schedule.{reset_rtc_timer_events}
use docker_applications.Tracker.Transmit.{LoRaBee, is_no_error, done, Sketch, on_success, transmit}
use docker_applications.Tracker.Transmit.Attempts.{
  attempt, Fail, none_fatal, repeats, transmit_succeeds,
}
use docker_applications.Tracker.Sending.{
  buffer_of, with_message, get_switch_data_and_transmit, get_move_data_and_transmit,
  get_alive_data_and_transmit,
}

module _ (fs : FlashStorage) (lora : LoRaBee) where
  -- The module sends `s` at attempt `k`, none before it was fatal, and what it received with the
  -- acknowledgment leaves `after`.
  pub record Delivered (k : ℕ) (s after : Sketch fs) : Type 0 where
    pub initialized : s.is_lora_initialized ≡ true
    pub small : repeats fs lora s < 256
    pub in_time : k ≤ repeats fs lora s
    pub fails : Fail fs lora s 0 k
    pub hit : is_no_error (attempt fs lora s k) ≡ true
    pub harmless : none_fatal fs lora s 0 k ≡ true
    pub received : on_success fs lora s ≡ done after

  pub transmit-Delivered :
      (k : ℕ) (s after : Sketch fs)
      → Delivered k s after
      → transmit fs lora s ≡ done (record after { num_tx_retries = k }, true)
  transmit-Delivered k s after d =
      transmit_succeeds fs lora s k d.initialized d.small d.in_time d.fails d.hit
      ∙ rw (d.harmless, d.received) refl

module _ (pb : Nanopb) (enc : Encodes pb) (fs : FlashStorage) (lora : LoRaBee) where
  -- The sketch with the one reading as its message.
  abbrev pub with_one : SensorReading → Sketch fs → Sketch fs
  with_one r s = with_message pb fs s (with_reading pb enc r (buffer_of pb fs s))

  -- The sketch after a message was delivered: the retries are counted and the events start anew.
  abbrev pub rescheduled_after : ℕ → Sketch fs → Sketch fs
  rescheduled_after k after = record after {
    num_tx_retries = k;
    events = some (reset_rtc_timer_events after.config.params after.is_lora_initialized);
  }

  -- With an encoder that does what its documentation says and a send buffer of less than 256 bytes
  -- in which the readings of both switches fit, if the module sends the message at attempt `k`, none before was
  -- fatal and what was received is applied: after a press of switch 1 the message was the pin with
  -- the id 1, the sketch is as the reception left it, with `k` retries and the timer's events
  -- set anew.
  pub get_switch_data_and_transmit_lem :
      (k : ℕ) (d : Devices) (s after : Sketch fs)
      → length (reading_bytes pb enc (with_value (with_id 1) d.microswitch1)) ≤ length s.send_buffer
      → length (reading_bytes pb enc (with_value (with_id 9) d.microswitch2)) ≤ length s.send_buffer
      → length s.send_buffer < 256
      → Delivered fs lora k (with_one (with_value (with_id 1) d.microswitch1) s) after
      → get_switch_data_and_transmit pb fs lora 1 d s ≡ done (rescheduled_after k after)
  unfolding get_switch_data_and_transmit
  get_switch_data_and_transmit_lem k d s after room1 room2 small sent =
      rw
        (
          update_switch_send_buffer_lem pb enc 1 d (buffer_of pb fs s) room1 room2 small,
          transmit-Delivered fs lora k (with_one (with_value (with_id 1) d.microswitch1) s) after
              sent,
        )
        refl

  -- A number that is no switch changes nothing and sends nothing.
  pub get_switch_data_and_transmit_other :
      (switch_no : ℕ) (d : Devices) (s : Sketch fs)
      → (switch_no == 1) ≡ false
      → (switch_no == 2) ≡ false
      → length (reading_bytes pb enc (with_value (with_id 1) d.microswitch1)) ≤ length s.send_buffer
      → length (reading_bytes pb enc (with_value (with_id 9) d.microswitch2)) ≤ length s.send_buffer
      → length s.send_buffer < 256
      → get_switch_data_and_transmit pb fs lora switch_no d s ≡ done s
  unfolding get_switch_data_and_transmit
  get_switch_data_and_transmit_other switch_no d s not_1 not_2 room1 room2 small =
      rw
        (
          update_switch_send_buffer_lem pb enc switch_no d (buffer_of pb fs s) room1 room2 small,
          not_1,
          not_2,
        )
        refl

  -- The same for a movement, with the id 7.
  pub get_move_data_and_transmit_lem :
      (k : ℕ) (s after : Sketch fs)
      → length (reading_bytes pb enc (with_value (with_id 7) 1)) ≤ length s.send_buffer
      → length s.send_buffer < 256
      → Delivered fs lora k (with_one (with_value (with_id 7) 1) s) after
      → get_move_data_and_transmit pb fs lora s ≡ done (rescheduled_after k after)
  unfolding get_move_data_and_transmit
  get_move_data_and_transmit_lem k s after room small sent =
      rw
        (
          update_move_send_buffer_lem pb enc (buffer_of pb fs s) room small,
          transmit-Delivered fs lora k (with_one (with_value (with_id 7) 1) s) after sent,
        )
        refl

  -- The sketch with an alive message, of which the retries are those of the transmission before.
  abbrev pub with_alive : Devices → Sketch fs → Sketch fs
  with_alive d s = record s {
    send_buffer = splice 0 (on_wire pb enc (alive_readings d s.num_tx_retries)) s.send_buffer;
    send_buffer_size = length (on_wire pb enc (alive_readings d s.num_tx_retries));
  }

  -- With an encoder that does what its documentation says and a send buffer of less than 256 bytes
  -- in which the readings fit, if the module sends the alive message at attempt `k`, none before
  -- was fatal and what was received is applied: the message held the readings of all sensors and
  -- the retries of the transmission before, `k` retries are counted for the next one, and the
  -- function returns false although the message was sent.
  pub get_alive_data_and_transmit_lem :
      (k : ℕ) (d : Devices) (s after : Sketch fs)
      → length (on_wire pb enc (alive_readings d s.num_tx_retries)) ≤ length s.send_buffer
      → length s.send_buffer < 256
      → Delivered fs lora k (with_alive d s) after
      → get_alive_data_and_transmit pb fs lora d s
        ≡ done (record after { num_tx_retries = k }, false)
  unfolding get_alive_data_and_transmit
  get_alive_data_and_transmit_lem k d s after room small sent =
      rw
        (
          update_alive_send_buffer_lem pb enc d s.num_tx_retries (buffer_of pb fs s) room small,
          transmit-Delivered fs lora k (with_alive d s) after sent,
        )
        refl
