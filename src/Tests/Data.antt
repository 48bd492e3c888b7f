-- ===== src/Tests/Data.antt =====
-- The values that the examples run on.
use docker_applications.Common.{
  ℕ, ◌+◌, Bool, refl, le→ltb, true, false, none, [], ◌∷◌, replicate, ltb, if◌then◌else◌,
}
use docker_applications.Config.{ConfigParams, FlashStorage, ConfigState, with_defaults}
use docker_applications.Record.GpsFix.{GpsFixDataRecord}
use docker_applications.Ring.{Ring}
use docker_applications.Tracker.SendBuffer.{SendBuffer}
use docker_applications.Ublox.{UBlox, null}
use docker_applications.Tracker.NavPvt.{Rtc, IsRtc}
use docker_applications.Tracker.Transmit.{no_error, busy, LoRaBee, Sketch}

-- A flash that holds one structure.
abbrev pub flash_cell : FlashStorage
flash_cell = record { Flash = ConfigParams; read_flash = λ f. f; write_flash = λ p f. p }

abbrev pub erased : ConfigParams
erased = record {
  header = 0xFFFF;
  default_fix_interval = 0xFFFF;
  alternative_fix_interval = 0xFFFF;
  alternative_fix_from_hours = 0xFF;
  alternative_fix_from_minutes = 0xFF;
  alternative_fix_to_hours = 0xFF;
  alternative_fix_to_minutes = 0xFF;
  gps_fix_timeout = 0xFFFF;
  is_led_enabled = 0xFF;
  is_otaa_enabled = 0xFF;
  is_gps_enabled = 0xFF;
  is_ack_enabled = 0xFF;
  is_dbg_enabled = 0xFF;
  dev_addr_or_eui = replicate 17 0xFF;
  app_s_key_or_eui = replicate 33 0xFF;
  nw_s_key_or_app_key = replicate 33 0xFF;
  charge_offset = 0xFFFF_FFFF;
  coordinate_upload_count = 0xFF;
  repeat_count = 0xFF;
  padding = 0xFF ∷ 0xFF ∷ [];
  frame_up_count = 0xFFFF_FFFF;
  frame_down_count = 0xFFFF_FFFF;
  crc16 = 0xFFFF;
}

abbrev pub defaults : ConfigParams
defaults = with_defaults erased

-- The defaults with an alternative interval of ten minutes from 8:00 to 9:30.
abbrev pub morning : ConfigParams
morning = record defaults {
  alternative_fix_interval = 10;
  alternative_fix_from_hours = 8;
  alternative_fix_to_hours = 9;
  alternative_fix_to_minutes = 30;
}

abbrev pub waiting : ConfigState flash_cell
waiting = record {
  params = morning;
  needs_commit = true;
  config_reset_callback = none;
  flash = erased;
}

abbrev pub committed : ConfigState flash_cell
committed = record waiting { needs_commit = false }

abbrev pub fix_at : ℕ → GpsFixDataRecord
fix_at t = record { buffer = replicate 10 7; timestamp = t }

abbrev pub started : Ring
started = record { data_ = replicate 4 (fix_at 0); bottom = 9; top = 9; valid_item_count = 9 }

-- Two fixes in the ring.
abbrev pub two_fixes : Ring
two_fixes = record {
  data_ = fix_at 0 ∷ fix_at 100 ∷ fix_at 160 ∷ fix_at 0 ∷ [];
  bottom = 0;
  top = 2;
  valid_item_count = 2;
}

-- A module that sends at the third attempt.
abbrev pub third_time : LoRaBee
third_time = record {
  send = λ ack payload size i. if ltb i 2 then busy else no_error;
  receive_buffer = [];
  receive_buffer_size = 0;
  up_cntr = 41;
  down_cntr = 7;
}

abbrev pub silent : LoRaBee
silent = record third_time { send = λ ack payload size i. busy }

abbrev pub sketch : Sketch flash_cell
sketch = record {
  config = committed;
  events = none;
  is_lora_initialized = true;
  send_buffer = 1 ∷ 2 ∷ 3 ∷ [];
  send_buffer_size = 3;
  num_tx_retries = 0;
}

abbrev pub send_buffer : SendBuffer
send_buffer = record { bytes = replicate 128 0xAA; size = 0 }

-- A parser that waits, with a buffer of 100 bytes.
abbrev pub listening : UBlox
listening = record {
  state_ = 0;
  ck_a = 0;
  ck_b = 0;
  id_ = 0;
  acked_id = 0 ∷ 0 ∷ [];
  pl_length = 0;
  p = null;
  payload_length = 0;
  payload_buffer = replicate 100 0;
}

-- The clock RTCZero, which begins in 2000, and a timer of which only that it was adjusted is known.
abbrev pub rtc_zero : Rtc Bool
rtc_zero = record {
  advance = λ elapsed epoch. epoch + elapsed;
  set_epoch = λ epoch. if ltb epoch 946684800 then 946684800 else epoch;
  adjust = λ old new t. true;
}

pub rtc_zero-IsRtc : IsRtc rtc_zero
rtc_zero-IsRtc = record {
  advances = λ elapsed epoch h. refl;
  sets = λ epoch h. rw (le→ltb epoch 946684800 h.0) refl;
}
