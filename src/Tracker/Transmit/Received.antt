-- ===== src/Tracker/Transmit/Received.antt =====
-- A configuration that arrives over the air, from the message that the module received to the next
-- start.
use docker_applications.Common.{
  ℕ, ◌-◌, ◌%◌, ◌^◌, ◌≤◌, ◌<◌, ◌≡◌, ◌≢◌, refl, ap, ◌∙◌, true, false, some, List, ◌++◌, Bool-cases,
  inl, inr, arith, ne→==,
}
use docker_applications.Config.{
  ConfigParams, image, FlashStorage, ConfigState, read, commit, get_alternative_fix_from,
  get_alternative_fix_to,
}
use docker_applications.Config.Store.{sealed_params, read-commit}
use docker_applications.Record.OverTheAir.{on_air}
use docker_applications.Tracker.Schedule.{
  hours_of, minutes_of, reset_rtc_timer_events, apply_over_the_air,
}
use docker_applications.Tracker.Schedule.OverTheAirUpdate.{day_time, update_on_air}
use docker_applications.Tracker.Transmit.{
  LoRaBee, is_no_error, done, Sketch, with_counters, on_success, transmit,
}
use docker_applications.Tracker.Transmit.Attempts.{
  attempt, Fail, none_fatal, repeats, transmit_succeeds,
}

-- The five values of a message.
pub record Settings : Type 0 where
  pub interval : ℕ
  pub alternative : ℕ
  pub from : ℕ
  pub to : ℕ
  pub timeout : ℕ

-- Values of their widths, with two times of the day, and not the reserved interval.
pub record IsSettings (m : Settings) : Type 0 where
  pub interval_in : m.interval < 2 ^ 16
  pub not_reserved : m.interval ≢ 0xFFFF
  pub alternative_in : m.alternative < 2 ^ 16
  pub from_in : m.from < 86400
  pub to_in : m.to < 86400
  pub timeout_in : m.timeout < 2 ^ 16

abbrev pub message_of : Settings → List ℕ
message_of m = on_air m.interval m.alternative m.from m.to m.timeout

abbrev pub with_settings : Settings → ConfigParams → ConfigParams
with_settings m p = record p {
  default_fix_interval = m.interval;
  alternative_fix_interval = m.alternative;
  alternative_fix_from_hours = hours_of m.from;
  alternative_fix_from_minutes = minutes_of m.from;
  alternative_fix_to_hours = hours_of m.to;
  alternative_fix_to_minutes = minutes_of m.to;
  gps_fix_timeout = m.timeout;
}

abbrev pub counted : LoRaBee → ConfigParams → ConfigParams
counted lora p = record p { frame_up_count = lora.up_cntr; frame_down_count = lora.down_cntr }

module _ (fs : FlashStorage) (lora : LoRaBee) where
  open fs use {Flash, read_flash, write_flash}

  -- An unforced commit before does not change what the forced one stores.
  counted_params :
      (c : ConfigState fs) (p : ConfigParams)
      → (with_counters fs lora (commit fs false (record c { params = p }))).params
        ≡ sealed_params (counted lora p)
  unfolding with_counters commit image
  counted_params c p = elim (Bool-cases c.needs_commit) [
    | inl needed ↦ rw needed refl
    | inr clean ↦ rw clean refl
  ]

  received :
      (m : Settings) (rest : List ℕ) (s : Sketch fs)
      → IsSettings m
      → lora.receive_buffer ≡ message_of m ++ rest
      → lora.receive_buffer_size ≡ 14
      → on_success fs lora s
        ≡ done (record s {
          config =
              with_counters fs lora
                (commit fs false (record (s.config) { params = with_settings m s.config.params }));
          events =
              some (reset_rtc_timer_events (with_settings m s.config.params) s.is_lora_initialized);
        })
  unfolding on_success apply_over_the_air with_counters
  received m rest s ok buffer size =
      let applied =
        update_on_air fs s.is_lora_initialized s.config m.interval m.alternative m.from m.to
          m.timeout rest ok.interval_in ok.alternative_in (omega (arith, ok.from_in))
          (omega (arith, ok.to_in)) ok.timeout_in in
      rw (size, buffer, applied, ne→== m.interval 0xFFFF ok.not_reserved) refl

  -- With a flash that reads back what was written, the module initialised, a success at attempt `k`
  -- within the repeat count, and an answer of five values on the air that fit their widths, two of
  -- them times of the day, and of which the interval is not the reserved one: `transmit` ends, the
  -- timer's events are those of the new values, and the configuration holds them, the two times to the
  -- minute, with the module's frame counters. The next start reads this configuration.
  pub transmit-received :
      ((p : ConfigParams) (f : Flash) → read_flash (write_flash p f) ≡ p)
      → (k : ℕ) (m : Settings) (rest : List ℕ) (s : Sketch fs) (before : ConfigParams)
      → IsSettings m
      → lora.receive_buffer ≡ message_of m ++ rest
      → lora.receive_buffer_size ≡ 14
      → s.is_lora_initialized ≡ true
      → repeats fs lora s < 256
      → k ≤ repeats fs lora s
      → Fail fs lora s 0 k
      → is_no_error (attempt fs lora s k) ≡ true
      → (after : Sketch fs) × (transmit fs lora s ≡ done (after, none_fatal fs lora s 0 k))
        × (after.config.params ≡ sealed_params (counted lora (with_settings m s.config.params)))
        × (get_alternative_fix_from after.config.params ≡ m.from - m.from % 60)
        × (get_alternative_fix_to after.config.params ≡ m.to - m.to % 60)
        × (after.events
            ≡ some (reset_rtc_timer_events (with_settings m s.config.params) s.is_lora_initialized))
        × (read fs (record (after.config) { params = before }) ≡ after.config)
  transmit-received law k m rest s before ok buffer size init hr hk fails hit =
      let c = commit fs false (record (s.config) { params = with_settings m s.config.params }) in
      let params = counted_params s.config (with_settings m s.config.params) in
      (
        record s {
          config = with_counters fs lora c;
          events =
              some (reset_rtc_timer_events (with_settings m s.config.params) s.is_lora_initialized);
          num_tx_retries = k;
        },
        transmit_succeeds fs lora s k init hr hk fails hit
            ∙ rw (received m rest s ok buffer size) refl,
        params,
        ap get_alternative_fix_from params ∙ (day_time m.from ok.from_in).0,
        ap get_alternative_fix_to params ∙ (day_time m.to ok.to_in).0,
        refl,
        unfold with_counters in
            read-commit fs law true (record c { params = counted lora c.params }) before refl,
      )
