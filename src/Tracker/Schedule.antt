-- ===== src/Tracker/Schedule.antt =====
-- When nodes/SodaqOneDevice/SodaqOneDevice.ino takes a fix: the timer's events, the daily window of
-- the alternative fix event, and the configuration that arrives over the air. The timer and the
-- real-time clock are libraries: events are given to the one, and the time of day comes from the
-- other.
pub mod Window
pub mod OverTheAirUpdate
use docker_applications.Common.{
  ℕ, ◌+◌, ◌-◌, ◌*◌, ◌/◌, ◌%◌, ◌^◌, Bool, true, false, not, ◌&&◌, Option, none, some, ◌>>=◌, List,
  [], ◌∷◌, ◌++◌, leb, ltb, ◌==◌, if◌then◌else◌,
}
use docker_applications.Config.{
  ConfigParams, FlashStorage, ConfigState, commit, get_alternative_fix_from, get_alternative_fix_to,
}
use docker_applications.Record.OverTheAir.{
  receive, is_valid, get_default_fix_interval, get_alternative_fix_interval,
  get_alternative_fix_from as from_of, get_alternative_fix_to as to_of, get_gps_fix_timeout,
}

-- What the clock and the sketch know of the time.
pub record Clock : Type 0 where
  pub is_rtc_initialized : Bool
  pub hours : ℕ
  pub minutes : ℕ

unfoldable pub is_current_time_of_day_within : Clock → ℕ → ℕ → Bool
is_current_time_of_day_within c day_seconds_from day_seconds_to =
    let day_seconds_current = c.hours * 60 * 60 + c.minutes * 60 in
    leb day_seconds_from day_seconds_current && ltb day_seconds_current day_seconds_to

-- The difference of the two times is a `uint32_t` and wraps.
unfoldable pub is_alternative_fix_event_applicable : ConfigParams → Clock → Bool
unfolding is_current_time_of_day_within
is_alternative_fix_event_applicable p c =
    c.is_rtc_initialized
    && ltb 0 p.alternative_fix_interval
    && leb (p.alternative_fix_interval * 60)
        ((get_alternative_fix_to p + 2 ^ 32 - get_alternative_fix_from p) % 2 ^ 32)
    && is_current_time_of_day_within c (get_alternative_fix_from p) (get_alternative_fix_to p)

-- The two fix events of the timer; `get_data_and_transmit` is what they run.
module _ {S : Type 0} (get_data_and_transmit : S → S) (params : S → ConfigParams)
    (clock : S → Clock) where
  unfoldable pub run_default_fix_event : S → S
  run_default_fix_event s =
      if not (is_alternative_fix_event_applicable (params s) (clock s))
      then get_data_and_transmit s
      else s

  unfoldable pub run_alternative_fix_event : S → S
  run_alternative_fix_event s =
      if is_alternative_fix_event_applicable (params s) (clock s)
      then get_data_and_transmit s
      else s

pub data EventKind : Type 0 where
  default_fix alternative_fix lora_module_sleep_extend : EventKind

-- The events that `resetRtcTimerEvents` leaves in the timer, in order, each with its period in
-- seconds; all others are cleared.
unfoldable pub reset_rtc_timer_events : ConfigParams → Bool → List (EventKind × ℕ)
reset_rtc_timer_events p is_lora_initialized =
    (default_fix, p.default_fix_interval * 60)
    ∷ ((if ltb 0 p.alternative_fix_interval
          then (alternative_fix, p.alternative_fix_interval * 60) ∷ []
          else [])
        ++ (if not is_lora_initialized then (lora_module_sleep_extend, 24 * 60 * 60) ∷ [] else []))

-- `_alternativeFixFromHours = from / 3600` and `_alternativeFixFromMinutes = (from - hours * 3600)
-- / 60`, both assigned to a `uint8_t`; the difference is a `uint32_t`.
abbrev pub hours_of : ℕ → ℕ
hours_of day_seconds = day_seconds / 3600 % 256

abbrev pub minutes_of : ℕ → ℕ
minutes_of day_seconds = (day_seconds + 2 ^ 32 - hours_of day_seconds * 3600) % 2 ^ 32 / 60 % 256

module _ (fs : FlashStorage) where
  -- What `updateConfigOverTheAir` changes: the configuration, and the timer's events if it is
  -- applied.
  abbrev pub Updated : Type 0
  Updated = ConfigState fs × Option (List (EventKind × ℕ))

  -- The body under `record.isValid()`, with the values of the record.
  unfoldable pub apply_over_the_air : Bool → ConfigState fs → ℕ → ℕ → ℕ → ℕ → ℕ → Updated
  apply_over_the_air is_lora_initialized s interval alternative from to timeout =
      let p : ConfigParams = record (s.params) {
        default_fix_interval = interval;
        alternative_fix_interval = alternative;
        alternative_fix_from_hours = hours_of from;
        alternative_fix_from_minutes = minutes_of from;
        alternative_fix_to_hours = hours_of to;
        alternative_fix_to_minutes = minutes_of to;
        gps_fix_timeout = timeout;
      } in
      (
        commit fs false (record s { params = p }),
        some (reset_rtc_timer_events p is_lora_initialized),
      )

  unfoldable pub update_config_over_the_air : Bool → List ℕ → ℕ → ConfigState fs → Option Updated
  update_config_over_the_air is_lora_initialized receive_buffer receive_buffer_size s = do
    r ← receive receive_buffer receive_buffer_size
    valid ← is_valid r
    if valid
        then (do
          interval ← get_default_fix_interval r
          alternative ← get_alternative_fix_interval r
          from ← from_of r
          to ← to_of r
          timeout ← get_gps_fix_timeout r
          some (apply_over_the_air is_lora_initialized s interval alternative from to timeout))
        else some (s, none)
