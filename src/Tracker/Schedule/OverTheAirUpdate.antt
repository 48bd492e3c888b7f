-- ===== src/Tracker/Schedule/OverTheAirUpdate.antt =====
-- `updateConfigOverTheAir`: which messages change the configuration, and to what.
use docker_applications.Common.{
  ℕ, ◌+◌, ◌-◌, ◌*◌, ◌%◌, ◌^◌, ◌≤◌, ◌<◌, ◌≡◌, ◌≢◌, Bool, none, some, List, ◌++◌, ◌==◌, arith,
  Bool-cases, inl, inr, if◌then◌else◌,
}
use docker_applications.Config.{FlashStorage, ConfigState}
use docker_applications.Record.OverTheAir.{on_air, receive-on_air, receive_other_size}
use docker_applications.Tracker.Schedule.{
  hours_of, minutes_of, apply_over_the_air, update_config_over_the_air,
}

-- Within one day the two bytes give back the time, to the minute, and are in range.
pub day_time :
    (t : ℕ)
    → t < 86400
    → (hours_of t * 60 * 60 + minutes_of t * 60 ≡ t - t % 60)
      × (hours_of t ≤ 23)
      × (minutes_of t ≤ 59)
day_time t h = omega arith

module _ (fs : FlashStorage) (is_lora_initialized : Bool) (s : ConfigState fs) where
  -- A message of another size than the record's changes nothing.
  pub update_ignores :
      (message : List ℕ) (size : ℕ)
      → size ≢ 14
      → update_config_over_the_air fs is_lora_initialized message size s ≡ some (s, none)
  unfolding update_config_over_the_air
  update_ignores message size h =
      let (r, received, invalid) = receive_other_size message size h in rw (received, invalid)

  -- A message of five values on the air, 14 bytes, is applied as it stands, unless it has the
  -- reserved interval.
  pub update_on_air :
      (interval alternative from to timeout : ℕ) (rest : List ℕ)
      → interval < 2 ^ 16
      → alternative < 2 ^ 16
      → from < 2 ^ 32
      → to < 2 ^ 32
      → timeout < 2 ^ 16
      → update_config_over_the_air fs is_lora_initialized
          (on_air interval alternative from to timeout ++ rest)
          14
          s
        ≡ some (
            if interval == 0xFFFF
            then (s, none)
            else apply_over_the_air fs is_lora_initialized s interval alternative from to timeout)
  unfolding update_config_over_the_air
  update_on_air interval alternative from to timeout rest hi ha hf ht hg =
      let (r, received, i, a, f, t, g, v) =
        receive-on_air interval alternative from to timeout rest hi ha hf ht hg in
      elim (Bool-cases (interval == 0xFFFF)) [
        | inl e ↦ rw (e, received, v, e)
        | inr e ↦ rw (e, received, v, e, i, a, f, t, g)
      ]
