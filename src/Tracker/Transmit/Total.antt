-- ===== src/Tracker/Transmit/Total.antt =====
-- `transmit` always comes to an end.
use docker_applications.Common.{
  ℕ, zero, suc, ◌+◌, ◌-◌, ◌&&◌, not, ◌≤◌, ◌<◌, ◌≢◌, Bool, true, Bool-cases, inl, inr, arith,
}
use native.Mathlib.Decide.{dec_lt}
use docker_applications.Config.{FlashStorage}
use docker_applications.Tracker.Transmit.{
  LoRaBee, is_no_error, is_fatal, out_of_fuel, Sketch, on_success, finished, transmit_loop,
  transmit,
}
use docker_applications.Tracker.Transmit.Attempts.{attempt, round_success, round_last, round_next}

module _ (fs : FlashStorage) (lora : LoRaBee) (s : Sketch fs) where
  success_ends : (n : ℕ) (b : Bool) → finished fs n b (on_success fs lora s) ≢ out_of_fuel
  unfolding on_success
  success_ends n b = ground arith

  loop_ends :
      (n fuel i : ℕ) (ret_val : Bool)
      → n < fuel
      → s.config.params.repeat_count ≤ i + n
      → transmit_loop fs lora fuel i ret_val s ≢ out_of_fuel
  loop_ends n zero i ret_val hf hn = elim hf [ ]
  loop_ends n (suc fuel) i ret_val hf hn = elim (Bool-cases (is_no_error (attempt fs lora s i))) [
    | inl hit ↦ rw (round_success fs lora s fuel i ret_val hit) (success_ends i ret_val)
    | inr miss ↦ elim (dec_lt i s.config.params.repeat_count) [
      | yes more ↦ rw (round_next fs lora s fuel i ret_val miss more) (
          loop_ends (n - 1) fuel (suc i) (ret_val && not (is_fatal (attempt fs lora s i)))
            (omega arith) (omega arith))
      | no last ↦ rw (round_last fs lora s fuel i ret_val miss (omega arith)) (cc)
    ]
  ]

  -- Whatever the attempts return, `transmit` ends: 257 rounds are enough for every `uint8_t` repeat
  -- count.
  pub transmit_ends : s.config.params.repeat_count < 256 → transmit fs lora s ≢ out_of_fuel
  unfolding transmit
  transmit_ends hr = elim (Bool-cases s.is_lora_initialized) [
    | inl on ↦ simp on (loop_ends 256 257 0 true (omega arith) (omega arith))
    | inr off ↦ simp off (cc)
  ]
