-- ===== src/Tracker/Transmit/Attempts.antt =====
-- The attempts of `transmit`: how many are made and what it returns.
use native.Mathlib.Numerals.{add-one}
use native.Mathlib.Nat.{add-zero, zero-add}
use docker_applications.Common.{
  ℕ, zero, suc, ◌+◌, ◌≤◌, ◌<◌, ◌≡◌, refl, ap, ap₂, subst, sym, ◌∙◌, Bool, true, false, not, ◌&&◌,
  ◌==◌, arith, le→ltb, lt→ltb,
}
use docker_applications.Config.{FlashStorage}
use docker_applications.Tracker.Transmit.{
  SendReturn, no_error, LoRaBee, is_no_error, is_fatal, done, Sketch, on_success, finished,
  transmit_loop, transmit,
}

pub success_not_fatal : (r : SendReturn) → is_no_error r ≡ true → is_fatal r ≡ false
success_not_fatal no_error h = refl
success_not_fatal _ h = cc

and_true : (b : Bool) → (b && true) ≡ b
and_true true = refl
and_true false = refl

pub and_assoc : (a b c : Bool) → ((a && b) && c) ≡ (a && (b && c))
and_assoc true b c = refl
and_assoc false b c = refl

module _ (fs : FlashStorage) (lora : LoRaBee) (s : Sketch fs) where
  -- What attempt `i` returns.
  abbrev pub attempt : ℕ → SendReturn
  attempt i =
      lora.send (not (s.config.params.is_ack_enabled == 0)) s.send_buffer s.send_buffer_size i

  -- The `k` attempts from `i` on fail.
  abbrev pub Fail : ℕ → ℕ → Type 0
  Fail i zero = Unit
  Fail i (suc k) = (is_no_error (attempt i) ≡ false) × Fail (suc i) k

  -- Whether none of the `k` attempts from `i` on met a fatal error.
  abbrev pub none_fatal : ℕ → ℕ → Bool
  none_fatal i zero = true
  none_fatal i (suc k) = not (is_fatal (attempt i)) && none_fatal (suc i) k

  abbrev pub repeats : ℕ
  repeats = s.config.params.repeat_count

  -- One round at a success, at the last failure, and at any other failure.
  pub round_success :
      (fuel i : ℕ) (ret_val : Bool)
      → is_no_error (attempt i) ≡ true
      → transmit_loop fs lora (suc fuel) i ret_val s ≡ finished fs i ret_val (on_success fs lora s)
  unfolding transmit_loop
  round_success fuel i ret_val hit =
      rw (hit, success_not_fatal (attempt i) hit)
        (ap (λ b. finished fs i b (on_success fs lora s)) (and_true ret_val))

  pub round_last :
      (fuel i : ℕ) (ret_val : Bool)
      → is_no_error (attempt i) ≡ false
      → repeats ≤ i
      → transmit_loop fs lora (suc fuel) i ret_val s ≡ finished fs (i + 1) false (done s)
  unfolding transmit_loop
  round_last fuel i ret_val miss h = rw (miss, lt→ltb repeats (i + 1) (omega arith))

  pub round_next :
      (fuel i : ℕ) (ret_val : Bool)
      → is_no_error (attempt i) ≡ false
      → i < repeats
      → transmit_loop fs lora (suc fuel) i ret_val s
        ≡ transmit_loop fs lora fuel (suc i) (ret_val && not (is_fatal (attempt i))) s
  unfolding transmit_loop
  round_next fuel i ret_val miss h = rw (miss, le→ltb repeats (i + 1) (omega arith), add-one i)

  loop_succeeds :
      (k fuel i : ℕ) (ret_val : Bool)
      → k < fuel
      → i + k ≤ repeats
      → Fail i k
      → is_no_error (attempt (i + k)) ≡ true
      → transmit_loop fs lora fuel i ret_val s
        ≡ finished fs (i + k) (ret_val && none_fatal i k) (on_success fs lora s)
  loop_succeeds k zero i ret_val hf hr fails hit = elim hf [ ]
  loop_succeeds zero (suc fuel) i ret_val hf hr fails hit =
      rw (add-zero i, and_true ret_val) (round_success fuel i ret_val (rw add-zero at hit))
  loop_succeeds (suc k) (suc fuel) i ret_val hf hr fails hit =
      round_next fuel i ret_val fails.0 (omega arith)
      ∙ loop_succeeds k fuel (suc i) (ret_val && not (is_fatal (attempt i))) (omega arith)
          (omega arith) fails.1
          (subst (λ n. is_no_error (attempt n) ≡ true)
            (let e : i + suc k ≡ suc i + k = omega arith in e) hit)
      ∙ ap₂ (λ n b. finished fs n b (on_success fs lora s))
          (let e : suc i + k ≡ i + suc k = omega arith in e)
          (and_assoc ret_val (not (is_fatal (attempt i))) (none_fatal (suc i) k))

  loop_gives_up :
      (k fuel i : ℕ) (ret_val : Bool)
      → k < fuel
      → i + k ≡ repeats
      → Fail i (suc k)
      → transmit_loop fs lora fuel i ret_val s ≡ finished fs (repeats + 1) false (done s)
  loop_gives_up k zero i ret_val hf hr fails = elim hf [ ]
  loop_gives_up zero (suc fuel) i ret_val hf hr fails =
      round_last fuel i ret_val fails.0 (omega arith)
      ∙ ap (λ n. finished fs n false (done s)) (let e : i + 1 ≡ repeats + 1 = omega arith in e)
  loop_gives_up (suc k) (suc fuel) i ret_val hf hr fails =
      round_next fuel i ret_val fails.0 (omega arith)
      ∙ loop_gives_up k fuel (suc i) (ret_val && not (is_fatal (attempt i))) (omega arith)
          (omega arith) fails.1

  started : s.is_lora_initialized ≡ true → transmit fs lora s ≡ transmit_loop fs lora 257 0 true s
  unfolding transmit
  started init = simp init

  -- With the module initialised, if the first `k` attempts fail and the next one succeeds, within
  -- the repeat count, `transmit` makes no other attempt: it applies what was received, stores the
  -- frame counters, counts `k` retries, and returns whether none of the failures was a fatal one.
  pub transmit_succeeds :
      (k : ℕ)
      → s.is_lora_initialized ≡ true
      → repeats < 256
      → k ≤ repeats
      → Fail 0 k
      → is_no_error (attempt k) ≡ true
      → transmit fs lora s ≡ finished fs k (none_fatal 0 k) (on_success fs lora s)
  transmit_succeeds k init hr hk fails hit =
      started init
      ∙ loop_succeeds k 257 0 true (omega arith) (omega arith) fails
          (subst (λ n. is_no_error (attempt n) ≡ true) (sym (zero-add k)) hit)
      ∙ ap (λ n. finished fs n (none_fatal 0 k) (on_success fs lora s)) (zero-add k)

  -- With the module initialised, if the first attempt and all repeats fail, `transmit` ends after them, returns false, counts
  -- one retry more than the repeat count, and changes nothing else.
  pub transmit_gives_up :
      s.is_lora_initialized ≡ true
      → repeats < 256
      → Fail 0 (suc repeats)
      → transmit fs lora s ≡ finished fs (repeats + 1) false (done s)
  transmit_gives_up init hr fails =
      started init ∙ loop_gives_up repeats 257 0 true (omega arith) (omega arith) fails

  -- A module that is not initialised sends nothing, and `transmit` returns true.
  pub transmit_not_initialized :
      s.is_lora_initialized ≡ false
      → transmit fs lora s ≡ done (record s { num_tx_retries = 0 }, true)
  unfolding transmit
  transmit_not_initialized off = simp off
