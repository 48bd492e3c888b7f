-- ===== src/Wan/Hal/Sending.antt =====
-- What `sendMessage` does, as a search for the first attempt that succeeds.
use native.Mathlib.Numerals.{add-one}
use docker_applications.Common.{
  ℕ, zero, suc, ◌+◌, ◌<◌, ◌≡◌, refl, ap, sym, ◌∙◌, Bool, true, false, not, ◌&&◌, Option, none, some,
  ◌>>=◌, List, ltb, if◌then◌else◌, Bool-cases, inl, inr, arith, le→ltb, lt→ltb,
}
use docker_applications.Tracker.Transmit.{
  SendReturn, is_no_error, is_fatal, Run, done, fault, out_of_fuel,
}
use docker_applications.Tracker.Transmit.Attempts.{success_not_fatal, and_assoc}
use docker_applications.Wan.Hal.{
  Hal, Radio, most_retries, set_num_tx_retries, send_loop, counting_retries, send_message,
}

-- `retCount` and `retVal` once the attempts are over.
abbrev pub counts : Option (ℕ × Bool) → ℕ × Bool
counts none = (most_retries + 1, false)
counts (some r) = r

abbrev pub and_before : Bool → Option (ℕ × Bool) → Option (ℕ × Bool)
and_before b none = none
and_before b (some r) = some (r.0, b && r.1)

and_before-and :
    (a b : Bool) (o : Option (ℕ × Bool))
    → and_before (a && b) o ≡ and_before a (o >>= λ r. some (r.0, b && r.1))
and_before-and a b none = refl
and_before-and a b (some r) = ap (λ t. some (r.0, t)) (and_assoc a b r.1)

and_before-true : (o : Option (ℕ × Bool)) → and_before true o ≡ o
and_before-true none = refl
and_before-true (some r) = refl

module _ (attempt : ℕ → SendReturn) where
  -- The first success among the `n` attempts from `i` on, and whether an error before it was fatal.
  abbrev pub first_success : ℕ → ℕ → Option (ℕ × Bool)
  first_success zero i = none
  first_success (suc n) i =
      let later = first_success n (suc i) in
      if is_no_error (attempt i)
      then some (i, true)
      else (later >>= λ r. some (r.0, not (is_fatal (attempt i)) && r.1))

  round_next :
      (fuel i : ℕ) (ret_val : Bool)
      → is_no_error (attempt i) ≡ false
      → i < most_retries
      → send_loop attempt (suc fuel) i ret_val
        ≡ send_loop attempt fuel (suc i) (ret_val && not (is_fatal (attempt i)))
  unfolding send_loop
  round_next fuel i ret_val miss h =
      rw (miss, le→ltb most_retries (i + 1) (omega arith), add-one i) refl

  first_success_miss :
      (n i : ℕ)
      → is_no_error (attempt i) ≡ false
      → first_success (suc n) i
        ≡ (first_success n (suc i) >>= λ r. some (r.0, not (is_fatal (attempt i)) && r.1))
  first_success_miss n i miss = rw miss refl

  loop_lem :
      (left i : ℕ) (ret_val : Bool)
      → i + left ≡ most_retries
      → send_loop attempt (suc left) i ret_val
        ≡ done (counts (and_before ret_val (first_success (suc left) i)))
  unfolding send_loop
  loop_lem zero i ret_val h = elim (Bool-cases (is_no_error (attempt i))) [
    | inl hit ↦ rw (hit, success_not_fatal (attempt i) hit) refl
    | inr miss ↦
        rw (miss, lt→ltb most_retries (i + 1) (omega arith))
          (ap (λ n. done (n, false)) (let e : i + 1 ≡ most_retries + 1 = omega arith in e))
  ]
  loop_lem (suc left) i ret_val h = elim (Bool-cases (is_no_error (attempt i))) [
    | inl hit ↦ rw (hit, success_not_fatal (attempt i) hit) refl
    | inr miss ↦
        round_next (suc left) i ret_val miss (omega arith)
        ∙ loop_lem left (suc i) (ret_val && not (is_fatal (attempt i))) (omega arith)
        ∙ ap (λ o. done (counts o))
            (and_before-and ret_val (not (is_fatal (attempt i))) (first_success (suc left) (suc i))
              ∙ ap (λ o. and_before ret_val o) (sym (first_success_miss (suc left) i miss)))
  ]

-- The node after the attempts: it counts the retries if there were any.
abbrev pub after_attempts : Hal → ℕ × Bool → Hal × Bool
after_attempts h (ret_count, ret_val) =
    (if ltb 0 ret_count then set_num_tx_retries ret_count h else h, ret_val)

-- With the node initialised, `sendMessage` ends. It makes attempts up to the first that succeeds,
-- six at most, returns true exactly if one of them succeeds and no error before it was fatal, and
-- notes the number of failures if there were any; nothing else of the node changes.
pub send_message_lem :
    (radio : Radio) (payload : List ℕ) (size : ℕ) (h : Hal)
    → h.is_hal_initialized ≡ true
    → send_message radio payload size h
      ≡ done (after_attempts h (counts (first_success (radio h.is_ack_active payload size) 6 0)))
unfolding send_message
send_message_lem radio payload size h on =
    let attempt = radio h.is_ack_active payload size in
    ap (λ b. counting_retries h (if b then send_loop attempt 6 0 true else done (0, true))) on
    ∙ ap (counting_retries h) (loop_lem attempt 5 0 true refl)
    ∙ ap (λ o. done (after_attempts h (counts o))) (and_before-true (first_success attempt 6 0))

-- A node that is not initialised sends nothing, and `sendMessage` returns true.
pub send_message_not_initialized :
    (radio : Radio) (payload : List ℕ) (size : ℕ) (h : Hal)
    → h.is_hal_initialized ≡ false
    → send_message radio payload size h ≡ done (h, true)
unfolding send_message
send_message_not_initialized radio payload size h off =
    ap
      (λ b.
        counting_retries h
          (if b then send_loop (radio h.is_ack_active payload size) 6 0 true else done (0, true)))
      off

module _ {ℓ} {A : Type ℓ} where
  value_or : A → Run A → A
  value_or d (done a) = a
  value_or d _ = d

  pub done-injective : (a b : A) → done a ≡ done b → a ≡ b
  unfolding value_or
  done-injective a b h = ap (value_or a) h

counting_retries-compass :
    (h : Hal) (r : Run (ℕ × Bool)) (result : Hal × Bool)
    → counting_retries h r ≡ done result
    → result.0.compass ≡ h.compass
counting_retries-compass h (done (n, b)) result e = elim (Bool-cases (ltb 0 n)) [
  | inl retried ↦ sym (ap (λ t. t.0.compass) (done-injective _ result (rw retried at e)))
  | inr once ↦ sym (ap (λ t. t.0.compass) (done-injective _ result (rw once at e)))
]
counting_retries-compass h fault result e = absurd (cc)
counting_retries-compass h out_of_fuel result e = absurd (cc)

pub send_message-compass :
    (radio : Radio) (payload : List ℕ) (size : ℕ) (h : Hal) (result : Hal × Bool)
    → send_message radio payload size h ≡ done result
    → result.0.compass ≡ h.compass
unfolding send_message
send_message-compass radio payload size h result e = counting_retries-compass h _ result e
