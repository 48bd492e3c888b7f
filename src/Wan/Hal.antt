-- ===== src/Wan/Hal.antt =====
-- `Hal::sendMessage` and the state of the class `Hal` of nodes/SodaqWAN/Hal.cpp and Hal.h. The LoRa
-- module behind the driver Sodaq_RN2483, a library, is a parameter: what each attempt to send
-- returns. Delays and what is printed are left out.
pub mod Sending
use docker_applications.Common.{
  ℕ, zero, suc, ◌+◌, Bool, true, false, not, ◌&&◌, List, ltb, ◌==◌, if◌then◌else◌,
}
use docker_applications.Tracker.Transmit.{
  SendReturn, is_no_error, is_fatal, Run, done, fault, out_of_fuel,
}
use docker_applications.Wan.Movement.{Compass}

pub record Hal : Type 0 where
  pub compass : Compass
  pub is_hal_initialized : Bool
  pub is_ack_active : Bool
  pub num_tx_retries : ℕ

-- NUM_TX_RETRIES
abbrev pub most_retries : ℕ
most_retries = 5

-- `LoRaBee.sendReqAck` or `LoRaBee.send`: given whether an acknowledgment is asked for, the payload
-- and its size, and the number of attempts made before.
abbrev pub Radio : Type 0
Radio = Bool → List ℕ → ℕ → ℕ → SendReturn

abbrev pub set_num_tx_retries : ℕ → Hal → Hal
set_num_tx_retries num h = record h { num_tx_retries = num }

-- The `while` loop with `retry` true: `retCount` and `retVal` after it.
unfoldable pub send_loop : (ℕ → SendReturn) → ℕ → ℕ → Bool → Run (ℕ × Bool)
send_loop attempt zero ret_count ret_val = out_of_fuel
send_loop attempt (suc fuel) ret_count ret_val =
    let send_return = attempt ret_count in
    let ret_val' = ret_val && not (is_fatal send_return) in
    let again = send_loop attempt fuel (ret_count + 1) ret_val' in
    if is_no_error send_return
    then done (ret_count, ret_val')
    else if ltb most_retries (ret_count + 1)
    then done (ret_count + 1, false)
    else again

-- The end of the function.
abbrev pub counting_retries : Hal → Run (ℕ × Bool) → Run (Hal × Bool)
counting_retries h (done (ret_count, ret_val)) =
    done (if ltb 0 ret_count then set_num_tx_retries ret_count h else h, ret_val)
counting_retries h fault = fault
counting_retries h out_of_fuel = out_of_fuel

-- Six rounds are enough, one more than the retries.
unfoldable pub send_message : Radio → List ℕ → ℕ → Hal → Run (Hal × Bool)
unfolding send_loop
send_message radio payload size h = counting_retries h (
    if h.is_hal_initialized
    then send_loop (radio h.is_ack_active payload size) 6 0 true
    else done (0, true))
