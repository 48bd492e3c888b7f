-- ===== src/Tracker/Transmit.antt =====
-- `transmit` of nodes/SodaqOneDevice/SodaqOneDevice.ino. The LoRa module behind the driver
-- Sodaq_RN2483, a library, is a parameter: what each attempt to send returns, what is received
-- after a success, and its frame counters. Delays and messages are left out.
pub mod Attempts
pub mod Total
pub mod Received
use docker_applications.Common.{
  ℕ, zero, suc, ◌+◌, ◌<◌, ◌≡◌, Bool, true, false, not, ◌&&◌, Option, none, some, List, [], ◌∷◌, ltb,
  ◌==◌, if◌then◌else◌,
}
use docker_applications.Config.{ConfigParams, FlashStorage, ConfigState, commit}
use docker_applications.Tracker.Schedule.{EventKind, Updated, update_config_over_the_air}

-- MacTransmitErrorCodes, as `transmit` tells them apart
pub data SendReturn : Type 0 where
  no_error no_response timeout payload_size_error internal_error busy : SendReturn
  network_fatal_error not_connected no_acknowledgment : SendReturn

-- `send` is given whether an acknowledgment is asked for, the payload and its size, and the number
-- of attempts made before.
pub record LoRaBee : Type 0 where
  pub send : Bool → List ℕ → ℕ → ℕ → SendReturn
  pub receive_buffer : List ℕ
  pub receive_buffer_size : ℕ
  pub up_cntr : ℕ
  pub down_cntr : ℕ

abbrev pub is_no_error : SendReturn → Bool
is_no_error no_error = true
is_no_error _ = false

-- The errors after which `retVal` is false, though the loop goes on.
abbrev pub is_fatal : SendReturn → Bool
is_fatal internal_error = true
is_fatal network_fatal_error = true
is_fatal not_connected = true
is_fatal _ = false

-- How a run of the code ends: with its result, with an access out of bounds, or not within the
-- fuel.
pub data Run {ℓ} (A : Type ℓ) : Type ℓ where
  done : A → Run A
  fault out_of_fuel : Run A

module _ (fs : FlashStorage) where
  -- The state that `transmit` reads and writes, beside the module's.
  pub record Sketch : Type 0 where
    pub config : ConfigState fs
    pub events : Option (List (EventKind × ℕ))
    pub is_lora_initialized : Bool
    pub send_buffer : List ℕ
    pub send_buffer_size : ℕ
    pub num_tx_retries : ℕ

  -- After a success: apply what was received, then store the module's frame counters.
  unfoldable pub with_counters : LoRaBee → ConfigState fs → ConfigState fs
  with_counters lora c =
      let p : ConfigParams = record (c.params) {
        frame_up_count = lora.up_cntr;
        frame_down_count = lora.down_cntr;
      } in
      commit fs true (record c { params = p })

  abbrev pub newer :
      Option (List (EventKind × ℕ)) → Option (List (EventKind × ℕ)) → Option (List (EventKind × ℕ))
  newer none old = old
  newer (some e) old = some e

  unfoldable pub on_success : LoRaBee → Sketch → Run Sketch
  on_success lora s =
      if ltb 1 lora.receive_buffer_size
      then elim (update_config_over_the_air fs s.is_lora_initialized lora.receive_buffer
          lora.receive_buffer_size s.config) [
            | none ↦ fault
            | some (c, e) ↦
                done (record s { config = with_counters lora c; events = newer e s.events })
          ]
      else done (record s { config = with_counters lora s.config })

  abbrev pub finished : ℕ → Bool → Run Sketch → Run (Sketch × Bool)
  finished ret_count ret_val (done s) = done (record s { num_tx_retries = ret_count }, ret_val)
  finished ret_count ret_val fault = fault
  finished ret_count ret_val out_of_fuel = out_of_fuel

  -- The `while` loop with `retry` true, and the end of the function.
  unfoldable pub transmit_loop : LoRaBee → ℕ → ℕ → Bool → Sketch → Run (Sketch × Bool)
  transmit_loop lora zero ret_count ret_val s = out_of_fuel
  transmit_loop lora (suc fuel) ret_count ret_val s =
      let ack = not (s.config.params.is_ack_enabled == 0) in
      let send_return = lora.send ack s.send_buffer s.send_buffer_size ret_count in
      let ret_val' = ret_val && not (is_fatal send_return) in
      let again = transmit_loop lora fuel (ret_count + 1) ret_val' s in
      if is_no_error send_return
      then finished ret_count ret_val' (on_success lora s)
      else if ltb s.config.params.repeat_count (ret_count + 1)
      then finished (ret_count + 1) false (done s)
      else again

  -- The result is what `transmit` returns. A repeat count is a `uint8_t`, so 257 rounds are enough.
  unfoldable pub transmit : LoRaBee → Sketch → Run (Sketch × Bool)
  transmit lora s =
      if s.is_lora_initialized then transmit_loop lora 257 0 true s else finished 0 true (done s)
