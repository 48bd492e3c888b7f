-- ===== src/Wan/Act/AliveMessage.antt =====
-- The alive message of `CheckAndAct`, and what becomes of it.
use mathlib.Core.List.{foldl, append_assoc, append-nil}
use docker_applications.Common.{
  ℕ, ◌+◌, ◌≤◌, ◌<◌, ◌≡◌, ap, ap₂, ◌∙◌, ◌%◌, ◌^◌, Bool, true, none, some, List, [], ◌∷◌, ◌++◌,
  length, length-append, ltb, if◌then◌else◌, Bool-cases, inl, inr, arith,
}
use docker_applications.Common.Memory.{splice}
use docker_applications.Sensor.{SensorReading, Nanopb, write_reading, value_or_error, with_id}
use docker_applications.Sensor.Stream.{
  Encodes, reading_bytes, Holds, Holds-from_buffer, encode-Holds,
}
use docker_applications.Tracker.Readings.{with_value}
use docker_applications.Tracker.Transmit.{done}
use docker_applications.Tracker.Messages.Alive.{on_wire}
use docker_applications.Wan.Alive.{reset_time_passed}
use docker_applications.Wan.Hal.{Hal, Radio, set_num_tx_retries, send_message}
use docker_applications.Wan.Hal.Sending.{first_success, counts, after_attempts, send_message_lem}
use docker_applications.Wan.Readings.{
  Instruments, tempsensor_callback, humsensor_callback, voltsensor_callback, currentsensor_callback,
  chargesensor_callback, retriessensor_callback,
}
use docker_applications.Wan.Act.{
  Node, World, Message, encode_reading, send_if, send, alive_message, act_on_time,
}

abbrev pub temperature : Instruments → SensorReading
temperature d = value_or_error d.htu_is_valid d.htu_temp (with_id 2)

-- Those behind the temperature, before the given ones.
abbrev pub further_readings : Instruments → List SensorReading → List SensorReading
further_readings d rest =
    value_or_error d.htu_is_valid d.htu_hum (with_id 3)
    ∷ value_or_error d.ltc_is_valid d.ltc_voltage (with_id 4)
    ∷ value_or_error d.ltc_is_valid d.ltc_current (with_id 5)
    ∷ value_or_error d.ltc_is_valid d.ltc_charge (with_id 6)
    ∷ rest

-- The readings of an alive message, in order; the retries only if there were any.
abbrev pub readings : Instruments → ℕ → List SensorReading
readings d num_tx_retries =
    temperature d
    ∷ further_readings d
        (if ltb 0 num_tx_retries then with_value (with_id 8) num_tx_retries ∷ [] else [])

module _ (pb : Nanopb) (enc : Encodes pb) where
  open pb use {from_buffer, buffer}

  -- The message is `bs`, written at the start of `b`.
  pub record IsMessage (b bs : List ℕ) (m : Message pb) : Type 0 where
    pub held : Holds pb enc b bs m.0
    pub counted : m.1 ≡ some (length bs)

  pub encode_reading-IsMessage :
      (b bs : List ℕ) (r : SensorReading) (m : Message pb)
      → Holds pb enc b bs m.0
      → length bs + length (reading_bytes pb enc r) ≤ length b
      → IsMessage b (bs ++ reading_bytes pb enc r) (encode_reading pb (write_reading pb r) m)
  unfolding encode_reading
  encode_reading-IsMessage b bs r m h room =
      let (ok, held) = encode-Holds pb enc b bs r m.0 h room in
      record { held = held; counted = rw ok (ap some held.position) }

  abbrev encode_readings : List SensorReading → Message pb → Message pb
  encode_readings rs m = foldl (λ g r. encode_reading pb (write_reading pb r) g) m rs

  encode_readings-IsMessage :
      (b bs : List ℕ) (rs : List SensorReading) (m : Message pb)
      → IsMessage b bs m
      → length bs + length (on_wire pb enc rs) ≤ length b
      → IsMessage b (bs ++ on_wire pb enc rs) (encode_readings rs m)
  encode_readings-IsMessage b bs [] m h room = rw (append-nil bs) h
  encode_readings-IsMessage b bs (r ∷ rs) m h room =
      let bytes = reading_bytes pb enc r in
      let longer = length-append bytes (on_wire pb enc rs) in
      let longer' = length-append bs bytes in
      rw (← append_assoc bs bytes (on_wire pb enc rs)) (
        encode_readings-IsMessage b (bs ++ bytes) rs (encode_reading pb (write_reading pb r) m)
          (encode_reading-IsMessage b bs r m h.held (omega arith)) (omega arith))

  filled :
      (b : List ℕ) (r : SensorReading) (rs : List SensorReading)
      → length (on_wire pb enc (r ∷ rs)) ≤ length b
      → IsMessage b (on_wire pb enc (r ∷ rs)) (encode_readings (r ∷ rs) (from_buffer b, none))
  filled b r rs room =
      let bytes = reading_bytes pb enc r in
      let whole = length-append bytes (on_wire pb enc rs) in
      encode_readings-IsMessage b bytes rs
        (encode_reading pb (write_reading pb r) (from_buffer b, none))
        (encode_reading-IsMessage b [] r (from_buffer b, none) (Holds-from_buffer pb enc b)
          (omega arith))
        (omega arith)

  pub alive_message-IsMessage :
      (d : Instruments) (num_tx_retries : ℕ) (b : List ℕ)
      → length (on_wire pb enc (readings d num_tx_retries)) ≤ length b
      → IsMessage b
          (on_wire pb enc (readings d num_tx_retries))
          (alive_message pb d num_tx_retries b)
  unfolding alive_message tempsensor_callback humsensor_callback voltsensor_callback
      currentsensor_callback chargesensor_callback retriessensor_callback
  alive_message-IsMessage d num_tx_retries b room = elim (Bool-cases (ltb 0 num_tx_retries)) [
    | inl some_retries ↦ rw some_retries (
        filled b (temperature d) (further_readings d (with_value (with_id 8) num_tx_retries ∷ []))
          (rw some_retries at room))
    | inr no_retries ↦
        rw no_retries (filled b (temperature d) (further_readings d []) (rw no_retries at room))
  ]

  -- Sending a message of less than 256 bytes, from a node that is initialised.
  abbrev pub sent : Radio → Hal → List ℕ → List ℕ → Hal × Bool
  sent radio h b bs =
      after_attempts h
        (counts (first_success (radio h.is_ack_active (splice 0 bs b) (length bs)) 6 0))

  pub send-IsMessage :
      (radio : Radio) (h : Hal) (b bs : List ℕ) (m : Message pb)
      → IsMessage b bs m
      → length b < 256
      → h.is_hal_initialized ≡ true
      → send pb radio m h ≡ done (sent radio h b bs)
  unfolding send
  send-IsMessage radio h b bs m msg small on =
      let fits : length bs % 2 ^ 8 ≡ length bs = omega (arith, msg.held.inside) in
      ap (λ n. send pb radio (m.0, n) h) msg.counted
      ∙ ap₂ (λ xs n. send_message radio xs n h) msg.held.content fits
      ∙ send_message_lem radio (splice 0 bs b) (length bs) h on

  -- The node once the alive message was sent.
  abbrev pub after_alive : Node → Hal × Bool → Node
  after_alive n result = record n {
    hal = if result.1 then set_num_tx_retries 0 result.0 else result.0;
    alive = reset_time_passed n.alive;
  }

  -- With an encoder that does what its documentation says, a node that is initialised and a buffer
  -- of less than 256 bytes in which the readings fit: when the alive time has passed, the message
  -- that is sent, up to six times, is the readings of all sensors and the retries counted before,
  -- if there were any. The flag is reset. If the message was sent with no fatal error the retries
  -- are set to 0, those of this very message too; otherwise they are counted.
  pub act_on_time_lem :
      (radio : Radio) (d : Instruments) (w : World) (n : Node)
      → n.alive.time_passed ≡ true
      → n.hal.is_hal_initialized ≡ true
      → length (on_wire pb enc (readings d n.hal.num_tx_retries)) ≤ length w.alive_buf
      → length w.alive_buf < 256
      → act_on_time pb radio d w n
        ≡ done (
            after_alive n
              (sent radio n.hal w.alive_buf (on_wire pb enc (readings d n.hal.num_tx_retries))))
  unfolding act_on_time
  act_on_time_lem radio d w n passed on room small =
      ap
        (λ b.
          send_if b (send pb radio (alive_message pb d n.hal.num_tx_retries w.alive_buf) n.hal)
            (after_alive n) n)
        passed
      ∙ ap (λ r. send_if true r (after_alive n) n)
          (send-IsMessage radio n.hal w.alive_buf (on_wire pb enc (readings d n.hal.num_tx_retries))
            (alive_message pb d n.hal.num_tx_retries w.alive_buf)
            (alive_message-IsMessage d n.hal.num_tx_retries w.alive_buf room) small on)
