-- ===== src/Wan/Act/Messages.antt =====
-- The messages of a switch and of a movement, and that a round of `CheckAndAct` comes to an end.
use docker_applications.Common.{
  ℕ, ◌≤◌, ◌<◌, ◌≡◌, ap, ◌∙◌, Bool, true, none, List, [], length, arith,
}
use docker_applications.Sensor.{SensorReading, Nanopb, with_id, write_reading}
use docker_applications.Sensor.Stream.{Encodes, reading_bytes, Holds-from_buffer}
use docker_applications.Switch.{is_changed, read_state}
use docker_applications.Tracker.Readings.{with_value}
use docker_applications.Tracker.Transmit.{done}
use docker_applications.Wan.Alive.{set_current_time}
use docker_applications.Wan.Hal.{Hal, Radio}
use docker_applications.Wan.Readings.{switchsensor_callback, movesensor_callback}
use docker_applications.Wan.Act.{
  Node, World, send_if, send, encode_reading, not_moved, act_on_switch, act_on_movement,
}
use docker_applications.Wan.Act.AliveMessage.{encode_reading-IsMessage, send-IsMessage, sent}

module _ (pb : Nanopb) (enc : Encodes pb) (radio : Radio) (w : World) where
  open pb use {from_buffer}

  one_reading :
      (r : SensorReading) (h : Hal) (b : List ℕ)
      → length (reading_bytes pb enc r) ≤ length b
      → length b < 256
      → h.is_hal_initialized ≡ true
      → send pb radio (encode_reading pb (write_reading pb r) (from_buffer b, none)) h
        ≡ done (sent pb enc radio h b (reading_bytes pb enc r))
  one_reading r h b room small on =
      send-IsMessage pb enc radio h b (reading_bytes pb enc r)
        (encode_reading pb (write_reading pb r) (from_buffer b, none))
        (encode_reading-IsMessage pb enc b [] r (from_buffer b, none) (Holds-from_buffer pb enc b)
          (omega arith))
        small on

  -- The reading of the switch after `isChanged`.
  abbrev pub switch_reading : Node → SensorReading
  switch_reading n = with_value (with_id 1) (read_state (is_changed n.micro_switch).1)

  -- The node once the message of the switch was sent.
  abbrev pub after_switch : Node → Hal × Bool → Node
  after_switch n result = record n {
    hal = result.0;
    micro_switch = (is_changed n.micro_switch).1;
    alive = set_current_time w.switch_millis n.alive;
  }

  -- With an encoder that does what its documentation says, a node that is initialised and a buffer
  -- of less than 256 bytes in which the reading fits: when the switch has changed, its state is
  -- sent with the id 1, up to six times, and the alive time starts anew.
  pub act_on_switch_lem :
      (n : Node)
      → (is_changed n.micro_switch).0 ≡ true
      → n.hal.is_hal_initialized ≡ true
      → length (reading_bytes pb enc (switch_reading n)) ≤ length w.switch_buf
      → length w.switch_buf < 256
      → act_on_switch pb radio w n
        ≡ done (
            after_switch n
              (sent pb enc radio n.hal w.switch_buf (reading_bytes pb enc (switch_reading n))))
  unfolding act_on_switch switchsensor_callback
  act_on_switch_lem n changed on room small =
      let idle : Node = record n { micro_switch = (is_changed n.micro_switch).1 } in
      ap
        (λ b.
          send_if b
            (send pb radio
              (encode_reading pb (write_reading pb (switch_reading n))
                (from_buffer w.switch_buf, none))
              n.hal)
            (after_switch n) idle)
        changed
      ∙ ap (λ r. send_if true r (after_switch n) idle)
          (one_reading (switch_reading n) n.hal w.switch_buf room small on)

  abbrev pub move_reading : SensorReading
  move_reading = with_value (with_id 7) 1

  abbrev pub after_movement : Node → Hal × Bool → Node
  after_movement n result = record n {
    hal = not_moved result.0;
    alive = set_current_time w.move_millis n.alive;
  }

  -- With an encoder that does what its documentation says, a node that is initialised and a buffer
  -- of less than 256 bytes in which the reading fits: when a movement is noted, it is sent with the
  -- id 7, up to six times, is no longer noted, and the alive time starts anew.
  pub act_on_movement_lem :
      (n : Node)
      → n.hal.compass.has_moved ≡ true
      → n.hal.is_hal_initialized ≡ true
      → length (reading_bytes pb enc move_reading) ≤ length w.move_buf
      → length w.move_buf < 256
      → act_on_movement pb radio w n
        ≡ done (
            after_movement n
              (sent pb enc radio n.hal w.move_buf (reading_bytes pb enc move_reading)))
  unfolding act_on_movement movesensor_callback
  act_on_movement_lem n moved on room small =
      ap
        (λ b.
          send_if b
            (send pb radio
              (encode_reading pb (write_reading pb move_reading) (from_buffer w.move_buf, none))
              n.hal)
            (after_movement n) n)
        moved
      ∙ ap (λ r. send_if true r (after_movement n) n)
          (one_reading move_reading n.hal w.move_buf room small on)
