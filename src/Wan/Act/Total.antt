-- ===== src/Wan/Act/Total.antt =====
-- A round of `CheckAndAct` of an initialised node comes to an end, and leaves the node settled.
use docker_applications.Common.{
  ℕ, ◌≤◌, ◌<◌, ◌≡◌, refl, ap, ◌∙◌, Bool, true, List, length, ltb, Bool-cases, inl, inr,
}
use docker_applications.Common.Memory.{splice}
use docker_applications.Sensor.{Nanopb}
use docker_applications.Sensor.Stream.{Encodes, reading_bytes}
use docker_applications.Switch.{is_changed}
use docker_applications.Tracker.Transmit.{done}
use docker_applications.Tracker.Messages.Alive.{on_wire}
use docker_applications.Wan.Hal.{Hal, Radio}
use docker_applications.Wan.Hal.Sending.{first_success, counts, after_attempts}
use docker_applications.Wan.Readings.{Instruments}
use docker_applications.Wan.Act.{
  Node, World, and_then, act_on_switch, act_on_movement, act_on_time, check_and_act,
}
use docker_applications.Wan.Act.AliveMessage.{readings, sent, act_on_time_lem}
use docker_applications.Wan.Act.Messages.{
  switch_reading, act_on_switch_lem, move_reading, act_on_movement_lem,
}
use docker_applications.Wan.Act.Settled.{IsSettled, check_and_act-IsSettled}

after_attempts-initialized :
    (h : Hal) (r : ℕ × Bool) → (after_attempts h r).0.is_hal_initialized ≡ h.is_hal_initialized
after_attempts-initialized h r = elim (Bool-cases (ltb 0 r.0)) [
  | inl retried ↦ rw retried refl
  | inr once ↦ rw once refl
]

module _ (pb : Nanopb) (enc : Encodes pb) (radio : Radio) (d : Instruments) (w : World) where
  -- The three buffers are of less than 256 bytes, and the messages fit.
  pub record Room (n : Node) : Type 0 where
    pub switch_fits :
        length (reading_bytes pb enc (switch_reading pb enc radio w n)) ≤ length w.switch_buf
    pub switch_small : length w.switch_buf < 256
    pub move_fits : length (reading_bytes pb enc (move_reading pb enc radio w)) ≤ length w.move_buf
    pub move_small : length w.move_buf < 256
    pub alive_fits :
        (retries : ℕ) → length (on_wire pb enc (readings d retries)) ≤ length w.alive_buf
    pub alive_small : length w.alive_buf < 256

  sent-initialized :
      (h : Hal) (b bs : List ℕ)
      → (sent pb enc radio h b bs).0.is_hal_initialized ≡ h.is_hal_initialized
  sent-initialized h b bs =
      after_attempts-initialized h
        (counts (first_success (radio h.is_ack_active (splice 0 bs b) (length bs)) 6 0))

  switch_ends :
      (n : Node)
      → Room n
      → n.hal.is_hal_initialized ≡ true
      → (n1 : Node) × (act_on_switch pb radio w n ≡ done n1) × (n1.hal.is_hal_initialized ≡ true)
  unfolding act_on_switch
  switch_ends n room on = elim (Bool-cases (is_changed n.micro_switch).0) [
    | inl changed ↦ (
      _,
      act_on_switch_lem pb enc radio w n changed on room.switch_fits room.switch_small,
      sent-initialized n.hal w.switch_buf (reading_bytes pb enc (switch_reading pb enc radio w n))
          ∙ on,
    )
    | inr same ↦ (record n { micro_switch = (is_changed n.micro_switch).1 }, rw same refl, on)
  ]

  movement_ends :
      (n : Node)
      → length (reading_bytes pb enc (move_reading pb enc radio w)) ≤ length w.move_buf
      → length w.move_buf < 256
      → n.hal.is_hal_initialized ≡ true
      → (n1 : Node) × (act_on_movement pb radio w n ≡ done n1) × (n1.hal.is_hal_initialized ≡ true)
  unfolding act_on_movement
  movement_ends n fits small on = elim (Bool-cases n.hal.compass.has_moved) [
    | inl moved ↦ (
      _,
      act_on_movement_lem pb enc radio w n moved on fits small,
      sent-initialized n.hal w.move_buf (reading_bytes pb enc (move_reading pb enc radio w)) ∙ on,
    )
    | inr still ↦ (n, rw still refl, on)
  ]

  time_ends :
      (n : Node)
      → length (on_wire pb enc (readings d n.hal.num_tx_retries)) ≤ length w.alive_buf
      → length w.alive_buf < 256
      → n.hal.is_hal_initialized ≡ true
      → (n1 : Node) × (act_on_time pb radio d w n ≡ done n1)
  unfolding act_on_time
  time_ends n fits small on = elim (Bool-cases n.alive.time_passed) [
    | inl passed ↦ (_, act_on_time_lem pb enc radio d w n passed on fits small)
    | inr early ↦ (n, rw early refl)
  ]

  -- With an encoder that does what its documentation says, a node that is initialised and buffers
  -- of less than 256 bytes in which the messages fit: whatever the LoRa module returns,
  -- `CheckAndAct` comes to an end without the use of an undefined length, and leaves the node
  -- settled: the switch reads as unchanged, no movement is noted, and the alive time has not passed.
  pub check_and_act_ends :
      (n : Node)
      → Room n
      → n.hal.is_hal_initialized ≡ true
      → (n' : Node) × (check_and_act pb radio d w n ≡ done n') × IsSettled n'
  unfolding check_and_act
  check_and_act_ends n room on =
      let (n1, first, on1) = switch_ends n room on in
      let (n2, second, on2) = movement_ends n1 room.move_fits room.move_small on1 in
      let (n3, third) = time_ends n2 (room.alive_fits n2.hal.num_tx_retries) room.alive_small on2 in
      let whole : check_and_act pb radio d w n ≡ done n3 =
        ap
          (λ r.
            and_then r
              (λ m. and_then (act_on_movement pb radio w m) (λ m'. act_on_time pb radio d w m')))
          first
        ∙ ap (λ r. and_then r (λ m'. act_on_time pb radio d w m')) second
        ∙ third in
      (n3, whole, check_and_act-IsSettled pb radio d w n n3 whole)
