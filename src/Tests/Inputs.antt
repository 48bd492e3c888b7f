-- ===== src/Tests/Inputs.antt =====
-- The GPS receiver and the switches on concrete values.
use docker_applications.Common.{◌+◌, ◌<◌, ◌≡◌, refl, none, some, [], ◌∷◌, replicate, arith}
use docker_applications.Ublox.{UBlox, null, packet, negated, receive_all, send}
use docker_applications.Ublox.Packet.{receive_all-send}
use docker_applications.Ublox.Overflow.{receive_all_too_long}
use docker_applications.Switch.{Switch}
use docker_applications.Switch.Debounce.{updates, updates_lem}

-- A receiver with a buffer of four bytes.
abbrev idle : UBlox
idle = record {
  state_ = 0;
  ck_a = 0;
  ck_b = 0;
  id_ = 0;
  acked_id = 0 ∷ 0 ∷ [];
  pl_length = 0;
  p = null;
  payload_length = 0;
  payload_buffer = replicate 4 0;
}

receive_all-send_example :
    (v : UBlox) × (receive_all (send (1 ∷ 7 ∷ 2 ∷ 0 ∷ 250 ∷ 9 ∷ [])) (negated 0) idle
      ≡ some (v, packet 0x107))
    × (v.state_ ≡ 0)
    × (v.payload_length ≡ 2)
    × (v.payload_buffer ≡ 250 ∷ 9 ∷ 0 ∷ 0 ∷ [])
    × (v.acked_id ≡ 0 ∷ 0 ∷ [])
receive_all-send_example =
    receive_all-send idle 1 7 250 (9 ∷ []) (negated 0) refl (omega arith) refl (omega arith)
      (omega arith)

receive_all_too_long_example :
    receive_all (send (1 ∷ 7 ∷ 5 ∷ 0 ∷ replicate 5 1)) (negated 0) idle ≡ none
receive_all_too_long_example =
    receive_all_too_long idle 1 7 (replicate 5 1) (negated 0) refl (omega arith) refl (omega arith)
      (omega arith)

-- A switch on pin 4 that has seen the new level once.
abbrev low : Switch
low = record {
  counter = 1;
  reading = 1;
  current_state = 0;
  input_pin = some 4;
  switch_state = 0;
  switch_old_state = 0;
}

updates_lem_example :
    (1 + 1 < 3 → ((updates 1 1 low).current_state ≡ 0) × ((updates 1 1 low).counter ≡ 2))
    × (1 + 2 ≡ 3 → updates 2 1 low ≡ record low { reading = 1; counter = 0; current_state = 1 })
    × ((updates 1 0 low).current_state ≡ 0)
    × ((updates 1 0 low).counter ≡ 0)
updates_lem_example = updates_lem 1 1 4 low refl (omega arith) (omega arith)
