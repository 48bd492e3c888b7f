-- ===== src/Wan/Act/Settled.antt =====
-- One round of `CheckAndAct` leaves nothing to be done.
use docker_applications.Common.{
  ◌%◌, ◌^◌, ◌≡◌, refl, ap, subst, ◌∙◌, Bool, true, false, none, some, ◌==◌, if◌then◌else◌,
  Bool-cases, inl, inr, eq→==,
}
use docker_applications.Sensor.{Nanopb}
use docker_applications.Switch.{Switch, is_changed}
use docker_applications.Tracker.Transmit.{Run, done, fault, out_of_fuel}
use docker_applications.Wan.Hal.{Hal, Radio, set_num_tx_retries}
use docker_applications.Wan.Hal.Sending.{done-injective, send_message-compass}
use docker_applications.Wan.Readings.{Instruments}
use docker_applications.Wan.Act.{
  Message, Node, World, and_then, send_if, send, act_on_switch, act_on_movement, act_on_time,
  check_and_act,
}

is_changed-settles : (s : Switch) → is_changed (is_changed s).1 ≡ (false, (is_changed s).1)
unfolding is_changed
is_changed-settles s = elim (Bool-cases (s.current_state == s.switch_old_state)) [
  | inl e ↦ rw (e, e) refl
  | inr e ↦ rw (e, eq→== s.current_state s.current_state refl) refl
]

-- What holds after a block.
send_if-holds :
    (Q : Node → Type 0) (b : Bool) (sent : Run (Hal × Bool)) (after : Hal × Bool → Node)
    (idle n' : Node)
    → (b ≡ false → Q idle)
    → ((result : Hal × Bool) → sent ≡ done result → Q (after result))
    → send_if b sent after idle ≡ done n'
    → Q n'
send_if-holds Q true (done result) after idle n' rests acts h =
    subst Q (done-injective (after result) n' h) (acts result refl)
send_if-holds Q true fault after idle n' rests acts h = absurd (cc)
send_if-holds Q true out_of_fuel after idle n' rests acts h = absurd (cc)
send_if-holds Q false sent after idle n' rests acts h =
    subst Q (done-injective idle n' h) (rests refl)

-- Where two runs follow each other and end, so does the first.
pub and_then-done :
    (r : Run Node) (f : Node → Run Node) (n' : Node)
    → and_then r f ≡ done n'
    → (n : Node) × (r ≡ done n) × (f n ≡ done n')
and_then-done (done a) f b h = (a, refl, h)
and_then-done fault f b h = absurd (cc)
and_then-done out_of_fuel f b h = absurd (cc)

-- The switch has not changed, no movement is noted and the time has not passed.
pub record IsSettled (n : Node) : Type 0 where
  pub unchanged : is_changed n.micro_switch ≡ (false, n.micro_switch)
  pub still : n.hal.compass.has_moved ≡ false
  pub early : n.alive.time_passed ≡ false

module _ (pb : Nanopb) (radio : Radio) (d : Instruments) (w : World) where
  act_on_switch-done :
      (n n' : Node)
      → act_on_switch pb radio w n ≡ done n'
      → (is_changed n.micro_switch).1 ≡ n'.micro_switch
  unfolding act_on_switch
  act_on_switch-done n n' h =
      send_if-holds (λ t. (is_changed n.micro_switch).1 ≡ t.micro_switch) _ _ _ _ n' (λ _. refl)
        (λ _ _. refl) h

  act_on_movement-done :
      (n n' : Node)
      → act_on_movement pb radio w n ≡ done n'
      → (n.micro_switch ≡ n'.micro_switch) × (n'.hal.compass.has_moved ≡ false)
  unfolding act_on_movement
  act_on_movement-done n n' h =
      send_if-holds (λ t. (n.micro_switch ≡ t.micro_switch) × (t.hal.compass.has_moved ≡ false)) _ _
        _ _ n' (λ still. (refl, still)) (λ _ _. (refl, refl)) h

  -- Sending does not touch the compass.
  send-compass :
      (m : Message pb) (h : Hal) (result : Hal × Bool)
      → send pb radio m h ≡ done result
      → result.0.compass ≡ h.compass
  unfolding send
  send-compass (s, none) h result e = absurd (cc)
  send-compass (s, some n) h result e =
      send_message-compass radio (pb.buffer s) (n % 2 ^ 8) h result e

  reset-compass :
      (b : Bool) (h : Hal) → (if b then set_num_tx_retries 0 h else h).compass ≡ h.compass
  reset-compass true h = refl
  reset-compass false h = refl

  act_on_time-done :
      (n n' : Node)
      → act_on_time pb radio d w n ≡ done n'
      → (n.micro_switch ≡ n'.micro_switch)
        × (n'.hal.compass.has_moved ≡ n.hal.compass.has_moved)
        × (n'.alive.time_passed ≡ false)
  unfolding act_on_time
  act_on_time-done n n' h =
      send_if-holds
        (λ t.
          (n.micro_switch ≡ t.micro_switch)
          × (t.hal.compass.has_moved ≡ n.hal.compass.has_moved)
          × (t.alive.time_passed ≡ false))
        _ _ _ _ n' (λ early. (refl, refl, early))
        (λ result sent. (
          refl,
          ap (λ c. c.has_moved)
              (reset-compass result.1 result.0 ∙ send-compass _ n.hal result sent),
          refl,
        ))
        h

  -- Where `CheckAndAct` ends without an undefined length, the node is settled: the switch reads as
  -- unchanged, no movement is noted, and the alive time has not passed.
  pub check_and_act-IsSettled :
      (n n' : Node) → check_and_act pb radio d w n ≡ done n' → IsSettled n'
  unfolding check_and_act
  check_and_act-IsSettled n n' h =
      let (n1, first, rest) = and_then-done (act_on_switch pb radio w n) _ n' h in
      let (n2, second, third) = and_then-done (act_on_movement pb radio w n1) _ n' rest in
      let switch = act_on_switch-done n n1 first in
      let (switch', still) = act_on_movement-done n1 n2 second in
      let (switch'', moved, early) = act_on_time-done n2 n' third in
      record {
        unchanged =
            subst (λ s. is_changed s ≡ (false, s)) (switch ∙ switch' ∙ switch'')
              (is_changed-settles n.micro_switch);
        still = moved ∙ still;
        early = early;
      }

  -- A settled node does nothing: no message is sent and nothing changes.
  pub check_and_act_settled : (n : Node) → IsSettled n → check_and_act pb radio d w n ≡ done n
  unfolding check_and_act act_on_switch act_on_movement act_on_time
  check_and_act_settled n s = rw (s.unchanged, s.still, s.early) refl
