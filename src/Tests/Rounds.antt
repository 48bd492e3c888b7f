-- ===== src/Tests/Rounds.antt =====
-- The rounds of `loop` and the checks of the power on concrete values.
use docker_applications.Common.{◌≡◌, refl, true, false, List, [], ◌∷◌}
use docker_applications.Tracker.Loop.{Flags, Arrivals, switch1_pressed, accel1_moved, Enabled, loop}
use docker_applications.Tracker.Loop.Events.{
  quiet, count, is_switch_message, is_move_message, is_timer_update, loop-quiet, loop_lost_press,
}
use docker_applications.Tracker.Powerloss.Edges.{Check, checks, checks_lem}

abbrev all_raised : Flags
all_raised = record {
  minute_flag = true;
  switch1_flag = true;
  switch2_flag = true;
  accel1_flag = true;
  accel2_flag = true;
}

abbrev sensors : Enabled
sensors = record { is_gps_enabled = false; is_led_enabled = false; is_dbg_enabled = false }

abbrev positions : Enabled
positions = record sensors { is_gps_enabled = true }

loop-quiet_example :
    ((loop sensors quiet all_raised).0 ≡ record {
      minute_flag = false;
      switch1_flag = false;
      switch2_flag = false;
      accel1_flag = false;
      accel2_flag = false;
    })
    × (count (is_switch_message 1) (loop sensors quiet all_raised).1 ≡ 1)
    × (count (is_switch_message 2) (loop sensors quiet all_raised).1 ≡ 1)
    × (count is_move_message (loop sensors quiet all_raised).1 ≡ 1)
    × (count is_timer_update (loop sensors quiet all_raised).1 ≡ 1)
loop-quiet_example = loop-quiet sensors all_raised refl

-- Two presses and a movement while the message of switch 1 is sent.
abbrev pressed_again : Arrivals
pressed_again = record quiet { in_switch1 = switch1_pressed ∷ accel1_moved ∷ switch1_pressed ∷ [] }

loop_lost_press_example :
    ((loop sensors pressed_again all_raised).0.switch1_flag ≡ false)
    × (count (is_switch_message 1) (loop sensors pressed_again all_raised).1 ≡ 1)
loop_lost_press_example =
    loop_lost_press sensors all_raised (switch1_pressed ∷ accel1_moved ∷ switch1_pressed ∷ []) refl
      refl

-- Power, a loss whose message is not encoded, loss, power.
abbrev four_checks : List Check
four_checks = (true, true) ∷ (false, false) ∷ (false, true) ∷ (true, true) ∷ []

checks_lem_example :
    checks four_checks (record { powerloss_send = false; transmits = 5 })
    ≡ record { powerloss_send = false; transmits = 6 }
checks_lem_example = checks_lem four_checks true 5
