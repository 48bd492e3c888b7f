-- ===== src/Tracker/Loop/Events.antt =====
-- Which events a round of `loop` serves, leaves, and loses.
use docker_applications.Common.{
  ℕ, ◌+◌, ◌==◌, ◌≡◌, refl, Bool, not, ◌||◌, ◌&&◌, Bool-cases, inl, inr, if◌then◌else◌, true, false,
  List, [], ◌∷◌, ◌++◌, arith,
}
use docker_applications.Tracker.Loop.{
  Flags, Interrupt, switch1_pressed, Arrivals, Enabled, handlers, loop, serve_switch1,
  serve_switch2, serve_move, serve_minute, system_sleep, set_led_color,
  get_switch_data_and_transmit, get_move_data_and_transmit, check_powerloss, update_timer,
  wait_for_interrupt, Action, led, blue, dark,
}

abbrev pub quiet : Arrivals
quiet = record { in_switch1 = []; in_switch2 = []; in_move = []; in_minute = [] }

abbrev pub bit : Bool → ℕ
bit b = if b then 1 else 0

-- How many of the actions satisfy a test.
abbrev pub count : (Action → Bool) → List Action → ℕ
count test [] = 0
count test (x ∷ xs) = bit (test x) + count test xs

abbrev pub is_switch_message : ℕ → Action → Bool
is_switch_message n (get_switch_data_and_transmit k) = k == n
is_switch_message n (set_led_color c) = false
is_switch_message n get_move_data_and_transmit = false
is_switch_message n check_powerloss = false
is_switch_message n update_timer = false
is_switch_message n wait_for_interrupt = false

abbrev pub is_move_message : Action → Bool
is_move_message get_move_data_and_transmit = true
is_move_message (get_switch_data_and_transmit k) = false
is_move_message (set_led_color c) = false
is_move_message check_powerloss = false
is_move_message update_timer = false
is_move_message wait_for_interrupt = false

abbrev pub is_timer_update : Action → Bool
is_timer_update update_timer = true
is_timer_update get_move_data_and_transmit = false
is_timer_update (get_switch_data_and_transmit k) = false
is_timer_update (set_led_color c) = false
is_timer_update check_powerloss = false
is_timer_update wait_for_interrupt = false

count-append :
    (test : Action → Bool) (xs ys : List Action)
    → count test (xs ++ ys) ≡ count test xs + count test ys
count-append test [] ys = omega arith
count-append test (x ∷ xs) ys = omega (arith, count-append test xs ys)

-- With the GPS off, a round in which no interrupt arrives serves every event once: the message of each
-- switch that was pressed, that of a movement, and an update of the timer after a minute, and no
-- other of these; no flag is left.
pub loop-quiet :
    (e : Enabled) (f : Flags)
    → e.is_gps_enabled ≡ false
    → ((loop e quiet f).0 ≡ record {
      minute_flag = false;
      switch1_flag = false;
      switch2_flag = false;
      accel1_flag = false;
      accel2_flag = false;
    })
      × (count (is_switch_message 1) (loop e quiet f).1 ≡ bit f.switch1_flag)
      × (count (is_switch_message 2) (loop e quiet f).1 ≡ bit f.switch2_flag)
      × (count is_move_message (loop e quiet f).1 ≡ bit (f.accel1_flag || f.accel2_flag))
      × (count is_timer_update (loop e quiet f).1 ≡ bit f.minute_flag)
unfolding loop serve_switch1 serve_switch2 serve_move serve_minute system_sleep handlers
loop-quiet e f off = ground arith

-- With the GPS off and the flag of switch 1 set, whatever interrupts arrive while its message is sent,
-- presses of switch 1 among them: if none arrives later in the round, the round sends one message of
-- switch 1 and ends with its flag cleared. Those presses are lost.
pub loop_lost_press :
    (e : Enabled) (f : Flags) (is : List Interrupt)
    → e.is_gps_enabled ≡ false
    → f.switch1_flag ≡ true
    → ((loop e (record quiet { in_switch1 = is }) f).0.switch1_flag ≡ false)
      × (count (is_switch_message 1) (loop e (record quiet { in_switch1 = is }) f).1 ≡ 1)
unfolding loop serve_switch1 serve_switch2 serve_move serve_minute system_sleep handlers
loop_lost_press e f is off pressed = ground arith

-- With the GPS off, no press of switch 1 and a movement: a press of switch 1 that arrives while the message
-- of a movement is sent is kept for the next round.
pub loop_kept_press :
    (e : Enabled) (f : Flags)
    → e.is_gps_enabled ≡ false
    → f.switch1_flag ≡ false
    → (f.accel1_flag || f.accel2_flag) ≡ true
    → ((loop e (record quiet { in_move = switch1_pressed ∷ [] }) f).0.switch1_flag ≡ true)
      × (count (is_switch_message 1) (loop e (record quiet { in_move = switch1_pressed ∷ [] }) f).1
          ≡ 0)
unfolding loop serve_switch1 serve_switch2 serve_move serve_minute system_sleep handlers
loop_kept_press e f off unset moved = ground arith

sleeps :
    (d x : Bool)
    → (if not d && not x then wait_for_interrupt ∷ [] else [])
      ≡ (if d || x then [] else wait_for_interrupt ∷ [])
sleeps true x = refl
sleeps false true = refl
sleeps false false = refl

-- With the GPS on, in a round in which no interrupt arrives, the switches and the accelerometer are
-- not served: their flags stay, and no message is sent for them.
pub loop_gps :
    (e : Enabled) (f : Flags)
    → e.is_gps_enabled ≡ true
    → ((loop e quiet f).0 ≡ record f { minute_flag = false })
      × ((loop e quiet f).1
          ≡ (if f.minute_flag then led e blue ++ (update_timer ∷ []) else [])
            ++ (set_led_color dark
                ∷ (if e.is_dbg_enabled || (f.switch1_flag || f.switch2_flag)
                    then []
                    else wait_for_interrupt ∷ [])))
unfolding loop serve_minute system_sleep handlers
loop_gps e f on = elim (Bool-cases f.minute_flag) [
  | inl due ↦ rw (on, due, sleeps e.is_dbg_enabled (f.switch1_flag || f.switch2_flag)) (refl, refl)
  | inr idle ↦
      rw (on, idle, sleeps e.is_dbg_enabled (f.switch1_flag || f.switch2_flag)) (refl, refl)
]

-- The round sleeps although a movement is waiting, when that is all that waits.
pub system_sleep_movement :
    (e : Enabled) (f : Flags) (done : List Action)
    → e.is_dbg_enabled ≡ false
    → f.minute_flag ≡ false
    → f.switch1_flag ≡ false
    → f.switch2_flag ≡ false
    → f.accel1_flag ≡ true
    → system_sleep e false (f, done) ≡ (f, done ++ (set_led_color dark ∷ wait_for_interrupt ∷ []))
unfolding system_sleep
system_sleep_movement e f done dbg minute switch1 switch2 moved = rw (dbg, minute, switch1, switch2)
