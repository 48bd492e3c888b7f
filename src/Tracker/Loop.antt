-- ===== src/Tracker/Loop.antt =====
-- `loop` and `systemSleep` of nodes/SodaqOneDevice/SodaqOneDevice.ino with the interrupt handlers:
-- which events one round serves. An interrupt can arrive while an event is served; those that
-- do are an argument. The watchdog and what is printed are left out.
pub mod Events
use mathlib.Core.List.{foldl}
use docker_applications.Common.{
  ℕ, Bool, true, false, not, ◌&&◌, ◌||◌, List, [], ◌∷◌, ◌++◌, if◌then◌else◌,
}

-- The flags that the interrupt handlers set.
pub record Flags : Type 0 where
  pub minute_flag : Bool
  pub switch1_flag : Bool
  pub switch2_flag : Bool
  pub accel1_flag : Bool
  pub accel2_flag : Bool

pub data Interrupt : Type 0 where
  rtc_minute_alarm switch1_pressed switch2_pressed accel1_moved accel2_moved : Interrupt

-- `rtcMinuteAlarmHandler`, `switch1Handler`, `switch2Handler`, `accel1Handler`, `accel2Handler`
abbrev pub handler : Flags → Interrupt → Flags
handler f rtc_minute_alarm = record f { minute_flag = true }
handler f switch1_pressed = record f { switch1_flag = true }
handler f switch2_pressed = record f { switch2_flag = true }
handler f accel1_moved = record f { accel1_flag = true }
handler f accel2_moved = record f { accel2_flag = true }

unfoldable pub handlers : Flags → List Interrupt → Flags
handlers f is = foldl handler f is

pub data LedColor : Type 0 where
  dark red green blue : LedColor

pub data Action : Type 0 where
  set_led_color : LedColor → Action
  get_switch_data_and_transmit : ℕ → Action
  get_move_data_and_transmit check_powerloss update_timer wait_for_interrupt : Action

-- The interrupts that arrive while each event is served.
pub record Arrivals : Type 0 where
  pub in_switch1 : List Interrupt
  pub in_switch2 : List Interrupt
  pub in_move : List Interrupt
  pub in_minute : List Interrupt

pub record Enabled : Type 0 where
  pub is_gps_enabled : Bool
  pub is_led_enabled : Bool
  pub is_dbg_enabled : Bool

-- The flags, and what was done, in order.
abbrev pub Round : Type 0
Round = Flags × List Action

abbrev pub led : Enabled → LedColor → List Action
led e color = if e.is_led_enabled then set_led_color color ∷ [] else []

unfoldable pub serve_switch1 : Enabled → List Interrupt → Round → Round
unfolding handlers
serve_switch1 e is (f, done) =
    if f.switch1_flag
    then (
      record (handlers f is) { switch1_flag = false },
      done ++ (led e red ++ (get_switch_data_and_transmit 1 ∷ [])),
    )
    else (f, done)

unfoldable pub serve_switch2 : Enabled → List Interrupt → Round → Round
unfolding handlers
serve_switch2 e is (f, done) =
    if f.switch2_flag
    then (
      record (handlers f is) { switch2_flag = false },
      done ++ (led e green ++ (get_switch_data_and_transmit 2 ∷ [])),
    )
    else (f, done)

unfoldable pub serve_move : Enabled → List Interrupt → Round → Round
unfolding handlers
serve_move e is (f, done) =
    if f.accel1_flag || f.accel2_flag
    then (
      record (handlers f is) { accel1_flag = false; accel2_flag = false },
      done ++ (led e green ++ (get_move_data_and_transmit ∷ [])),
    )
    else (f, done)

unfoldable pub serve_minute : Enabled → List Interrupt → Round → Round
unfolding handlers
serve_minute e is (f, done) =
    if f.minute_flag
    then (
      record (handlers f is) { minute_flag = false },
      done
          ++ (led e blue
              ++ ((if not e.is_gps_enabled then check_powerloss ∷ [] else [])
                  ++ (update_timer ∷ []))),
    )
    else (f, done)

-- `systemSleep`; the watchdog's flag is `sodaq_wdt_flag`.
unfoldable pub system_sleep : Enabled → Bool → Round → Round
system_sleep e sodaq_wdt_flag (f, done) = (
  f,
  done
      ++ (set_led_color dark
          ∷ (if not e.is_dbg_enabled
                && not (sodaq_wdt_flag || (f.minute_flag || (f.switch1_flag || f.switch2_flag)))
              then wait_for_interrupt ∷ []
              else [])),
)

unfoldable pub loop : Enabled → Arrivals → Flags → Round
unfolding serve_switch1 serve_switch2 serve_move serve_minute system_sleep
loop e a f =
    let start : Round = (f, []) in
    let served =
      if not e.is_gps_enabled
      then serve_move e a.in_move
          (serve_switch2 e a.in_switch2 (serve_switch1 e a.in_switch1 start))
      else start in
    system_sleep e false (serve_minute e a.in_minute served)
