-- ===== src/Switch.antt =====
-- nodes/SodaqOneDevice/Switch.cpp and nodes/SodaqWAN/Switch.cpp: a switch with a software debounce.
-- What `digitalRead` returns is an argument. Messages are left out.
pub mod Debounce
use docker_applications.Common.{
  ℕ, zero, suc, ◌+◌, ◌-◌, ◌*◌, ◌≤◌, ◌<◌, ◌≡◌, ◌≢◌, refl, ◌∙◌, Bool, true, false, ◌&&◌, not, Option,
  none, some, List, [], ◌∷◌, replicate, ltb, leb, ◌==◌, if◌then◌else◌, arith,
}

-- `input_pin` is `none` for -1; the initial values are those of Switch.h.
pub record Switch : Type 0 where
  pub counter : ℕ
  pub reading : ℕ
  pub current_state : ℕ
  pub input_pin : Option ℕ
  pub switch_state : ℕ
  pub switch_old_state : ℕ

abbrev pub debounce_count : ℕ
debounce_count = 3

abbrev pub read_state : Switch → ℕ
read_state s = s.current_state

-- The two tests that count, and the one that switches.
abbrev pub counted : ℕ → Switch → ℕ
counted level s =
    let fewer = if level == s.current_state && ltb 0 s.counter then s.counter - 1 else s.counter in
    if not (level == s.current_state) then fewer + 1 else fewer

unfoldable pub update : ℕ → Switch → Switch
update level s = elim s.input_pin [
  | none ↦ s
  | some pin ↦
      if leb debounce_count (counted level s)
      then record s { reading = level; counter = 0; current_state = level }
      else record s { reading = level; counter = counted level s }
]

unfoldable pub is_changed : Switch → Bool × Switch
is_changed s =
    if not (read_state s == s.switch_old_state)
    then (true, record s { switch_state = read_state s; switch_old_state = read_state s })
    else (false, record s { switch_state = read_state s })

unfoldable pub set_pin : Option ℕ → Switch → Switch
set_pin none s = s
set_pin (some pin) s = record s { input_pin = some pin }
