-- ===== src/Wan/Alive.antt =====
-- nodes/SodaqWAN/Alive.cpp and Alive.h: the timer of the alive messages. What `millis()` returns is
-- an argument; it wraps at 32 bits.
use docker_applications.Common.{
  ℕ, ◌+◌, ◌-◌, ◌<◌, ◌≡◌, refl, ◌%◌, ◌^◌, Bool, true, false, leb, if◌then◌else◌, arith,
}

pub record Alive : Type 0 where
  pub alive_frequency_millis : ℕ
  pub previous_millis : ℕ
  pub time_passed : Bool

unfoldable pub create : ℕ → ℕ → Alive
create frequency millis = record {
  alive_frequency_millis = frequency;
  previous_millis = millis;
  time_passed = false;
}

unfoldable pub set_current_time : ℕ → Alive → Alive
set_current_time millis a = record a { previous_millis = millis }

-- `Update`; `setCurrentTime` reads `millis()` again, which is `later`.
unfoldable pub update : ℕ → ℕ → Alive → Alive
unfolding set_current_time
update millis later a =
    if leb a.alive_frequency_millis ((millis + 2 ^ 32 - a.previous_millis) % 2 ^ 32)
    then record (set_current_time later a) { time_passed = true }
    else a

abbrev pub reset_time_passed : Alive → Alive
reset_time_passed a = record a { time_passed = false }

wrapped : (t d : ℕ) → t < 2 ^ 32 → d < 2 ^ 32 → ((t + d) % 2 ^ 32 + 2 ^ 32 - t) % 2 ^ 32 ≡ d
wrapped t d ht hd = omega arith

-- If the time was set at a value `t` of the 32-bit millisecond counter and less than 2 ^ 32 ms have
-- gone by, `Update` sets the flag and the time exactly if the period has gone by, also where the
-- counter wrapped in between; the time is what a second reading of the counter gives.
pub update-set_current_time :
    (a : Alive) (t d later : ℕ)
    → t < 2 ^ 32
    → d < 2 ^ 32
    → update ((t + d) % 2 ^ 32) later (set_current_time t a) ≡ (
        if leb a.alive_frequency_millis d
        then record a { previous_millis = later; time_passed = true }
        else set_current_time t a)
unfolding update set_current_time
update-set_current_time a t d later ht hd = rw (wrapped t d ht hd) refl
