-- ===== src/Tests/Ends.antt =====
-- The time of a search that sets the clock, on the bytes of the bus.
use mathlib.Core.Option.{some-injective}
use docker_applications.Common.{ℕ, ◌≡◌, refl, Bool, some, List, [], ◌∷◌, length, replicate, arith}
use docker_applications.Calendar.Local.{mktime}
use docker_applications.Tracker.Acquire.{Round}
use docker_applications.Tracker.Acquire.Bus.{BusRound, decode, delegate, acquire_bus}
use docker_applications.Tracker.Acquire.Ends.{acquire_bus-EndsAt}
use docker_applications.Tracker.Acquire.Found.{solution_frame, solution_of}
use docker_applications.Tracker.Acquire.TimeOut.{EndsAt}
use docker_applications.Tracker.NavPvt.Clock.{IsDated}
use docker_applications.Ublox.Receiver.{nav_pvt, get_periodic}
use docker_applications.Ublox.Receiver.Collect.{collect}
use docker_applications.Ublox.Receiver.Solution.{get_periodic-send}
use docker_applications.Tests.Data.{listening, rtc_zero, rtc_zero-IsRtc}
use docker_applications.Tests.Air.{ready}

-- The payload of a solution with the time but no fix, 1st January 2016, behind its first byte.
abbrev time_payload : List ℕ
time_payload = 0 ∷ 0 ∷ 0 ∷ 0xE0 ∷ 7 ∷ 1 ∷ 1 ∷ 0 ∷ 0 ∷ 0 ∷ 3 ∷ replicate 80 0

-- Two quiet rounds, one that sets the clock, and two more.
abbrev bus_rounds : List BusRound
bus_rounds =
    record { elapsed = 10; bytes = [] }
    ∷ record { elapsed = 10; bytes = solution_frame (0 ∷ time_payload) }
    ∷ record { elapsed = 10; bytes = [] }
    ∷ record { elapsed = 10; bytes = [] }
    ∷ []

abbrev rounds : List Round
rounds =
    record { elapsed = 10; bytes = 0; solutions = [] }
    ∷ record {
      elapsed = 10;
      bytes = length (solution_frame (0 ∷ time_payload));
      solutions = solution_of listening (0 ∷ time_payload) ∷ [];
    }
    ∷ record { elapsed = 10; bytes = 0; solutions = [] }
    ∷ record { elapsed = 10; bytes = 0; solutions = [] }
    ∷ []

decoded : decode bus_rounds listening ≡ some rounds
unfolding get_periodic
decoded =
    rw (get_periodic-send collect listening 0 time_payload [] refl refl (omega arith) (omega arith))
      refl

time-IsDated : IsDated 20 (solution_of listening (0 ∷ time_payload))
unfolding mktime nav_pvt
time-IsDated m valid made =
    let is : 1451606400 ≡ m = some-injective _ m made in (omega arith, omega arith)

-- The clock is set from 2001 to 2016, and the search of 30 seconds ends after 40.
acquire_bus-EndsAt_example : EndsAt 30 40 (
    acquire_bus rtc_zero
      (some (delegate rtc_zero))
      30
      bus_rounds
      1000000000
      listening
      ready.tracking)
acquire_bus-EndsAt_example =
    acquire_bus-EndsAt Bool rtc_zero rtc_zero-IsRtc 30 bus_rounds rounds 1000000000 listening
      ready.tracking (omega arith) decoded (omega arith, omega arith)
      (omega arith, tt, (omega arith, (time-IsDated, tt), (omega arith, tt, (omega arith, tt, tt))))
      (omega arith) (omega arith) (omega arith)
