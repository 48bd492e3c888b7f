-- ===== src/Tests/Receiver.antt =====
-- The GPS receiver as it is switched on.
use docker_applications.Common.{
  ℕ, ◌+◌, ◌≡◌, refl, Bool, true, false, none, some, [], ◌∷◌, length, replicate, arith,
}
use docker_applications.Tracker.Acquire.Bus.{acquire_bus}
use docker_applications.Tracker.Acquire.NoFunction.{Fruitless, acquire_bus-Fruitless}
use docker_applications.Tracker.Acquire.SwitchOn.{answers}
use docker_applications.Tracker.GpsActive.{Gps, set_gps_active}
use docker_applications.Tracker.GpsActive.Configured.{
  question, port_message, rate_message, IsIdle, set_gps_active-configures,
}
use docker_applications.Tracker.NavPvt.{NavPvt}
use docker_applications.Ublox.{UBlox}
use docker_applications.Tests.Data.{listening, rtc_zero, rtc_zero-IsRtc}
use docker_applications.Tests.Air.{ready, bus_rounds, solution_rounds, decoded}

-- A receiver whose parser was left in the middle of a packet; the sketch counts solutions.
abbrev asleep : Gps ℕ
asleep = record { enabled = false; parser = record listening { state_ = 5 }; func_nav_pvt = none }

-- A port configuration of 20 bytes of 3; the first message is acknowledged and the second refused.
set_gps_active-configures_example :
    (v : UBlox) × (set_gps_active
        (λ (nav : NavPvt) n. some (n + 1))
        (answers (replicate 20 3) 1 0)
        (replicate 20 0)
        true
        asleep
        7
      ≡ some (
        question ∷ port_message (replicate 20 3) ∷ rate_message ∷ [],
        record {
          enabled = true;
          parser = v;
          func_nav_pvt = some (λ (nav : NavPvt) n. some (n + 1));
        },
        7,
      ))
    × IsIdle v
    × (length v.payload_buffer ≡ 100)
set_gps_active-configures_example =
    set_gps_active-configures (λ (nav : NavPvt) n. some (n + 1)) asleep 3 (replicate 19 3)
      (replicate 20 0) 7 1 0 (omega arith) refl refl refl refl refl

-- A solution after 20 seconds of a search of 15.
acquire_bus-Fruitless_example :
    Fruitless Bool rtc_zero rtc_zero-IsRtc 1000000000 20 ready.tracking
      (acquire_bus rtc_zero none 15 bus_rounds 1000000000 listening ready.tracking)
acquire_bus-Fruitless_example =
    acquire_bus-Fruitless Bool rtc_zero rtc_zero-IsRtc 15 bus_rounds solution_rounds 1000000000
      listening ready.tracking (omega arith) (omega arith, omega arith) decoded (omega arith)
      (omega arith) (omega arith)
