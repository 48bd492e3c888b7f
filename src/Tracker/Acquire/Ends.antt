-- ===== src/Tracker/Acquire/Ends.antt =====
-- The time that the search on the bytes of the bus takes.
use docker_applications.Common.{ℕ, ◌+◌, ◌-◌, ◌^◌, ◌≤◌, ◌<◌, ◌≡◌, sym, subst, some, List}
use docker_applications.Tracker.Acquire.{Round}
use docker_applications.Tracker.Acquire.Bus.{
  BusRound, decode, delegate, acquire_bus, acquire_bus-acquire,
}
use docker_applications.Tracker.Acquire.TimeOut.{
  duration, seconds, time_until, Timely, searched, EndsAt, acquire-EndsAt,
}
use docker_applications.Tracker.NavPvt.{Rtc, IsRtc, IsRtcTime, Tracking}
use docker_applications.Ublox.{UBlox}

module _ (Timer : Type 0) (rtc : Rtc Timer) (law : IsRtc rtc) where
  -- With a clock that works from 2000 to 2038, a parser that no byte makes fault, solutions whose times
  -- keep the clock in that range, at most one in each round, and a search that is not yet over: if the
  -- rounds last longer than what is left of the time-out, and not 2 ^ 32 seconds, the loop ends within
  -- them. It ends with a fix within the time-out, with an overflow or an access out of bounds, or
  -- without a fix at the first round at which more than the time-out has gone by, to the second: a
  -- correction of the clock neither prolongs nor shortens the search.
  pub acquire_bus-EndsAt :
      (timeout : ℕ) (rs : List BusRound) (rounds : List Round) (start : ℕ) (u : UBlox)
      → (s : Tracking Timer) → start < 2 ^ 32
      → decode rs u ≡ some rounds
      → IsRtcTime (duration rounds) s.epoch
      → Timely rounds
      → searched start s ≤ timeout
      → timeout < searched start s + duration rounds
      → searched start s + duration rounds < 2 ^ 32
      → EndsAt timeout
          (searched start s + time_until (timeout - searched start s) (seconds rounds))
          (acquire_bus rtc (some (delegate rtc)) timeout rs start u s)
  acquire_bus-EndsAt timeout rs rounds start u s hs decodes he timely open_yet long short =
      subst
        (EndsAt timeout
          (searched start s + time_until (timeout - searched start s) (seconds rounds)))
        (sym (acquire_bus-acquire rtc timeout rs rounds start u s decodes))
        (acquire-EndsAt Timer rtc law timeout rounds start s hs he timely open_yet long short)
