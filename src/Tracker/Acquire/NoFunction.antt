-- ===== src/Tracker/Acquire/NoFunction.antt =====
-- The search for a fix while `ublox.funcNavPvt` is not set: since the start of the program the
-- receiver did not answer the question of `setGpsActive`.
use docker_applications.Common.{
  ℕ, ◌+◌, ◌-◌, ◌%◌, ◌^◌, ◌≤◌, ◌<◌, ◌≡◌, refl, ap, sym, subst, ◌∙◌, Bool, false, none, some, List,
  [], ◌∷◌, length, leb, ◌==◌, Bool-cases, inl, inr, arith, leb→le,
}
use mathlib.Core.Option.{some-injective}
use docker_applications.Tracker.NavPvt.{Rtc, IsRtc, IsRtcTime, NavPvt, Tracking}
use docker_applications.Tracker.NavPvt.Clock.{bind-some}
use docker_applications.Ublox.Receiver.Collect.{collect}
use docker_applications.Tracker.Acquire.{Round, tick, cleared}
use docker_applications.Tracker.Acquire.Bus.{BusRound, decode, no_bytes, acquire_bus}
use docker_applications.Tracker.Acquire.TimeOut.{
  searched, time_until, time_until-within, time_until-over, leb→gt, tick-since,
}
use docker_applications.Tracker.Transmit.{Run, done}
use docker_applications.Ublox.{UBlox, Answer, packet, negated, process}
use docker_applications.Ublox.Receiver.{dispatch_message, get_periodic}

module _ {S : Type 0} where
  dispatch_message-none : (a : Answer) (u : UBlox) (s : S) → dispatch_message none a u s ≡ some s
  unfolding dispatch_message
  dispatch_message-none (negated n) u s = refl
  dispatch_message-none (packet id) u s = elim (Bool-cases (id == 0x0107)) [
    | inl e ↦ rw e refl
    | inr e ↦ rw e refl
  ]

  -- The parser reads on, and nothing is done with what it finds.
  get_periodic-none :
      (bytes : List ℕ) (u : UBlox) (acc : List NavPvt) (found : UBlox × List NavPvt) (s : S)
      → get_periodic (some collect) bytes u acc ≡ some found
      → get_periodic none bytes u s ≡ some (found.0, s)
  unfolding get_periodic
  get_periodic-none [] u acc found s h =
      ap (λ (o : UBlox × List NavPvt). some (o.0, s)) (some-injective (u, acc) found h)
  get_periodic-none (c ∷ cs) u acc found s h =
      let (r, reads, more) = bind-some (process c u) _ found h in
      let (acc', adds, rest) =
        bind-some (dispatch_message (some collect) r.1 r.0 acc) _ found more in
      rw (reads, dispatch_message-none r.1 r.0 s) (get_periodic-none cs r.0 acc' found s rest)

-- The seconds of the rounds of a search.
abbrev pub bus_duration : List BusRound → ℕ
bus_duration [] = 0
bus_duration (r ∷ rs) = r.elapsed + bus_duration rs

abbrev pub bus_seconds : List BusRound → List ℕ
bus_seconds [] = []
bus_seconds (r ∷ rs) = r.elapsed ∷ bus_seconds rs

module _ (Timer : Type 0) (rtc : Rtc Timer) (law : IsRtc rtc) where
  -- A search without a fix, and without a change of the report, that takes `d` seconds.
  abbrev pub Fruitless : ℕ → ℕ → Tracking Timer → Run (Bool × ℕ × Tracking Timer) → Type 0
  Fruitless start d s run =
      (t : Tracking Timer) × (run ≡ done (false, start, t))
      × (t.pending ≡ s.pending)
      × (searched start t ≡ d)

  -- As long as there is no function for solutions, the search uses up its time-out and finds nothing,
  -- whatever solutions the receiver sends. With a clock that works from 2000 to 2038 and is there for
  -- the rounds, a parser that no byte makes fault, a search that is not yet over and rounds that last
  -- longer than what is left of the time-out, but not 2 ^ 32 seconds: the loop ends without a fix at
  -- the first round at which more than the time-out has gone by, its start is the one that it was, and
  -- the report holds what it did.
  pub acquire_bus-Fruitless :
      (timeout : ℕ) (rs : List BusRound) (rounds : List Round) (start : ℕ) (u : UBlox)
      → (s : Tracking Timer) → start < 2 ^ 32
      → IsRtcTime (bus_duration rs) s.epoch
      → decode rs u ≡ some rounds
      → searched start s ≤ timeout
      → timeout < searched start s + bus_duration rs
      → searched start s + bus_duration rs < 2 ^ 32
      → Fruitless start
          (searched start s + time_until (timeout - searched start s) (bus_seconds rs))
          s
          (acquire_bus rtc none timeout rs start u s)
  unfolding acquire_bus
  acquire_bus-Fruitless timeout [] rounds start u s hs he h open_yet long short =
      absurd (omega arith)
  acquire_bus-Fruitless timeout (r ∷ rs) rounds start u s hs he h open_yet long short =
      let (found, finds, more) = bind-some (get_periodic (some collect) r.bytes u []) _ rounds h in
      let (rest, decodes, made) = bind-some (decode rs found.0) _ rounds more in
      let now = tick rtc r.elapsed s in
      let past = searched start s in
      let (later, range, _) =
        tick-since Timer rtc law s start r.elapsed (bus_duration rs) hs he (omega arith) in
      elim (Bool-cases (leb (searched start now) timeout)) [
        | inr over ↦ (
          now,
          rw over refl,
          refl,
          later
              ∙ time_until-over timeout past r.elapsed (bus_seconds rs) open_yet
                  (omega (arith, later, leb→gt (searched start now) timeout over)),
        )
        | inl within ↦
            let left = leb→le (searched start now) timeout within in
            let again : (u' : UBlox) (t : Tracking Timer)
                → decode rs u' ≡ some rest
                → t.epoch ≡ now.epoch
                → Fruitless start (past + time_until (timeout - past) (bus_seconds (r ∷ rs))) t
                    (acquire_bus rtc none timeout rs start u' t) =
              λ u' t parsed same.
                let past' : searched start t ≡ past + r.elapsed =
                  ap (λ n. (n + 2 ^ 32 - start) % 2 ^ 32) same ∙ later in
                subst (λ d. Fruitless start d t (acquire_bus rtc none timeout rs start u' t))
                  (ap (λ n. n + time_until (timeout - n) (bus_seconds rs)) past'
                    ∙ time_until-within timeout past r.elapsed (bus_seconds rs)
                        (omega (arith, later)))
                  (acquire_bus-Fruitless timeout rs rest start u' t hs
                    (subst (λ n. IsRtcTime (bus_duration rs) n) (sym same) range) parsed
                    (omega (arith, past', later)) (omega (arith, past')) (omega (arith, past'))) in
            elim (Bool-cases (length r.bytes == 0)) [
              | inl quiet ↦
                  let (t, ends, kept, takes) =
                    again u now
                      (subst (λ (x : UBlox × List NavPvt). decode rs x.0 ≡ some rest)
                        (some-injective found (u, []) (sym finds ∙ no_bytes rtc r.bytes u quiet))
                        decodes)
                      refl in
                  (t, rw (within, quiet) ends, kept, takes)
              | inr some_bytes ↦
                  let (t, ends, kept, takes) = again found.0 (cleared rtc now) decodes refl in
                  let same : (start + 0) % 2 ^ 32 ≡ start = omega arith in
                  (
                    t,
                    rw
                        (
                          within,
                          some_bytes,
                          get_periodic-none r.bytes u [] found (cleared rtc now) finds,
                        )
                        (ap (λ n. acquire_bus rtc none timeout rs n found.0 (cleared rtc now)) same
                          ∙ ends),
                    kept,
                    takes,
                  )
            ]
      ]
