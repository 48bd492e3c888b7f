-- ===== src/Tracker/Acquire/Bus.antt =====
-- The search of `getGpsFixAndTransmit` together with the parser of nodes/SodaqOneDevice/ublox.cpp:
-- each round reads the bytes that the GPS receiver has on the bus, and the parser gives the solutions
-- to `delegateNavPvt` as soon as they are complete.
use mathlib.Core.Option.{some-injective}
use docker_applications.Common.{
  ℕ, ◌+◌, ◌-◌, ◌%◌, ◌^◌, ◌≡◌, refl, ap, sym, subst, ◌∙◌, Bool, true, false, not, Option, none, some,
  ◌>>=◌, List, [], ◌∷◌, length, leb, ◌==◌, if◌then◌else◌, Bool-cases, inl, inr, arith,
}
use docker_applications.Config.{FlashStorage}
use docker_applications.Sensor.{Nanopb}
use docker_applications.Tracker.Acquire.{
  Board, Device, Round, deliver, delivered, tick, cleared, acquire, conclude,
}
use docker_applications.Tracker.NavPvt.{Rtc, NavPvt, Tracking, delegate_nav_pvt}
use docker_applications.Tracker.NavPvt.Clock.{bind-some}
use docker_applications.Tracker.Transmit.{LoRaBee, Run, done, fault, out_of_fuel}
use docker_applications.Ublox.{UBlox}
use docker_applications.Ublox.Receiver.{get_periodic}
use docker_applications.Ublox.Receiver.Collect.{collect, deliver_all, get_periodic-collect}

-- One round: the seconds since the round before, and the bytes that wait.
pub record BusRound : Type 0 where
  pub elapsed : ℕ
  pub bytes : List ℕ

-- The solutions among the bytes of the rounds.
abbrev pub decode : List BusRound → UBlox → Option (List Round)
decode [] u = some []
decode (r ∷ rs) u = get_periodic (some collect) r.bytes u [] >>= λ found.
    decode rs found.0 >>= λ rounds.
    some (record { elapsed = r.elapsed; bytes = length r.bytes; solutions = found.1 } ∷ rounds)

module _ {Timer : Type 0} (rtc : Rtc Timer) where
  abbrev on_bus :
      ℕ
      → (UBlox → ℕ → Tracking Timer → Run (Bool × ℕ × Tracking Timer))
      → Option (UBlox × Tracking Timer)
      → Run (Bool × ℕ × Tracking Timer)
  on_bus start again none = fault
  on_bus start again (some (u, t)) = delivered rtc start (again u) (some t)

  -- The function that `ublox.funcNavPvt` points to once `setGpsActive` has set it.
  abbrev pub delegate : NavPvt → Tracking Timer → Option (Tracking Timer)
  delegate v t = delegate_nav_pvt rtc v t

  -- The loop of `getGpsFixAndTransmit`, with the value of `ublox.funcNavPvt`.
  unfoldable pub acquire_bus :
      Option (NavPvt → Tracking Timer → Option (Tracking Timer))
      → ℕ
      → List BusRound
      → ℕ
      → UBlox
      → Tracking Timer
      → Run (Bool × ℕ × Tracking Timer)
  acquire_bus func_nav_pvt timeout [] start u s = out_of_fuel
  acquire_bus func_nav_pvt timeout (r ∷ rs) start u s =
      let now = tick rtc r.elapsed s in
      if not (leb ((now.epoch + 2 ^ 32 - start) % 2 ^ 32) timeout)
      then done (false, start, now)
      else if length r.bytes == 0
      then acquire_bus func_nav_pvt timeout rs start u now
      else on_bus start (λ u' start' t. acquire_bus func_nav_pvt timeout rs start' u' t)
          (get_periodic func_nav_pvt r.bytes u (cleared rtc now))

  deliver-deliver_all :
      (vs : List NavPvt) (s : Tracking Timer)
      → deliver_all (λ v t. delegate_nav_pvt rtc v t) vs s ≡ deliver rtc vs s
  unfolding deliver
  deliver-deliver_all [] s = refl
  deliver-deliver_all (v ∷ vs) s =
      elim (delegate_nav_pvt rtc v s)
        as (λ o.
          (o >>= λ t. deliver_all (λ v t. delegate_nav_pvt rtc v t) vs t)
          ≡ (o >>= λ t. deliver rtc vs t)) [ none ↦ refl | some t ↦ deliver-deliver_all vs t ]

  pub no_bytes :
      (bytes : List ℕ) (u : UBlox)
      → (length bytes == 0) ≡ true
      → get_periodic (some collect) bytes u [] ≡ some (u, [])
  unfolding get_periodic
  no_bytes [] u h = refl
  no_bytes (c ∷ cs) u h = absurd (ground arith)

  -- What a round does, with the solutions that were found among its bytes.
  on_bus-delivered :
      (start : ℕ)
      → (again : UBlox → ℕ → Tracking Timer → Run (Bool × ℕ × Tracking Timer))
      → (again' : ℕ → Tracking Timer → Run (Bool × ℕ × Tracking Timer))
      → (u : UBlox) (o : Option (Tracking Timer))
      → ((start' : ℕ) (t : Tracking Timer) → again u start' t ≡ again' start' t)
      → on_bus start again (o >>= λ t. some (u, t)) ≡ delivered rtc start again' o
  on_bus-delivered start again again' u none same = refl
  on_bus-delivered start again again' u (some t) same =
      let start' = (start + t.rtc_epoch_delta) % 2 ^ 32 in
      ap (λ other. if t.is_pending_new then done (true, start', t) else other) (same start' t)

  -- Where no byte makes the parser fault, the search on the bytes of the bus, which is interleaved
  -- with the parser, has the result of the search on the solutions among those bytes.
  pub acquire_bus-acquire :
      (timeout : ℕ) (rs : List BusRound) (rounds : List Round) (start : ℕ) (u : UBlox)
      → (s : Tracking Timer) → decode rs u ≡ some rounds
      → acquire_bus (some delegate) timeout rs start u s ≡ acquire rtc timeout rounds start s
  unfolding acquire_bus acquire
  acquire_bus-acquire timeout [] rounds start u s h =
      subst (λ x. acquire_bus (some delegate) timeout [] start u s ≡ acquire rtc timeout x start s)
        (some-injective [] rounds h) refl
  acquire_bus-acquire timeout (r ∷ rs) rounds start u s h =
      let (found, finds, more) = bind-some (get_periodic (some collect) r.bytes u []) _ rounds h in
      let (rest, decodes, made) = bind-some (decode rs found.0) _ rounds more in
      let now = tick rtc r.elapsed s in
      let f : NavPvt → Tracking Timer → Option (Tracking Timer) = λ v t. delegate_nav_pvt rtc v t in
      subst
        (λ x.
          acquire_bus (some delegate) timeout (r ∷ rs) start u s ≡ acquire rtc timeout x start s)
        (some-injective _ rounds made)
        (elim (Bool-cases (leb ((now.epoch + 2 ^ 32 - start) % 2 ^ 32) timeout)) [
          | inr over ↦ rw over refl
          | inl within ↦ rw within (elim (Bool-cases (length r.bytes == 0)) [
            | inl quiet ↦ rw quiet (
                acquire_bus-acquire timeout rs rest start u now (
                  subst (λ (x : UBlox × List NavPvt). decode rs x.0 ≡ some rest)
                    (some-injective found (u, []) (sym finds ∙ no_bytes r.bytes u quiet)) decodes))
            | inr some_bytes ↦ rw some_bytes (
                ap
                  (λ o.
                    on_bus start (λ u' start' t. acquire_bus (some delegate) timeout rs start' u' t)
                      o)
                  (get_periodic-collect f r.bytes u (cleared rtc now)
                    ∙ ap
                        (λ o. o >>= λ x. deliver_all f x.1 (cleared rtc now) >>= λ t. some (x.0, t))
                        finds
                    ∙ ap (λ o. o >>= λ t. some (found.0, t))
                        (deliver-deliver_all found.1 (cleared rtc now)))
                ∙ on_bus-delivered start
                    (λ u' start' t. acquire_bus (some delegate) timeout rs start' u' t)
                    (λ start' t. acquire rtc timeout rest start' t) found.0
                    (deliver rtc found.1 (cleared rtc now))
                    (λ start' t. acquire_bus-acquire timeout rs rest start' found.0 t decodes))
          ])
        ])

module _ (pb : Nanopb) (fs : FlashStorage) (Timer : Type 0) where
  -- What follows `setGpsActive(true)` in `getGpsFixAndTransmit`.
  unfoldable pub get_gps_fix_and_transmit_bus :
      Rtc Timer
      → LoRaBee
      → Board
      → Option (NavPvt → Tracking Timer → Option (Tracking Timer))
      → List BusRound
      → UBlox
      → Device pb fs Timer
      → Run (Device pb fs Timer × Bool)
  unfolding acquire_bus conclude
  get_gps_fix_and_transmit_bus rtc lora board func_nav_pvt rounds u dev =
      conclude pb fs Timer lora board dev (
        acquire_bus rtc func_nav_pvt dev.sketch.config.params.gps_fix_timeout rounds
          dev.tracking.epoch u dev.tracking)
