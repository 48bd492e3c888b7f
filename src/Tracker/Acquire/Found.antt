-- ===== src/Tracker/Acquire/Found.antt =====
-- The search that a fix on the bus of the GPS receiver ends.
use docker_applications.Common.{
  ℕ, ◌+◌, ◌-◌, ◌/◌, ◌%◌, ◌^◌, ◌≤◌, ◌<◌, ◌≡◌, refl, ap, ◌∙◌, true, false, ◌||◌, some, ◌>>=◌, List,
  [], ◌∷◌, length, ◌==◌, arith, le→leb, ne→==,
}
use docker_applications.Common.Memory.{splice}
use docker_applications.Tracker.Acquire.{cleared}
use docker_applications.Tracker.Acquire.Bus.{BusRound, delegate, acquire_bus}
use docker_applications.Tracker.Acquire.FixReport.{with_fix, delegate-fix}
use docker_applications.Tracker.NavPvt.{
  Rtc, IsRtc, IsRtcTime, NavPvt, Tracking, is_fix, speed, sync_clock, delegate_nav_pvt,
}
use docker_applications.Tracker.NavPvt.Clock.{IsDated, delegate-since}
use docker_applications.Tracker.Transmit.{done}
use docker_applications.Record.Report.{Report, on_air}
use docker_applications.Ublox.{UBlox, send}
use docker_applications.Ublox.Receiver.{nav_pvt, get_periodic}
use docker_applications.Ublox.Receiver.Solution.{after_solution, get_periodic-send}

-- Rounds in which no byte waits, given by the seconds before each, in front of others.
abbrev pub waiting : List ℕ → List BusRound → List BusRound
waiting [] rest = rest
waiting (w ∷ ws) rest = record { elapsed = w; bytes = [] } ∷ waiting ws rest

abbrev pub total : List ℕ → ℕ
total [] = 0
total (w ∷ ws) = w + total ws

-- A solution as the receiver frames it, with its payload.
abbrev pub solution_frame : List ℕ → List ℕ
solution_frame payload = send (1 ∷ 7 ∷ length payload % 256 ∷ length payload / 256 ∷ payload)

-- The solution that the parser decodes from a payload.
abbrev pub solution_of : UBlox → List ℕ → NavPvt
solution_of u payload = nav_pvt (splice 0 payload u.payload_buffer)

module _ {Timer : Type 0} (rtc : Rtc Timer) where
  abbrev pub later : ℕ → Tracking Timer → Tracking Timer
  later n s = record s { epoch = s.epoch + n }

  -- The clock, and the sketch, when a solution with a fix is read: the clock is in its range for the
  -- search, and the solution's time, if it has one, is in that range.
  pub record IsFound (v : NavPvt) (kmh e : ℕ) (ws : List ℕ) (p : Report) (s t : Tracking Timer)
      : Type 0 where
    pub pending : s.pending ≡ on_air p
    pub fix : is_fix v ≡ true
    pub speed_is : speed v.g_speed ≡ some kmh
    pub synced : sync_clock rtc v (cleared rtc (later (total ws + e) s)) ≡ some t
    pub in_range : IsRtcTime (total ws + e) s.epoch
    pub dated : IsDated 0 v

module _ {Timer : Type 0} (rtc : Rtc Timer) (law : IsRtc rtc) where
  waited :
      (timeout k : ℕ) (ws : List ℕ) (rest : List BusRound) (start : ℕ) (u : UBlox)
      (s : Tracking Timer)
      → IsRtcTime (total ws + k) s.epoch
      → start ≤ s.epoch
      → s.epoch + total ws ≤ start + timeout
      → acquire_bus rtc (some (delegate rtc)) timeout (waiting ws rest) start u s
        ≡ acquire_bus rtc (some (delegate rtc)) timeout rest start u (later rtc (total ws) s)
  unfolding acquire_bus
  waited timeout k [] rest start u s hs he h =
      ap (λ n. acquire_bus rtc (some (delegate rtc)) timeout rest start u (record s { epoch = n }))
        (omega arith)
  waited timeout k (w ∷ ws) rest start u s hs he h =
      let now = later rtc w s in
      rw
        (
          law.advances w s.epoch (hs.0, omega (arith, hs)),
          le→leb ((now.epoch + 2 ^ 32 - start) % 2 ^ 32) timeout (omega (arith, hs)),
        )
        (waited timeout k ws rest start u now (omega (arith, hs), omega (arith, hs)) (omega arith)
            (omega arith)
          ∙ ap
              (λ n.
                acquire_bus rtc (some (delegate rtc)) timeout rest start u (record s { epoch = n }))
              (omega arith))

  -- The round that brings the fix.
  fix_round :
      (timeout e : ℕ) (bytes : List ℕ) (more : List BusRound) (start : ℕ) (u u' : UBlox)
      (s t : Tracking Timer)
      → (length bytes == 0) ≡ false
      → IsRtcTime e s.epoch
      → (s.epoch + e + 2 ^ 32 - start) % 2 ^ 32 ≤ timeout
      → get_periodic (some (λ v t. delegate_nav_pvt rtc v t)) bytes u (cleared rtc (later rtc e s))
        ≡ some (u', t)
      → t.is_pending_new ≡ true
      → acquire_bus rtc
          (some (delegate rtc))
          timeout
          (record { elapsed = e; bytes = bytes } ∷ more)
          start
          u
          s
        ≡ done (true, (start + t.rtc_epoch_delta) % 2 ^ 32, t)
  unfolding acquire_bus
  fix_round timeout e bytes more start u u' s t some_bytes range within delivers new =
      rw (law.advances e s.epoch range, le→leb _ timeout within, some_bytes, delivers, new) refl

  -- The clock after the fix: the seconds since the start of the search are those that went by.
  pub found_clock :
      (v : NavPvt) (kmh e : ℕ) (ws : List ℕ) (p : Report) (s t : Tracking Timer)
      → IsFound rtc v kmh e ws p s t
      → ((t.epoch + 2 ^ 32 - (s.epoch + t.rtc_epoch_delta) % 2 ^ 32) % 2 ^ 32 ≡ total ws + e)
        × (t.epoch < 2 ^ 32)
  found_clock v kmh e ws p s t found =
      let since =
        delegate-since rtc v s.epoch 0 (cleared rtc (later rtc (total ws + e) s))
          (record t { pending = on_air (with_fix v kmh p); is_pending_new = true }) law
          (omega (arith, found.in_range))
          (omega (arith, found.in_range), omega (arith, found.in_range)) refl found.dated
          (delegate-fix rtc v kmh p _ t found.pending found.fix found.speed_is found.synced) in
      (omega (arith, since.0, found.in_range), omega (arith, since.1))

  pub search_finds :
      (timeout e c : ℕ) (cs ws : List ℕ) (more : List BusRound) (u : UBlox) (kmh : ℕ) (p : Report)
      (s t : Tracking Timer)
      → u.state_ ≡ 0
      → (length (c ∷ cs) == 84 || length (c ∷ cs) == 92) ≡ true
      → length (c ∷ cs) ≤ length u.payload_buffer
      → length (c ∷ cs) < 65536
      → total ws + e ≤ timeout
      → timeout < 2 ^ 32
      → IsFound rtc (solution_of u (c ∷ cs)) kmh e ws p s t
      → acquire_bus rtc
          (some (delegate rtc))
          timeout
          (waiting ws (record { elapsed = e; bytes = solution_frame (c ∷ cs) } ∷ more))
          s.epoch
          u
          s
        ≡ done (
          true,
          (s.epoch + t.rtc_epoch_delta) % 2 ^ 32,
          record t {
            pending = on_air (with_fix (solution_of u (c ∷ cs)) kmh p);
            is_pending_new = true;
          },
        )
  unfolding send
  search_finds timeout e c cs ws more u kmh p s t idle known fits small in_time short found =
      let range = found.in_range in
      let v = solution_of u (c ∷ cs) in
      let now = later rtc (total ws) s in
      let then : later rtc e now ≡ later rtc (total ws + e) s =
        ap (λ n. let x : Tracking Timer = record s { epoch = n } in x) (omega arith) in
      waited timeout e ws (record { elapsed = e; bytes = solution_frame (c ∷ cs) } ∷ more) s.epoch u
        s range (omega arith) (omega arith)
      ∙ fix_round timeout e (solution_frame (c ∷ cs)) more s.epoch u (after_solution c cs u) now
          (record t { pending = on_air (with_fix v kmh p); is_pending_new = true })
          (ne→== (length (solution_frame (c ∷ cs))) 0 (omega arith))
          (omega (arith, range), omega (arith, range)) (omega (arith, range))
          (get_periodic-send (λ w x. delegate_nav_pvt rtc w x) u c cs
              (cleared rtc (later rtc e now)) idle known fits small
            ∙ ap
                (λ (x : Tracking Timer).
                  delegate_nav_pvt rtc v (cleared rtc x) >>= λ y. some (after_solution c cs u, y))
                then
            ∙ rw
                (delegate-fix rtc v kmh p (cleared rtc (later rtc (total ws + e) s)) t found.pending
                  found.fix found.speed_is found.synced)
                refl)
          refl
