-- ===== src/Tracker/Acquire/TimeOut.antt =====
-- The search for a fix comes to an end, also where it sets the clock.
use mathlib.Core.Option.{some-injective}
use docker_applications.Common.{
  ℕ, ◌+◌, ◌-◌, ◌%◌, ◌^◌, ◌≤◌, ◌<◌, ◌≡◌, refl, ap, ◌∙◌, Bool, Option, none, some, List, [], ◌∷◌,
  length, leb, ◌==◌, true, false, subst, if◌then◌else◌, le→leb, Bool-cases, inl, inr, arith, leb→le,
}
use docker_applications.Tracker.NavPvt.{Rtc, IsRtc, IsRtcTime, NavPvt, Tracking, delegate_nav_pvt}
use docker_applications.Tracker.NavPvt.Clock.{bind-some, since, IsDated, delegate-since}
use docker_applications.Tracker.Acquire.{Round, deliver, delivered, tick, cleared, acquire}
use docker_applications.Tracker.Transmit.{Run, done, fault, out_of_fuel}

-- The seconds that go by in a list of rounds.
abbrev pub duration : List Round → ℕ
duration [] = 0
duration (r ∷ rs) = r.elapsed + duration rs

-- The seconds before each round.
abbrev pub seconds : List Round → List ℕ
seconds [] = []
seconds (r ∷ rs) = r.elapsed ∷ seconds rs

-- The seconds that go by until more than `left` have, in steps of the list.
abbrev pub time_until : ℕ → List ℕ → ℕ
time_until left [] = 0
time_until left (w ∷ ws) =
    let rest = time_until (left - w) ws in w + (if leb w left then rest else 0)

abbrev pub AllDated : ℕ → List NavPvt → Type 0
AllDated k [] = Unit
AllDated k (v ∷ vs) = IsDated k v × AllDated k vs

-- In no round is there more than one solution, and the clock is in its range for the rounds that
-- follow if it is set by one.
abbrev pub Timely : List Round → Type 0
Timely [] = Unit
Timely (r ∷ rs) = (length r.solutions ≤ 1) × AllDated (duration rs) r.solutions × Timely rs

-- The seconds that a search has taken, by the clock and the start that it is compared with.
abbrev pub searched : {Timer : Type 0} → ℕ → Tracking Timer → ℕ
searched start t = (t.epoch + 2 ^ 32 - start) % 2 ^ 32

-- A search that ends with a fix within the time-out, or without one after `d` seconds, or with a
-- fault.
abbrev pub EndsAt : {Timer : Type 0} → ℕ → ℕ → Run (Bool × ℕ × Tracking Timer) → Type 0
EndsAt timeout d (done (true, start, t)) = searched start t ≤ timeout
EndsAt timeout d (done (false, start, t)) = searched start t ≡ d
EndsAt timeout d fault = Unit
EndsAt timeout d out_of_fuel = ⊥

pub leb→gt : (a b : ℕ) → leb a b ≡ false → b < a
leb→gt a b h = ground arith

-- One round less.
pub time_until-within :
    (timeout past w : ℕ) (ws : List ℕ)
    → past + w ≤ timeout
    → past + w + time_until (timeout - (past + w)) ws ≡ past + time_until (timeout - past) (w ∷ ws)
time_until-within timeout past w ws h =
    let same : timeout - (past + w) ≡ (timeout - past) - w = omega arith in
    rw (le→leb w (timeout - past) (omega arith), same) (omega arith)

pub time_until-over :
    (timeout past w : ℕ) (ws : List ℕ)
    → past ≤ timeout
    → timeout < past + w
    → past + w ≡ past + time_until (timeout - past) (w ∷ ws)
time_until-over timeout past w ws h over =
    let no : leb w (timeout - past) ≡ false = ground arith in rw no (omega arith)

module _ (Timer : Type 0) (rtc : Rtc Timer) (law : IsRtc rtc) where
  deliver-since :
      (vs : List NavPvt) (start k : ℕ) (s t : Tracking Timer)
      → length vs ≤ 1
      → start < 2 ^ 32
      → IsRtcTime k s.epoch
      → s.rtc_epoch_delta ≡ 0
      → AllDated k vs
      → deliver rtc vs s ≡ some t
      → (since rtc start t ≡ (s.epoch + 2 ^ 32 - start) % 2 ^ 32) × IsRtcTime k t.epoch
  unfolding deliver
  deliver-since [] start k s t one hs he fresh dated h =
      let e = some-injective s t h in
      (
        rw (← ap (λ x. x.epoch) e, ← ap (λ x. x.rtc_epoch_delta) e, fresh) (omega (arith, he)),
        rw (← ap (λ x. x.epoch) e) he,
      )
  deliver-since (v ∷ []) start k s t one hs he fresh dated h =
      let (u, first, rest) = bind-some (delegate_nav_pvt rtc v s) _ t h in
      delegate-since rtc v start k s t law hs he fresh dated.0 (first ∙ rest)
  deliver-since (v ∷ w ∷ vs) start k s t one hs he fresh dated h = absurd (omega arith)

  -- A round ends as its fix or the rounds after it do.
  delivered-EndsAt :
      (timeout d start : ℕ) (again : ℕ → Tracking Timer → Run (Bool × ℕ × Tracking Timer))
      (o : Option (Tracking Timer))
      → ((t : Tracking Timer)
          → o ≡ some t
          → (searched ((start + t.rtc_epoch_delta) % 2 ^ 32) t ≤ timeout)
            × EndsAt timeout d (again ((start + t.rtc_epoch_delta) % 2 ^ 32) t))
      → EndsAt timeout d (delivered rtc start again o)
  delivered-EndsAt timeout d start again none h = tt
  delivered-EndsAt timeout d start again (some t) h =
      let start' = (start + t.rtc_epoch_delta) % 2 ^ 32 in
      elim t.is_pending_new
        as (λ b. EndsAt timeout d (if b then done (true, start', t) else again start' t)) [
          | true ↦ (h t refl).0
          | false ↦ (h t refl).1
        ]

  -- The seconds since the start grow with the clock.
  pub tick-since :
      (s : Tracking Timer) (start elapsed k : ℕ)
      → start < 2 ^ 32
      → IsRtcTime (elapsed + k) s.epoch
      → searched start s + elapsed < 2 ^ 32
      → (searched start (tick rtc elapsed s) ≡ searched start s + elapsed)
        × IsRtcTime k (tick rtc elapsed s).epoch
        × ((tick rtc elapsed s).epoch ≡ s.epoch + elapsed)
  tick-since s start elapsed k hs he room =
      let e : rtc.advance elapsed s.epoch ≡ s.epoch + elapsed =
        law.advances elapsed s.epoch (he.0, omega (arith, he)) in
      rw e (omega (arith, he), (omega (arith, he), omega (arith, he)), refl)

  -- With a clock that works from 2000 to 2038 and solutions whose times keep it there, at most one in
  -- each round, and a search that is not yet over: if the rounds last longer than what is left of the
  -- time-out, and not 2 ^ 32 seconds, the loop ends within them. It ends with a fix within the
  -- time-out, with an overflow or an access out of bounds, or without a fix at the first round at
  -- which more than the time-out has gone by, to the second: a correction of the clock neither
  -- prolongs nor shortens the search.
  pub acquire-EndsAt :
      (timeout : ℕ) (rounds : List Round) (start : ℕ) (s : Tracking Timer)
      → start < 2 ^ 32
      → IsRtcTime (duration rounds) s.epoch
      → Timely rounds
      → searched start s ≤ timeout
      → timeout < searched start s + duration rounds
      → searched start s + duration rounds < 2 ^ 32
      → EndsAt timeout
          (searched start s + time_until (timeout - searched start s) (seconds rounds))
          (acquire rtc timeout rounds start s)
  unfolding acquire
  acquire-EndsAt timeout [] start s hs he timely open_yet long short = absurd (omega arith)
  acquire-EndsAt timeout (r ∷ rs) start s hs he timely open_yet long short =
      let now = tick rtc r.elapsed s in
      let past = searched start s in
      let (later, range, _) = tick-since s start r.elapsed (duration rs) hs he (omega arith) in
      elim (Bool-cases (leb (searched start now) timeout)) [
        | inr over ↦ rw over (
            later
            ∙ time_until-over timeout past r.elapsed (seconds rs) open_yet
                (omega (arith, later, leb→gt (searched start now) timeout over)))
        | inl within ↦
            let left = leb→le (searched start now) timeout within in
            let again : (start' : ℕ) (t : Tracking Timer)
                → start' < 2 ^ 32
                → IsRtcTime (duration rs) t.epoch
                → searched start' t ≡ past + r.elapsed
                → EndsAt timeout (past + time_until (timeout - past) (seconds (r ∷ rs)))
                    (acquire rtc timeout rs start' t) =
              λ start' t hs' he' same.
                subst (λ d. EndsAt timeout d (acquire rtc timeout rs start' t))
                  (ap (λ n. n + time_until (timeout - n) (seconds rs)) same
                    ∙ time_until-within timeout past r.elapsed (seconds rs) (omega (arith, later)))
                  (acquire-EndsAt timeout rs start' t hs' he' timely.2 (omega (arith, later))
                    (omega (arith, later)) (omega (arith, later))) in
            rw within (elim (Bool-cases (r.bytes == 0)) [
              | inl quiet ↦ rw quiet (again start now hs range later)
              | inr some_bytes ↦ rw some_bytes (
                  delivered-EndsAt timeout _ start (λ start' t. acquire rtc timeout rs start' t)
                    (deliver rtc r.solutions (cleared rtc now))
                    (λ t h.
                      let (kept, range') =
                        deliver-since r.solutions start (duration rs) (cleared rtc now) t timely.0
                          hs range refl timely.1 h in
                      (
                        omega (arith, kept, left),
                        again ((start + t.rtc_epoch_delta) % 2 ^ 32) t (omega arith) range'
                            (kept ∙ later),
                      )))
            ])
      ]
