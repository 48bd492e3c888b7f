-- ===== src/Tracker/NavPvt/Clock.antt =====
-- The clock under a solution of the receiver: the time since the start of the search is the same
-- before and after a correction.
use docker_applications.Common.{
  ℕ, ◌+◌, ◌-◌, ◌%◌, ◌^◌, ◌<◌, ◌≡◌, refl, ap, subst, Bool, true, false, Option, none, some, ◌>>=◌,
  ltb, ◌==◌, if◌then◌else◌, Bool-cases, inl, inr, arith,
}
use mathlib.Core.Option.{some-injective}
use docker_applications.Calendar.Local.{mktime}
use docker_applications.Record.Report
use docker_applications.Tracker.NavPvt.{
  Rtc, IsRtc, IsRtcTime, NavPvt, Tracking, is_fix, write_fix, max_rtc_epoch_offset, set_now,
  sync_clock, delegate_nav_pvt,
}

module _ {ℓ ℓ'} {A : Type ℓ} {B : Type ℓ'} where
  -- Where a chain succeeds, so does its first part.
  pub bind-some :
      (o : Option A) (f : A → Option B) (b : B)
      → (o >>= f) ≡ some b
      → (a : A) × (o ≡ some a) × (f a ≡ some b)
  bind-some none f b h = absurd (cc)
  bind-some (some a) f b h = (a, refl, h)

-- The time of a solution, if it has one, is one from which the clock runs for `k` seconds.
abbrev pub IsDated : ℕ → NavPvt → Type 0
IsDated k v =
    (m : ℕ)
    → (v.valid % 4 == 3) ≡ true
    → mktime v.year v.month v.day v.hour v.minute v.seconds ≡ some m
    → IsRtcTime k m

module _ {Timer : Type 0} (rtc : Rtc Timer) where
  pub sync_clock-holds :
      (Q : Tracking Timer → Type 0) (v : NavPvt) (s t : Tracking Timer)
      → Q s
      → ((e : ℕ)
          → (v.valid % 4 == 3) ≡ true
          → mktime v.year v.month v.day v.hour v.minute v.seconds ≡ some e
          → Q (set_now rtc e s))
      → sync_clock rtc v s ≡ some t
      → Q t
  unfolding sync_clock
  sync_clock-holds Q v s t same sets h = elim (Bool-cases (v.valid % 4 == 3)) [
    | inl valid ↦
        let (e, made, rest) =
          bind-some (mktime v.year v.month v.day v.hour v.minute v.seconds) _ t (rw valid at h) in
        elim (Bool-cases (ltb max_rtc_epoch_offset ((s.epoch - e) + (e - s.epoch)))) [
          | inl off ↦ subst Q (some-injective _ t (rw off at rest)) (sets e valid made)
          | inr near ↦ subst Q (some-injective _ t (rw near at rest)) same
        ]
    | inr invalid ↦ subst Q (some-injective s t (rw invalid at h)) same
  ]

  written-clock :
      (b : Bool) (o : Option Report.Buffer) (u t : Tracking Timer)
      → (if b then (o >>= λ r. some (record u { pending = r; is_pending_new = true })) else some u)
        ≡ some t
      → (u.epoch ≡ t.epoch) × (u.rtc_epoch_delta ≡ t.rtc_epoch_delta)
  written-clock true none u t h = absurd (cc)
  written-clock true (some r) u t h =
      let e = some-injective _ t h in (ap (λ x. x.epoch) e, ap (λ x. x.rtc_epoch_delta) e)
  written-clock false o u t h =
      let e = some-injective u t h in (ap (λ x. x.epoch) e, ap (λ x. x.rtc_epoch_delta) e)

  -- After a solution the clock, and what `setNow` notes of it, are those after `sync_clock`.
  delegate-clock :
      (v : NavPvt) (s t : Tracking Timer)
      → delegate_nav_pvt rtc v s ≡ some t
      → (u : Tracking Timer) × (sync_clock rtc v s ≡ some u)
        × (u.epoch ≡ t.epoch)
        × (u.rtc_epoch_delta ≡ t.rtc_epoch_delta)
  unfolding delegate_nav_pvt
  delegate-clock v s t h =
      let (u, synced, rest) = bind-some (sync_clock rtc v s) _ t h in
      let (epoch, delta) = written-clock (is_fix v) (write_fix v u.pending) u t rest in
      (u, synced, epoch, delta)

  -- The seconds since the start of the search, as the loop computes them once it has moved the
  -- start by what `setNow` noted.
  abbrev pub since : ℕ → Tracking Timer → ℕ
  since start s = (s.epoch + 2 ^ 32 - (start + s.rtc_epoch_delta) % 2 ^ 32) % 2 ^ 32

  -- With times in the range of the clock and no correction noted before, a solution that corrects the
  -- clock leaves the seconds since the start of the search as they are, and the clock in its range.
  pub delegate-since :
      (v : NavPvt) (start k : ℕ) (s t : Tracking Timer)
      → IsRtc rtc
      → start < 2 ^ 32
      → IsRtcTime k s.epoch
      → s.rtc_epoch_delta ≡ 0
      → IsDated k v
      → delegate_nav_pvt rtc v s ≡ some t
      → (since start t ≡ (s.epoch + 2 ^ 32 - start) % 2 ^ 32) × IsRtcTime k t.epoch
  unfolding set_now
  delegate-since v start k s t law hs he none_before dated h =
      let (u, synced, epoch, delta) = delegate-clock v s t h in
      let (kept, range) =
        sync_clock-holds
          (λ x. (since start x ≡ (s.epoch + 2 ^ 32 - start) % 2 ^ 32) × IsRtcTime k x.epoch) v s u
          (rw none_before (omega arith), he)
          (λ e valid made.
            let in_range = dated e valid made in
            rw (law.sets e (in_range.0, omega (arith, in_range.1)))
              (omega (arith, in_range, he), in_range))
          synced in
      (rw (← epoch, ← delta) kept, rw (← epoch) range)
