-- ===== src/Gauge/Losses.antt =====
-- The charge over losses of the power.
use docker_applications.Common.{
  ℕ, zero, suc, ◌+◌, ◌≡◌, ◌≢◌, ◌<◌, ◌≤◌, ◌^◌, ◌%◌, refl, true, false, Option, some, ◌>>=◌, ltb,
  ne→==, lt→ltb, arith,
}
use docker_applications.Gauge.{Registers, Gauge, update}

-- The 24 bits of a `float`: whole numbers up to 2 ^ 24 are exact.
abbrev pub Exact : (ℕ → ℕ) → Type 0
Exact to_float = (n : ℕ) → n ≤ 2 ^ 24 → to_float n ≡ n

-- Updates in which the gauge does not answer.
unfoldable pub losses : (ℕ → ℕ) → ℕ → Registers → Gauge → Option Gauge
unfolding update
losses to_float zero r g = some g
losses to_float (suc n) r g =
    update to_float (record r { acknowledged = false }) g >>= λ g'. losses to_float n r g'

lost : ℕ → Gauge
lost charge = record {
  valid = false;
  charge_state = false;
  charge = charge;
  charge_offset = charge;
}

module _ (to_float : ℕ → ℕ) (exact : Exact to_float) where
  losses-lost :
      (n : ℕ) (r : Registers) (charge : ℕ) → losses to_float n r (lost charge) ≡ some (lost charge)
  unfolding losses lost update
  losses-lost zero r charge = refl
  losses-lost (suc n) r charge = losses-lost n r charge

  -- However many updates find no power, at least one, if the gauge then answers and reports a
  -- restart: what it has counted since is added to the charge before the loss, and nothing is lost or
  -- counted twice, as long as the sum is at most 2 ^ 24 mAh, up to which a `float` is exact.
  pub update-losses :
      (n : ℕ) (r back : Registers) (g : Gauge)
      → g.charge_state ≡ true
      → back.acknowledged ≡ true
      → back.status_code ≢ 0
      → back.charge_reading < 2 ^ 16
      → g.charge + back.charge_reading ≤ 2 ^ 24
      → (losses to_float (suc n) r g >>= λ g'. update to_float back g')
        ≡ some (record {
          valid = true;
          charge_state = true;
          charge = g.charge + back.charge_reading;
          charge_offset = g.charge;
        })
  unfolding losses lost update
  update-losses n r back g powered answers restart word small =
      let in_word : ltb g.charge (2 ^ 32) ≡ true = lt→ltb g.charge (2 ^ 32) (omega arith) in
      let same : back.charge_reading % 2 ^ 16 ≡ back.charge_reading = omega arith in
      rw
        (
          powered,
          in_word,
          losses-lost n r g.charge,
          answers,
          ne→== back.status_code 0 restart,
          in_word,
          same,
          exact g.charge (omega arith),
          exact (g.charge + back.charge_reading) small,
        )
        refl

  -- If a single access fails and the gauge answers again with no restart, although its register went
  -- on counting, what it had counted before is added a second time, with sums of at most 2 ^ 24 mAh.
  pub update_counts_twice :
      (r back : Registers) (g : Gauge)
      → r.acknowledged ≡ true
      → r.status_code ≡ 0
      → back.acknowledged ≡ true
      → back.status_code ≡ 0
      → r.charge_reading < 2 ^ 16
      → back.charge_reading < 2 ^ 16
      → g.charge_offset + r.charge_reading + back.charge_reading ≤ 2 ^ 24
      → (once twice : Gauge) × (update to_float r g ≡ some once)
        × (once.charge ≡ g.charge_offset + r.charge_reading)
        × ((losses to_float 1 r once >>= λ g'. update to_float back g') ≡ some twice)
        × (twice.charge ≡ g.charge_offset + r.charge_reading + back.charge_reading)
  unfolding losses update
  update_counts_twice r back g ok quiet ok' quiet' word word' small =
      let sum : ℕ = g.charge_offset + r.charge_reading in
      let total : ℕ = sum + back.charge_reading in
      let same : r.charge_reading % 2 ^ 16 ≡ r.charge_reading = omega arith in
      let same' : back.charge_reading % 2 ^ 16 ≡ back.charge_reading = omega arith in
      (
        record { valid = true; charge_state = true; charge = sum; charge_offset = g.charge_offset },
        record { valid = true; charge_state = true; charge = total; charge_offset = sum },
        rw (ok, quiet, same, exact g.charge_offset (omega arith), exact sum (omega arith)) refl,
        refl,
        rw
            (
              lt→ltb sum (2 ^ 32) (omega arith),
              ok',
              quiet',
              same',
              exact sum (omega arith),
              exact total small,
            )
            refl,
        refl,
      )
