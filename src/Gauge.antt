-- ===== src/Gauge.antt =====
-- `LTC::Update` of nodes/SodaqOneDevice/LTC2943.cpp: the charge that the battery has delivered, over
-- losses of its power. What the registers of the gauge read is an argument. The charge is a `float`
-- and always whole, in mAh: the rounding of a whole number to a `float` is a parameter. Current,
-- voltage and temperature, which are converted and stored, are left out. `none` is a conversion of a
-- `float` that a `uint32_t` does not hold.
pub mod Losses
use docker_applications.Common.{
  ℕ, ◌+◌, ◌%◌, ◌^◌, Bool, true, false, not, Option, none, some, ◌>>=◌, ltb, ◌==◌, if◌then◌else◌,
}

-- One reading: whether every access to the bus was acknowledged, the status register, and the charge
-- register in mAh, which is assigned to a `uint16_t`.
pub record Registers : Type 0 where
  pub acknowledged : Bool
  pub status_code : ℕ
  pub charge_reading : ℕ

-- `valid`, `chargeState`, `charge`, and `params.getChargeOffset()`
pub record Gauge : Type 0 where
  pub valid : Bool
  pub charge_state : Bool
  pub charge : ℕ
  pub charge_offset : ℕ

-- `status_code && 1 == 1`, which is `status_code != 0`
abbrev pub restarted : ℕ → Bool
restarted status_code = not (status_code == 0)

-- `params.setChargeOffset(charge)`: the `float` as a `uint32_t`
abbrev pub offset_of : ℕ → Option ℕ
offset_of charge = if ltb charge (2 ^ 32) then some charge else none

module _ (to_float : ℕ → ℕ) where
  unfoldable pub update : Registers → Gauge → Option Gauge
  update r g =
      if r.acknowledged
      then (do
        offset ← (if restarted r.status_code then offset_of g.charge else some g.charge_offset)
        some (record {
          valid = true;
          charge_state = true;
          charge = to_float (to_float offset + r.charge_reading % 2 ^ 16);
          charge_offset = offset;
        }))
      else (do
        offset ← (if g.charge_state then offset_of g.charge else some g.charge_offset)
        some (record {
          valid = false;
          charge_state = false;
          charge = g.charge;
          charge_offset = offset;
        }))
