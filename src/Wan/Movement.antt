-- ===== src/Wan/Movement.antt =====
-- `Hal::LSM303_Update` of nodes/SodaqWAN/Hal.cpp: whether the magnetometer shows a movement. What
-- the driver of the LSM303, a library, reads is an argument. An axis is a 16-bit `int` and stands
-- here as its value plus 32768, which leaves every difference as it is.
use docker_applications.Common.{
  ℕ, ◌+◌, ◌-◌, ◌≡◌, refl, ap, ◌∙◌, Bool, true, false, ◌||◌, List, [], ◌∷◌, ltb, if◌then◌else◌,
  arith,
}

pub record Axes : Type 0 where
  pub x : ℕ
  pub y : ℕ
  pub z : ℕ

-- `ax_o`, `ay_o`, `az_o`; `d_x`, `d_y`, `d_z`; and `hasMoved`
pub record Compass : Type 0 where
  pub old : Axes
  pub delta : Axes
  pub has_moved : Bool

-- `abs(a - b)`
abbrev pub distance : ℕ → ℕ → ℕ
distance a b = (a - b) + (b - a)

abbrev pub offset : ℕ
offset = 700

abbrev pub exceeds : Axes → Bool
exceeds d = ltb offset d.x || (ltb offset d.y || ltb offset d.z)

unfoldable pub lsm303_update : Axes → Compass → Compass
lsm303_update m c =
    let d : Axes = record {
      x = distance m.x c.old.x;
      y = distance m.y c.old.y;
      z = distance m.z c.old.z;
    } in
    record { old = m; delta = d; has_moved = if exceeds d then true else c.has_moved }

-- The readings of a list, one after the other.
unfoldable pub lsm303_updates : List Axes → Compass → Compass
unfolding lsm303_update
lsm303_updates [] c = c
lsm303_updates (m ∷ ms) c = lsm303_updates ms (lsm303_update m c)

-- Whether an axis of the one reading lies more than 700 above or below the other's.
abbrev pub far : Axes → Axes → Bool
far a b =
    let apart : ℕ → ℕ → Bool = λ v w. ltb (w + 700) v || ltb (v + 700) w in
    apart a.x b.x || (apart a.y b.y || apart a.z b.z)

abbrev pub jumps : Axes → List Axes → Bool
jumps before [] = false
jumps before (m ∷ ms) = far m before || jumps m ms

ltb-distance : (v w : ℕ) → ltb 700 (distance v w) ≡ (ltb (w + 700) v || ltb (v + 700) w)
ltb-distance v w = ground arith

exceeds-far : (m : Axes) (c : Compass) → exceeds (lsm303_update m c).delta ≡ far m c.old
unfolding lsm303_update
exceeds-far m c =
    rw (ltb-distance m.x c.old.x, ltb-distance m.y c.old.y, ltb-distance m.z c.old.z) refl

noted : (b moved later : Bool) → ((if b then true else moved) || later) ≡ (moved || (b || later))
noted true true later = refl
noted true false later = refl
noted false moved later = refl

-- After any number of readings a movement is noted exactly if one was noted before, or an axis of
-- one of them differs by more than 700 from the reading before it.
pub lsm303_updates_lem :
    (ms : List Axes) (c : Compass)
    → (lsm303_updates ms c).has_moved ≡ (c.has_moved || jumps c.old ms)
unfolding lsm303_updates lsm303_update
lsm303_updates_lem [] c = ground arith
lsm303_updates_lem (m ∷ ms) c =
    lsm303_updates_lem ms (lsm303_update m c)
    ∙ ap (λ b. (if b then true else c.has_moved) || jumps m ms) (exceeds-far m c)
    ∙ noted (far m c.old) c.has_moved (jumps m ms)
