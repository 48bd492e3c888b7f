-- ===== src/Common/Bytes.antt =====
-- Unsigned integers as the little-endian bytes that `memcpy` moves on the SAMD21.
use native.Mathlib.Nat.{pow-suc}
use docker_applications.Common.{
  ℕ, zero, suc, ◌+◌, ◌*◌, ◌/◌, ◌%◌, ◌^◌, ◌<◌, ◌≡◌, refl, ap, List, [], ◌∷◌, length, arith,
}

-- The `w` bytes of a value; what does not fit is cut off.
abbrev pub le_bytes : ℕ → ℕ → List ℕ
le_bytes zero v = []
le_bytes (suc w) v = (v % 256) ∷ le_bytes w (v / 256)

abbrev pub of_bytes : List ℕ → ℕ
of_bytes [] = 0
of_bytes (b ∷ bs) = b + 256 * of_bytes bs

pub length-le_bytes : (w v : ℕ) → length (le_bytes w v) ≡ w
length-le_bytes zero v = refl
length-le_bytes (suc w) v = ap suc (length-le_bytes w (v / 256))

-- A value that fits comes back.
pub of_bytes-le_bytes : (w v : ℕ) → v < 256 ^ w → of_bytes (le_bytes w v) ≡ v
of_bytes-le_bytes zero v h = omega arith
of_bytes-le_bytes (suc w) v h =
    omega (arith, of_bytes-le_bytes w (v / 256) (omega (arith, pow-suc 256 w)))
