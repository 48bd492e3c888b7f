-- ===== src/Ublox/Receiver/Payload.antt =====
-- The solution in the receive buffer is that of the payload, whatever follows it.
use docker_applications.Common.{ℕ, ◌+◌, ◌≤◌, ◌≡◌, refl, ap, ◌∙◌, List, length, drop, arith}
use docker_applications.Common.Bytes.{of_bytes}
use docker_applications.Common.Memory.{splice, splice-prefix, slice-append_left}
use docker_applications.Ublox.Receiver.{field_at, nav_pvt}

module _ (payload buffer : List ℕ) (fits : length payload ≤ length buffer) where
  field_at-splice :
      (offset w : ℕ)
      → offset + w ≤ length payload
      → field_at (splice 0 payload buffer) offset w ≡ field_at payload offset w
  field_at-splice offset w h =
      ap (λ b. field_at b offset w) (splice-prefix payload buffer fits)
      ∙ ap of_bytes (slice-append_left offset w payload (drop (length payload) buffer) h)

  -- The last of the fields that are read ends at 68.
  pub nav_pvt-splice : 68 ≤ length payload → nav_pvt (splice 0 payload buffer) ≡ nav_pvt payload
  unfolding nav_pvt
  nav_pvt-splice long =
      rw
        (
          field_at-splice 4 2 (omega arith),
          field_at-splice 6 1 (omega arith),
          field_at-splice 7 1 (omega arith),
          field_at-splice 8 1 (omega arith),
          field_at-splice 9 1 (omega arith),
          field_at-splice 10 1 (omega arith),
          field_at-splice 11 1 (omega arith),
          field_at-splice 20 1 (omega arith),
          field_at-splice 21 1 (omega arith),
          field_at-splice 23 1 (omega arith),
          field_at-splice 24 4 (omega arith),
          field_at-splice 28 4 (omega arith),
          field_at-splice 36 4 (omega arith),
          field_at-splice 60 4 (omega arith),
          field_at-splice 64 4 (omega arith),
        )
        refl
