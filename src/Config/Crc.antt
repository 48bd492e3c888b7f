-- ===== src/Config/Crc.antt =====
-- `crc16ccitt` of nodes/SodaqOneDevice/Config.cpp.
use Prim.Native.Nat.{bit_and, bit_xor}
use docker_applications.Common.{
  ℕ, zero, suc, ◌*◌, ◌%◌, ◌^◌, List, [], ◌∷◌, not, ◌==◌, if◌then◌else◌,
}

-- One round of the inner loop: shift out the top bit of the `uint16_t`.
unfoldable pub crc_bit : ℕ → ℕ
crc_bit crc =
    if not (bit_and crc 0x8000 == 0)
    then bit_xor ((crc * 2) % 2 ^ 16) 0x1021 % 2 ^ 16
    else (crc * 2) % 2 ^ 16

-- The inner loop, with `left` rounds to go.
unfoldable pub crc_bits : ℕ → ℕ → ℕ
unfolding crc_bit
crc_bits zero crc = crc
crc_bits (suc left) crc = crc_bits left (crc_bit crc)

-- The outer loop from the checksum `crc` on.
unfoldable pub crc_from : ℕ → List ℕ → ℕ
unfolding crc_bits
crc_from crc [] = crc
crc_from crc (b ∷ buf) = crc_from (crc_bits 8 (bit_xor crc (b * 2 ^ 8))) buf

unfoldable pub crc16ccitt : List ℕ → ℕ
unfolding crc_from
crc16ccitt buf = crc_from 0 buf
