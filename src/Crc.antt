-- ===== src/Crc.antt =====
-- CRC-32/ISO-HDLC of crates/optibridge-protocol/src/lib.rs, bit by bit as the source computes it.
pub mod Detect
use opti_bridge.Prelude.{
  ℕ, zero, suc, ◌/◌, List, [], ◌∷◌, ◌==◌, if◌then◌else◌, bit_and, bit_xor, not,
}

-- One round of the inner loop.
unfoldable pub crc_bit : ℕ → ℕ
crc_bit crc = if not (bit_and crc 1 == 0) then bit_xor (crc / 2) 0xedb8_8320 else crc / 2

-- The rounds that are left.
unfoldable pub crc_bits : ℕ → ℕ → ℕ
unfolding crc_bit
crc_bits zero crc = crc
crc_bits (suc n) crc = crc_bits n (crc_bit crc)

unfoldable pub crc32_update : ℕ → List ℕ → ℕ
unfolding crc_bits
crc32_update crc [] = crc
crc32_update crc (byte ∷ bytes) = crc32_update (crc_bits 8 (bit_xor crc byte)) bytes

unfoldable pub crc32_finish : ℕ → ℕ
crc32_finish crc = bit_xor crc 0xffff_ffff

unfoldable pub crc32_iso_hdlc : List ℕ → ℕ
unfolding crc32_update crc32_finish
crc32_iso_hdlc bytes = crc32_finish (crc32_update 0xffff_ffff bytes)
