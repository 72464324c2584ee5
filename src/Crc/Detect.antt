-- ===== src/Crc/Detect.antt =====
-- The CRC as a function of strings of bytes: its range, chunks, and differences.
use opti_bridge.Prelude.{
  ℕ, zero, suc, ◌/◌, ◌%◌, ◌^◌, ◌<◌, ◌≡◌, ◌≢◌, refl, sym, ap, ◌∙◌, List, [], ◌∷◌, ◌++◌, bit_xor,
  arith, All,
}
use opti_bridge.Prelude.Bits.{
  bit_and-one, bit_xor-div_pow, bit_xor-lt_word, bit_xor_injective, bit_xor_comm,
}
use opti_bridge.Crc.{crc_bit, crc_bits, crc32_update, crc32_iso_hdlc}

abbrev poly : ℕ
poly = 0xedb8_8320

-- The polynomial's top bit marks the words that a round made from an odd one.
marked : (c : ℕ) → c < 2 ^ 32 → bit_xor (c / 2) poly / 2 ^ 31 ≡ 1
marked c h =
    let e : c / 2 / 2 ^ 31 ≡ 0 = omega arith in
    bit_xor-div_pow 31 (c / 2) poly ∙ ap (λ t. bit_xor t 1) e

crc_bit_even : (c : ℕ) → c % 2 ≡ 0 → crc_bit c ≡ c / 2
unfolding crc_bit
crc_bit_even c h = ground (arith, bit_and-one c)

crc_bit_odd : (c : ℕ) → c % 2 ≡ 1 → crc_bit c ≡ bit_xor (c / 2) poly
unfolding crc_bit
crc_bit_odd c h = ground (arith, bit_and-one c)

crc_bit-lt : (c : ℕ) → c < 2 ^ 32 → crc_bit c < 2 ^ 32
unfolding crc_bit
crc_bit-lt c h = ground (arith, bit_xor-lt_word (c / 2) poly (omega arith) (omega arith))

crc_bit_injective : (c d : ℕ) → c < 2 ^ 32 → d < 2 ^ 32 → crc_bit c ≡ crc_bit d → c ≡ d
crc_bit_injective c d p q h = ground (
  arith,
  crc_bit_even c,
  crc_bit_odd c,
  crc_bit_even d,
  crc_bit_odd d,
  marked c p,
  marked d q,
  bit_xor_injective (c / 2) (d / 2) poly,
)

crc_bits-lt : (n c : ℕ) → c < 2 ^ 32 → crc_bits n c < 2 ^ 32
unfolding crc_bits
crc_bits-lt zero c h = h
crc_bits-lt (suc n) c h = crc_bits-lt n (crc_bit c) (crc_bit-lt c h)

crc_bits_injective : (n c d : ℕ) → c < 2 ^ 32 → d < 2 ^ 32 → crc_bits n c ≡ crc_bits n d → c ≡ d
unfolding crc_bits
crc_bits_injective zero c d p q h = h
crc_bits_injective (suc n) c d p q h =
    crc_bit_injective c d p q
      (crc_bits_injective n (crc_bit c) (crc_bit d) (crc_bit-lt c p) (crc_bit-lt d q) h)

abbrev pub IsBytes : List ℕ → Type 0
IsBytes = All (λ b. b < 2 ^ 8)

byte-lt_word : (c b : ℕ) → c < 2 ^ 32 → b < 2 ^ 8 → bit_xor c b < 2 ^ 32
byte-lt_word c b p q = bit_xor-lt_word c b p (omega arith)

-- The register stays a 32-bit word.
pub crc32_update-lt :
    (c : ℕ) (bytes : List ℕ) → c < 2 ^ 32 → IsBytes bytes → crc32_update c bytes < 2 ^ 32
unfolding crc32_update
crc32_update-lt c [] p v = p
crc32_update-lt c (b ∷ bytes) p v =
    crc32_update-lt (crc_bits 8 (bit_xor c b)) bytes
      (crc_bits-lt 8 (bit_xor c b) (byte-lt_word c b p v.0)) v.1

-- From any register, updating by one chunk and then by another is updating by the two put
-- together.
pub crc32_update-append :
    (c : ℕ) (xs ys : List ℕ) → crc32_update c (xs ++ ys) ≡ crc32_update (crc32_update c xs) ys
unfolding crc32_update
crc32_update-append c [] ys = refl
crc32_update-append c (x ∷ xs) ys = crc32_update-append (crc_bits 8 (bit_xor c x)) xs ys

-- Two registers that differ stay different, whatever bytes follow.
pub crc32_update_injective :
    (c d : ℕ) (bytes : List ℕ)
    → c < 2 ^ 32
    → d < 2 ^ 32
    → IsBytes bytes
    → crc32_update c bytes ≡ crc32_update d bytes
    → c ≡ d
unfolding crc32_update
crc32_update_injective c d [] p q v h = h
crc32_update_injective c d (b ∷ bytes) p q v h = bit_xor_injective c d b (
    crc_bits_injective 8 (bit_xor c b) (bit_xor d b) (byte-lt_word c b p v.0)
      (byte-lt_word d b q v.0)
      (crc32_update_injective (crc_bits 8 (bit_xor c b)) (crc_bits 8 (bit_xor d b)) bytes
        (crc_bits-lt 8 (bit_xor c b) (byte-lt_word c b p v.0))
        (crc_bits-lt 8 (bit_xor d b) (byte-lt_word d b q v.0)) v.1 h))

-- Two strings of bytes that differ in one byte alone have different checksums.
pub crc32_iso_hdlc_detects :
    (before after : List ℕ) (x y : ℕ)
    → IsBytes before
    → IsBytes after
    → x < 2 ^ 8
    → y < 2 ^ 8
    → x ≢ y
    → crc32_iso_hdlc (before ++ x ∷ after) ≢ crc32_iso_hdlc (before ++ y ∷ after)
unfolding crc32_iso_hdlc
crc32_iso_hdlc_detects before after x y vb va px py differ h = differ (
    bit_xor_injective x y c (
      bit_xor_comm x c
      ∙ crc_bits_injective 8 (bit_xor c x) (bit_xor c y) (byte-lt_word c x pc px)
          (byte-lt_word c y pc py)
          (crc32_update_injective (crc_bits 8 (bit_xor c x)) (crc_bits 8 (bit_xor c y)) after
            (crc_bits-lt 8 (bit_xor c x) (byte-lt_word c x pc px))
            (crc_bits-lt 8 (bit_xor c y) (byte-lt_word c y pc py)) va same)
      ∙ bit_xor_comm c y))
  where
    c : ℕ
    c = crc32_update 0xffff_ffff before

    pc : c < 2 ^ 32
    pc = crc32_update-lt 0xffff_ffff before (omega arith) vb

    unfinished :
        crc32_update 0xffff_ffff (before ++ x ∷ after)
        ≡ crc32_update 0xffff_ffff (before ++ y ∷ after)
    unfinished = bit_xor_injective _ _ 0xffff_ffff h

    same :
        crc32_update (crc_bits 8 (bit_xor c x)) after
        ≡ crc32_update (crc_bits 8 (bit_xor c y)) after
    same =
        sym (crc32_update-append 0xffff_ffff before (x ∷ after))
        ∙ unfinished
        ∙ crc32_update-append 0xffff_ffff before (y ∷ after)
