-- ===== src/Tests/Suite/Flash.antt =====
-- `FakeFlash` of the unit tests of crates/optibridge-protocol/src/lib.rs: 32,768 bytes, by address, in
-- which a write clears bits. It is a NOR flash, so that the theorems on NOR flash hold of it.
use opti_bridge.Prelude.{
  window, window_list, ap, ◌∙◌, ◌*◌, min, zero, suc, [], ◌∷◌, ◌/◌, ℕ, ◌+◌, ◌-◌, ◌%◌, ◌^◌, ◌≤◌, ◌<◌,
  ◌≡◌, refl, Bool, false, not, ◌&&◌, ◌||◌, List, length, get_or, Result, ok, err, leb, ltb, ◌==◌,
  if◌then◌else◌, bit_and, arith,
}
use opti_bridge.Prelude.Bits.{bit_and_step}
use opti_bridge.Crc.Detect.{IsBytes}
use opti_bridge.Loader.{BpfFlash}
use opti_bridge.Loader.Image.Nor.{IsNor}

pub record FakeFlash : Type 0 where
  pub bytes : ℕ → ℕ
  pub fail_write : Bool

abbrev pub new_flash : FakeFlash
new_flash = record { bytes = λ i. 0xff; fail_write = false }

abbrev in_range : ℕ → ℕ → ℕ → Bool
in_range from to i = leb from i && ltb i to

abbrev read_fake : FakeFlash → ℕ → ℕ → FakeFlash × Result (List ℕ) (Unit {0})
read_fake f offset n = (f, if leb (offset + n) 32768 then ok (window f.bytes offset n) else err tt)

-- `*target &= *source`
abbrev programmed : FakeFlash → ℕ → List ℕ → ℕ → ℕ
programmed f offset bytes i =
    if in_range offset (offset + length bytes) i
    then bit_and (f.bytes i) (get_or bytes (i - offset) 0)
    else f.bytes i

abbrev write_fake : FakeFlash → ℕ → List ℕ → FakeFlash × Result (Unit {0}) (Unit {0})
write_fake f offset bytes =
    if f.fail_write || not (offset % 2 == 0) || not (length bytes % 2 == 0)
    then (f, err tt)
    else if leb (offset + length bytes) 32768
    then (record f { bytes = programmed f offset bytes }, ok tt)
    else (f, err tt)

abbrev filled : FakeFlash → ℕ → ℕ → ℕ → ℕ
filled f from to i = if in_range from to i then 0xff else f.bytes i

abbrev erase_fake : FakeFlash → ℕ → ℕ → FakeFlash × Result (Unit {0}) (Unit {0})
erase_fake f from to =
    if not (from % 4096 == 0) || not (to % 4096 == 0)
    then (f, err tt)
    else if leb from to && leb to 32768
    then (record f { bytes = filled f from to }, ok tt)
    else (f, err tt)

abbrev pub fake_flash : BpfFlash FakeFlash
fake_flash = record { read = read_fake; write = write_fake; erase = erase_fake }

abbrev ones : ℕ → ℕ
ones zero = 0
ones (suc k) = ones k * 2 + 1

ones_and_step : (m b : ℕ) → bit_and (m * 2 + 1) b ≡ bit_and m (b / 2) * 2 + b % 2
ones_and_step m b =
    let half : (m * 2 + 1) / 2 ≡ m = omega arith in
    let odd : (m * 2 + 1) % 2 ≡ 1 = omega arith in
    let low : min 1 (b % 2) ≡ b % 2 = omega arith in cc (bit_and_step (m * 2 + 1) b, half, odd, low)

ones_and : (k b : ℕ) → b < 2 ^ k → bit_and (ones k) b ≡ b
ones_and zero b small = let none_left : b ≡ 0 = omega arith in rw none_left refl
ones_and (suc k) b small = omega (arith, ones_and_step (ones k) b, ones_and k (b / 2) (omega arith))

-- Erased bytes take whatever is written.
erased_and : (b : ℕ) → b < 2 ^ 8 → bit_and 0xff b ≡ b
erased_and b small = ones_and 8 b small

get_or-IsBytes : (bytes : List ℕ) (i : ℕ) → IsBytes bytes → get_or bytes i 0 < 2 ^ 8
get_or-IsBytes [] i fine = omega arith
get_or-IsBytes (b ∷ bytes) zero fine = fine.0
get_or-IsBytes (b ∷ bytes) (suc i) fine = get_or-IsBytes bytes i (fine.1)

written :
    (f : FakeFlash) (offset : ℕ) (bytes : List ℕ)
    → IsBytes bytes
    → ((i : ℕ) → offset ≤ i → i < offset + length bytes → f.bytes i ≡ 0xff)
    → (write_fake f offset bytes).1 ≡ ok tt
    → window (write_fake f offset bytes).0.bytes offset (length bytes) ≡ bytes
written f offset bytes fine blank e =
    let same : (write_fake f offset bytes).0.bytes ≡ programmed f offset bytes =
      ground (arith, e) in
    ap (λ cells. window cells offset (length bytes)) same
    ∙ window_list (programmed f offset bytes) offset bytes (λ i lo hi. ground (
      arith,
      lo,
      hi,
      blank i lo hi,
      erased_and (get_or bytes (i - offset) 0) (get_or-IsBytes bytes (i - offset) fine),
    ))

-- The flash of the unit tests is a NOR flash: reads give its bytes, an erase fills with 0xff, a write
-- to erased bytes stores what is written, and nothing else changes.
pub fake_flash-IsNor : IsNor fake_flash (λ f. f.bytes)
fake_flash-IsNor = record {
  read_ok = λ f offset n bytes e. ground (arith, e);
  read_keeps = λ f offset n. refl;
  write_ok = written;
  write_outside = λ f offset bytes i out. ground (arith, out);
  erase_ok = λ f from to i e lo hi. ground (arith, e, lo, hi);
}
