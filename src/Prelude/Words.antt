-- ===== src/Prelude/Words.antt =====
-- Unsigned machine words as native numbers: casts wrap by `%`, checked operations give an option,
-- and little-endian bytes.
use Prim.Native.Nat.{ℕ, ◌+◌, ◌*◌, ◌/◌, ◌%◌, ◌^◌, ◌<◌}
use mathlib.Core.Path.{◌≡◌}
use mathlib.Core.Option.{Option, none, some}
use mathlib.Core.List.{List, [], ◌∷◌}
use native.Mathlib.Omega.{arith}
use opti_bridge.Prelude.Tests.{ltb, if◌then◌else◌}

abbrev pub u8 : ℕ → ℕ
u8 n = n % 2 ^ 8

abbrev pub u16 : ℕ → ℕ
u16 n = n % 2 ^ 16

abbrev pub u32 : ℕ → ℕ
u32 n = n % 2 ^ 32

-- `a.checked_add(b)` and `a.checked_mul(b)` on words of `w` values.
abbrev pub checked_add : ℕ → ℕ → ℕ → Option ℕ
checked_add w a b = if ltb (a + b) w then some (a + b) else none

abbrev pub checked_mul : ℕ → ℕ → ℕ → Option ℕ
checked_mul w a b = if ltb (a * b) w then some (a * b) else none

-- `u16::from_le_bytes` and `u32::from_le_bytes`
abbrev pub le16 : ℕ → ℕ → ℕ
le16 b0 b1 = b0 + 2 ^ 8 * b1

abbrev pub le32 : ℕ → ℕ → ℕ → ℕ → ℕ
le32 b0 b1 b2 b3 = b0 + 2 ^ 8 * b1 + 2 ^ 16 * b2 + 2 ^ 24 * b3

-- `to_le_bytes`
abbrev pub to_le16 : ℕ → List ℕ
to_le16 n = n % 2 ^ 8 ∷ n / 2 ^ 8 % 2 ^ 8 ∷ []

abbrev pub to_le32 : ℕ → List ℕ
to_le32 n = n % 2 ^ 8 ∷ n / 2 ^ 8 % 2 ^ 8 ∷ n / 2 ^ 16 % 2 ^ 8 ∷ n / 2 ^ 24 % 2 ^ 8 ∷ []

pub le16-to_le16 : (n : ℕ) → n < 2 ^ 16 → le16 (n % 2 ^ 8) (n / 2 ^ 8 % 2 ^ 8) ≡ n
le16-to_le16 n h = omega arith

pub le32-to_le32 :
    (n : ℕ)
    → n < 2 ^ 32
    → le32 (n % 2 ^ 8) (n / 2 ^ 8 % 2 ^ 8) (n / 2 ^ 16 % 2 ^ 8) (n / 2 ^ 24 % 2 ^ 8) ≡ n
le32-to_le32 n h = omega arith
