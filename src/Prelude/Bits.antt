-- ===== src/Prelude/Bits.antt =====
-- Laws of `&` and `^` at variables, from the digit recursion that the native operations stand for.
use Prim.Native.Nat.{
  ℕ, zero, suc, ◌+◌, ◌-◌, ◌*◌, ◌/◌, ◌%◌, ◌^◌, ◌≤◌, ◌<◌, min, bit_and, bit_xor, bitwise, digits,
  bit_and-bitwise, bit_xor-bitwise, differ,
}
use mathlib.Core.Path.{◌≡◌, refl, ap, ap₂, ◌∙◌, sym}
use native.Mathlib.Nat.{le_refl, div-div-eq-div-mul, pow-suc, one-le-pow}
use native.Mathlib.Decide.{dec_le}
use native.Mathlib.Omega.{arith}

-- Rounds beyond the number itself change nothing, since each one halves it.
module _ (tail : ℕ → ℕ) (digit : ℕ → ℕ → ℕ) where
  one_more_round :
      (rounds x y : ℕ)
      → x ≤ rounds
      → digits tail digit (suc rounds) x y ≡ digits tail digit rounds x y
  one_more_round zero zero y enough = refl
  one_more_round (suc rounds) zero y enough = refl
  one_more_round zero (suc x) y enough = absurd (omega arith)
  one_more_round (suc rounds) (suc x) y enough =
      ap (λ t. t * 2 + digit (suc x % 2) (y % 2))
        (one_more_round rounds (suc x / 2) (y / 2) (omega arith))

  enough_rounds :
      (rounds x y : ℕ) → x ≤ rounds → digits tail digit rounds x y ≡ bitwise tail digit x y
  enough_rounds zero zero y enough = refl
  enough_rounds zero (suc x) y enough = absurd (omega arith)
  enough_rounds (suc rounds) x y enough = elim (dec_le x rounds) [
    | yes fewer ↦ one_more_round rounds x y fewer ∙ enough_rounds rounds x y fewer
    | no equal ↦ let e : suc rounds ≡ x = omega arith in ap (λ r. digits tail digit r x y) e
  ]

  lowest_digit :
      (x y : ℕ)
      → bitwise tail digit (suc x) y
        ≡ bitwise tail digit (suc x / 2) (y / 2) * 2 + digit (suc x % 2) (y % 2)
  lowest_digit x y =
      ap (λ t. t * 2 + digit (suc x % 2) (y % 2))
        (enough_rounds x (suc x / 2) (y / 2) (omega arith))

pub bit_and_step : (x y : ℕ) → bit_and x y ≡ bit_and (x / 2) (y / 2) * 2 + min (x % 2) (y % 2)
bit_and_step zero y = simp bit_and-bitwise (omega arith)
bit_and_step (suc x) y = simp bit_and-bitwise (lowest_digit (λ rest. 0) min x y)

differ-bits : (a b : ℕ) → a < 2 → b < 2 → differ a b ≡ (a + b) % 2
differ-bits zero zero p q = refl
differ-bits zero (suc zero) p q = refl
differ-bits (suc zero) zero p q = refl
differ-bits (suc zero) (suc zero) p q = refl
differ-bits zero (suc (suc b)) p q = absurd (omega arith)
differ-bits (suc zero) (suc (suc b)) p q = absurd (omega arith)
differ-bits (suc (suc a)) b p q = absurd (omega arith)

pub bit_xor_step : (a b : ℕ) → bit_xor a b ≡ bit_xor (a / 2) (b / 2) * 2 + (a % 2 + b % 2) % 2
bit_xor_step zero b = simp bit_xor-bitwise (omega arith)
bit_xor_step (suc a) b = simp bit_xor-bitwise (
    lowest_digit (λ y. y) differ a b
    ∙ ap (λ t. bitwise (λ y. y) differ (suc a / 2) (b / 2) * 2 + t)
        (differ-bits (suc a % 2) (b % 2) (omega arith) (omega arith)))

-- A mask of one bit.
bit_and-zero_below : (n a : ℕ) → a ≤ n → bit_and a 0 ≡ 0
bit_and-zero_below n zero h = refl
bit_and-zero_below zero (suc a) h = absurd (omega arith)
bit_and-zero_below (suc n) (suc a) h =
    omega (arith, bit_and_step (suc a) 0, bit_and-zero_below n (suc a / 2) (omega arith))

pub bit_and-zero : (a : ℕ) → bit_and a 0 ≡ 0
bit_and-zero a = bit_and-zero_below a a (le_refl a)

pub bit_and-one : (a : ℕ) → bit_and a 1 ≡ a % 2
bit_and-one a = omega (arith, bit_and_step a 1, bit_and-zero (a / 2))

-- `^` digit by digit, and the laws that follow.
pub bit_xor-div : (a b : ℕ) → bit_xor a b / 2 ≡ bit_xor (a / 2) (b / 2)
bit_xor-div a b = omega (arith, bit_xor_step a b)

pub bit_xor-mod : (a b : ℕ) → bit_xor a b % 2 ≡ (a + b) % 2
bit_xor-mod a b = omega (arith, bit_xor_step a b)

pub bit_xor-div_pow : (k a b : ℕ) → bit_xor a b / 2 ^ k ≡ bit_xor (a / 2 ^ k) (b / 2 ^ k)
bit_xor-div_pow zero a b =
    let e : a / 1 ≡ a = omega arith in
    let f : b / 1 ≡ b = omega arith in omega (arith, ap₂ bit_xor e f)
bit_xor-div_pow (suc k) a b =
    halve (bit_xor a b)
    ∙ ap (λ t. t / 2) (bit_xor-div_pow k a b)
    ∙ bit_xor-div (a / 2 ^ k) (b / 2 ^ k)
    ∙ ap₂ bit_xor (sym (halve a)) (sym (halve b))
  where
    halve : (x : ℕ) → x / 2 ^ suc k ≡ x / 2 ^ k / 2
    halve x = rw pow-suc (sym (div-div-eq-div-mul x (2 ^ k) 2))

-- The exclusive or of two 32-bit words is one.
pub bit_xor-lt_word : (a b : ℕ) → a < 2 ^ 32 → b < 2 ^ 32 → bit_xor a b < 2 ^ 32
bit_xor-lt_word a b h k =
    let high = bit_xor-div_pow 32 a b in
    let ea : a / 2 ^ 32 ≡ 0 = omega arith in
    let eb : b / 2 ^ 32 ≡ 0 = omega arith in omega (arith, high, ap₂ bit_xor ea eb)

assoc_below :
    (n a b c : ℕ) → a ≤ n → b ≤ n → c ≤ n → bit_xor (bit_xor a b) c ≡ bit_xor a (bit_xor b c)
assoc_below zero zero zero zero p q r = refl
assoc_below zero (suc a) b c p q r = absurd (omega arith)
assoc_below zero zero (suc b) c p q r = absurd (omega arith)
assoc_below zero zero zero (suc c) p q r = absurd (omega arith)
assoc_below (suc n) a b c p q r = omega (
  arith,
  bit_xor_step (bit_xor a b) c,
  bit_xor_step a (bit_xor b c),
  ap (λ t. bit_xor t (c / 2)) (bit_xor-div a b),
  ap (λ t. bit_xor (a / 2) t) (bit_xor-div b c),
  bit_xor-mod a b,
  bit_xor-mod b c,
  assoc_below n (a / 2) (b / 2) (c / 2) (omega arith) (omega arith) (omega arith),
)

pub bit_xor_assoc : (a b c : ℕ) → bit_xor (bit_xor a b) c ≡ bit_xor a (bit_xor b c)
bit_xor_assoc a b c = assoc_below (a + b + c) a b c (omega arith) (omega arith) (omega arith)

self_below : (n a : ℕ) → a ≤ n → bit_xor a a ≡ 0
self_below n zero h = refl
self_below zero (suc a) h = absurd (omega arith)
self_below (suc n) (suc a) h =
    omega (arith, bit_xor_step (suc a) (suc a), self_below n (suc a / 2) (omega arith))

pub bit_xor_self : (a : ℕ) → bit_xor a a ≡ 0
bit_xor_self a = self_below a a (le_refl a)

zero_below : (n a : ℕ) → a ≤ n → bit_xor a 0 ≡ a
zero_below n zero h = refl
zero_below zero (suc a) h = absurd (omega arith)
zero_below (suc n) (suc a) h =
    omega (arith, bit_xor_step (suc a) 0, zero_below n (suc a / 2) (omega arith))

pub bit_xor-zero : (a : ℕ) → bit_xor a 0 ≡ a
bit_xor-zero a = zero_below a a (le_refl a)

-- Applying the same mask twice gives the number back.
pub bit_xor_cancel : (a p : ℕ) → bit_xor (bit_xor a p) p ≡ a
bit_xor_cancel a p = bit_xor_assoc a p p ∙ ap (bit_xor a) (bit_xor_self p) ∙ bit_xor-zero a

pub bit_xor_injective : (a b p : ℕ) → bit_xor a p ≡ bit_xor b p → a ≡ b
bit_xor_injective a b p h = sym (bit_xor_cancel a p) ∙ ap (λ t. bit_xor t p) h ∙ bit_xor_cancel b p

comm_below : (n a b : ℕ) → a ≤ n → b ≤ n → bit_xor a b ≡ bit_xor b a
comm_below zero zero zero p q = refl
comm_below zero (suc a) b p q = absurd (omega arith)
comm_below zero zero (suc b) p q = absurd (omega arith)
comm_below (suc n) a b p q = omega (
  arith,
  bit_xor_step a b,
  bit_xor_step b a,
  comm_below n (a / 2) (b / 2) (omega arith) (omega arith),
)

pub bit_xor_comm : (a b : ℕ) → bit_xor a b ≡ bit_xor b a
bit_xor_comm a b = comm_below (a + b) a b (omega arith) (omega arith)

-- A mask of low bits is a remainder, and a mask above bit `k` works on the quotient.
shifted_once : (width high : ℕ) → high * 2 ^ suc width ≡ 2 * (high * 2 ^ width)
shifted_once width high = ap (λ (t : ℕ). high * t) (pow-suc 2 width) ∙ omega arith

low_field :
    (width high low : ℕ) → low < 2 ^ width → bit_and (high * 2 ^ width + low) (2 ^ width - 1) ≡ low
low_field zero high low small = rw bit_and-zero (omega arith)
low_field (suc width) high low small =
    let rest = low_field width high (low / 2) (omega (arith, small, pow-suc 2 width)) in
    ground (
      arith,
      rest,
      shifted_once width high,
      pow-suc 2 width,
      bit_and_step (high * 2 ^ suc width + low) (2 ^ suc width - 1),
    )

pub bit_and_low : (k a : ℕ) → bit_and a (2 ^ k - 1) ≡ a % 2 ^ k
bit_and_low k a = ground (arith, one-le-pow k 2, low_field k (a / 2 ^ k) (a % 2 ^ k))

pub bit_and_high : (k a m : ℕ) → bit_and a (m * 2 ^ k) ≡ bit_and (a / 2 ^ k) m * 2 ^ k
bit_and_high zero a m =
    let e : m * 1 ≡ m = omega arith in
    let f : a / 1 ≡ a = omega arith in ap₂ bit_and (sym f) e ∙ omega arith
bit_and_high (suc k) a m =
    let even : m * 2 ^ suc k ≡ 2 * (m * 2 ^ k) = shifted_once k m in
    let half : m * 2 ^ suc k / 2 ≡ m * 2 ^ k = omega (arith, even) in
    let quotient : a / 2 / 2 ^ k ≡ a / 2 ^ suc k =
      div-div-eq-div-mul a 2 (2 ^ k) ∙ ap (λ (t : ℕ). a / t) (omega (arith, pow-suc 2 k)) in
    omega (
      arith,
      bit_and_step a (m * 2 ^ suc k),
      even,
      ap (bit_and (a / 2)) half,
      bit_and_high k (a / 2) m,
      ap (λ t. bit_and t m * 2 ^ k) quotient,
      shifted_once k (bit_and (a / 2 ^ suc k) m),
    )
