-- ===== src/Prelude/Windows.antt =====
-- The bytes of a range of addresses of a memory.
use Prim.Native.Nat.{ℕ, zero, suc, ◌+◌, ◌-◌, ◌≤◌, ◌<◌}
use mathlib.Core.Path.{◌≡◌, refl, ap, ap₂, ◌∙◌}
use mathlib.Core.Logic.{◌⊎◌, inl, inr}
use mathlib.Core.List.{List, [], ◌∷◌, ◌++◌}
use mathlib.Core.Option.{some}
use native.Mathlib.Omega.{arith}
use opti_bridge.Prelude.Lists.{length, get_or, take, drop}
use opti_bridge.Prelude.Slices.{slice?, copy_at}

unfoldable pub window : (ℕ → ℕ) → ℕ → ℕ → List ℕ
window cells from zero = []
window cells from (suc n) = cells from ∷ window cells (from + 1) n

pub window-append :
    (cells : ℕ → ℕ) (from n m : ℕ)
    → window cells from n ++ window cells (from + n) m ≡ window cells from (n + m)
unfolding window
window-append cells from zero m =
    let e : from + 0 ≡ from = omega arith in let f : 0 + m ≡ m = omega arith in rw (e, f)
window-append cells from (suc n) m =
    let e : from + suc n ≡ from + 1 + n = omega arith in
    let f : suc n + m ≡ suc (n + m) = omega arith in
    rw (e, f) (ap (λ t. cells from ∷ t) (window-append cells (from + 1) n m))

pub window_cong :
    (cells cells' : ℕ → ℕ) (from n : ℕ)
    → ((i : ℕ) → from ≤ i → i < from + n → cells i ≡ cells' i)
    → window cells from n ≡ window cells' from n
unfolding window
window_cong cells cells' from zero same = refl
window_cong cells cells' from (suc n) same =
    ap₂ ◌∷◌ (same from (omega arith) (omega arith))
      (window_cong cells cells' (from + 1) n (λ i lo hi. same i (omega arith) (omega arith)))

-- Cells that hold a list.
pub window_list :
    (cells : ℕ → ℕ) (from : ℕ) (bytes : List ℕ)
    → ((i : ℕ) → from ≤ i → i < from + length bytes → cells i ≡ get_or bytes (i - from) 0)
    → window cells from (length bytes) ≡ bytes
unfolding window
window_list cells from [] same = refl
window_list cells from (b ∷ bytes) same =
    let start : from - from ≡ 0 = omega arith in
    let first : cells from ≡ get_or (b ∷ bytes) (from - from) 0 =
      same from (omega arith) (omega arith) in
    ap₂ ◌∷◌ (first ∙ rw start refl) (
      window_list cells (from + 1) bytes (λ i lo hi.
        let next : i - from ≡ suc (i - (from + 1)) = omega (arith, lo) in
        same i (omega (arith, lo)) (omega (arith, hi)) ∙ rw next refl))

pub length-window : (cells : ℕ → ℕ) (from n : ℕ) → length (window cells from n) ≡ n
unfolding window
length-window cells from zero = refl
length-window cells from (suc n) = ap suc (length-window cells (from + 1) n)

drop-window :
    (cells : ℕ → ℕ) (from i n : ℕ) → drop i (window cells from (i + n)) ≡ window cells (from + i) n
unfolding window
drop-window cells from zero n =
    let e : from + 0 ≡ from = omega arith in let f : 0 + n ≡ n = omega arith in rw (e, f) refl
drop-window cells from (suc i) n =
    let e : from + suc i ≡ from + 1 + i = omega arith in
    let f : suc i + n ≡ suc (i + n) = omega arith in rw (e, f) (drop-window cells (from + 1) i n)

take-window :
    (cells : ℕ → ℕ) (from i n : ℕ) → take i (window cells from (i + n)) ≡ window cells from i
unfolding window
take-window cells from zero n = refl
take-window cells from (suc i) n =
    let f : suc i + n ≡ suc (i + n) = omega arith in
    rw f (ap (λ t. cells from ∷ t) (take-window cells (from + 1) i n))

pub slice?-window :
    (cells : ℕ → ℕ) (from i n size : ℕ)
    → i + n ≤ size
    → slice? (window cells from size) i (i + n) ≡ some (window cells (from + i) n)
slice?-window cells from i n size h =
    let whole : size ≡ i + (n + (size - i - n)) = omega arith in
    let rest : drop i (window cells from size) ≡ window cells (from + i) (n + (size - i - n)) =
      ap (λ k. drop i (window cells from k)) whole
      ∙ drop-window cells from i (n + (size - i - n)) in
    let part : i + n - i ≡ n = omega arith in
    ground (
      arith,
      h,
      length-window cells from size,
      rest,
      take-window cells (from + i) n (size - i - n),
      part,
    )

-- A memory that has a list at `i` bytes into the range, and is otherwise as before.
pub window-copy_at :
    (cells cells' : ℕ → ℕ) (from i size : ℕ) (bytes : List ℕ)
    → ((j : ℕ) → j < length bytes → cells' (from + i + j) ≡ get_or bytes j 0)
    → ((a : ℕ) → from ≤ a → (a < from + i) ⊎ (from + i + length bytes ≤ a) → cells' a ≡ cells a)
    → window cells' from size ≡ copy_at i bytes (window cells from size)
unfolding window
window-copy_at cells cells' from i zero bytes here there = refl
window-copy_at cells cells' from zero (suc size) [] here there =
    ap₂ ◌∷◌ (there from (omega arith) (inr (omega arith))) (
      window_cong cells' cells (from + 1) size
        (λ a lo hi. there a (omega (arith, lo)) (inr (omega (arith, lo)))))
window-copy_at cells cells' from zero (suc size) (b ∷ bytes) here there =
    let start : from + 0 + 0 ≡ from = omega arith in
    let first : cells' from ≡ b = rw (← start) (here 0 (omega arith)) in
    ap₂ ◌∷◌ first (
      window-copy_at cells cells' (from + 1) 0 size bytes
        (λ j h.
          let e : from + 1 + 0 + j ≡ from + 0 + suc j = omega arith in
          rw e (here (suc j) (omega (arith, h))))
        (λ a lo out. there a (omega (arith, lo)) (inr (ground (arith, lo, out)))))
window-copy_at cells cells' from (suc i) (suc size) bytes here there =
    ap₂ ◌∷◌ (there from (omega arith) (inl (omega arith))) (
      window-copy_at cells cells' (from + 1) i size bytes
        (λ j h.
          let e : from + 1 + i + j ≡ from + suc i + j = omega arith in
          rw e (here j (omega (arith, h))))
        (λ a lo out. there a (omega (arith, lo)) (ground (arith, out))))

pub get_or-window :
    (cells : ℕ → ℕ) (from n i : ℕ) → i < n → get_or (window cells from n) i 0 ≡ cells (from + i)
unfolding window
get_or-window cells from zero i h = elim h [ ]
get_or-window cells from (suc n) zero h = let e : from + 0 ≡ from = omega arith in rw e refl
get_or-window cells from (suc n) (suc i) h =
    let e : from + suc i ≡ from + 1 + i = omega arith in
    rw e (get_or-window cells (from + 1) n i (omega arith))
