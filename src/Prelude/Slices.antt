-- ===== src/Prelude/Slices.antt =====
-- Sub-slices: `xs.get(a..b)`, `xs[i..].copy_from_slice(src)`, and their laws.
use Prim.Native.Nat.{ℕ, zero, suc, ◌+◌, ◌-◌, ◌≤◌, ◌<◌}
use mathlib.Core.Path.{◌≡◌, refl, ap, ◌∙◌, sym}
use mathlib.Core.Logic.{◌⊎◌}
use mathlib.Core.Bool.{◌&&◌}
use mathlib.Core.List.{List, [], ◌∷◌, ◌++◌}
use mathlib.Core.Option.{Option, none, some}
use native.Mathlib.Omega.{arith}
use opti_bridge.Prelude.Tests.{leb, if◌then◌else◌}
use opti_bridge.Prelude.Lists.{length, get_or, take, drop, set}

module _ {ℓ} {A : Type ℓ} where
  -- `xs.get(from..to)`
  abbrev pub slice? : List A → ℕ → ℕ → Option (List A)
  slice? xs from to =
      if leb from to && leb to (length xs) then some (take (to - from) (drop from xs)) else none

  -- `dest[at..at + src.len()].copy_from_slice(src)`; what would fall outside is dropped.
  abbrev pub copy_at : ℕ → List A → List A → List A
  copy_at i src [] = []
  copy_at zero [] (x ∷ xs) = x ∷ xs
  copy_at zero (s ∷ src) (x ∷ xs) = s ∷ copy_at zero src xs
  copy_at (suc i) src (x ∷ xs) = x ∷ copy_at i src xs

module _ {ℓ} {A : Type ℓ} where
  pub length-copy_at : (i : ℕ) (src xs : List A) → length (copy_at i src xs) ≡ length xs
  length-copy_at i src [] = refl
  length-copy_at zero [] (x ∷ xs) = refl
  length-copy_at zero (s ∷ src) (x ∷ xs) = ap suc (length-copy_at zero src xs)
  length-copy_at (suc i) src (x ∷ xs) = ap suc (length-copy_at i src xs)

  pub get_or-take :
      (n : ℕ) (xs : List A) (i : ℕ) (d : A) → i < n → get_or (take n xs) i d ≡ get_or xs i d
  get_or-take zero xs i d h = absurd (omega arith)
  get_or-take (suc n) [] i d h = refl
  get_or-take (suc n) (x ∷ xs) zero d h = refl
  get_or-take (suc n) (x ∷ xs) (suc i) d h = get_or-take n xs i d (omega arith)

  pub get_or-drop :
      (n : ℕ) (xs : List A) (i : ℕ) (d : A) → get_or (drop n xs) i d ≡ get_or xs (n + i) d
  get_or-drop zero xs i d = ap (λ k. get_or xs k d) (omega arith)
  get_or-drop (suc n) [] i d = refl
  get_or-drop (suc n) (x ∷ xs) i d =
      let e : suc n + i ≡ suc (n + i) = omega arith in
      get_or-drop n xs i d ∙ ap (λ k. get_or (x ∷ xs) k d) (sym e)

  pub take-copy_at_zero :
      (src xs : List A) → length src ≤ length xs → take (length src) (copy_at 0 src xs) ≡ src
  take-copy_at_zero [] xs h = refl
  take-copy_at_zero (s ∷ src) [] h = absurd (omega arith)
  take-copy_at_zero (s ∷ src) (x ∷ xs) h = ap (λ t. s ∷ t) (take-copy_at_zero src xs (omega arith))

  -- What was copied in reads back.
  pub take-drop-copy_at :
      (i : ℕ) (src xs : List A)
      → i + length src ≤ length xs
      → take (length src) (drop i (copy_at i src xs)) ≡ src
  take-drop-copy_at zero src xs h = take-copy_at_zero src xs (omega arith)
  take-drop-copy_at (suc i) [] [] h = refl
  take-drop-copy_at (suc i) (s ∷ src) [] h = absurd (omega arith)
  take-drop-copy_at (suc i) src (x ∷ xs) h = take-drop-copy_at i src xs (omega arith)

  -- What lies outside the range that was written is unchanged.
  pub get_or-copy_at_outside :
      (i : ℕ) (src xs : List A) (j : ℕ) (d : A)
      → (j < i) ⊎ (i + length src ≤ j)
      → get_or (copy_at i src xs) j d ≡ get_or xs j d
  get_or-copy_at_outside i src [] j d h = refl
  get_or-copy_at_outside zero [] (x ∷ xs) j d h = refl
  get_or-copy_at_outside zero (s ∷ src) (x ∷ xs) zero d h = absurd (omega arith)
  get_or-copy_at_outside zero (s ∷ src) (x ∷ xs) (suc j) d h =
      get_or-copy_at_outside zero src xs j d (omega arith)
  get_or-copy_at_outside (suc i) src (x ∷ xs) zero d h = refl
  get_or-copy_at_outside (suc i) src (x ∷ xs) (suc j) d h =
      get_or-copy_at_outside i src xs j d (omega arith)

  -- A window that lies apart from the range that was written reads as before.
  pub take-drop-copy_at_apart :
      (i n j : ℕ) (src xs : List A)
      → (j + n ≤ i) ⊎ (i + length src ≤ j)
      → take n (drop j (copy_at i src xs)) ≡ take n (drop j xs)
  take-drop-copy_at_apart i zero j src xs h = refl
  take-drop-copy_at_apart i (suc n) j src [] h = refl
  take-drop-copy_at_apart zero (suc n) j [] (x ∷ xs) h = refl
  take-drop-copy_at_apart zero (suc n) zero (s ∷ src) (x ∷ xs) h = absurd (omega arith)
  take-drop-copy_at_apart zero (suc n) (suc j) (s ∷ src) (x ∷ xs) h =
      take-drop-copy_at_apart zero (suc n) j src xs (omega arith)
  take-drop-copy_at_apart (suc i) (suc n) zero src (x ∷ xs) h =
      ap (λ t. x ∷ t) (take-drop-copy_at_apart i n 0 src xs (omega arith))
  take-drop-copy_at_apart (suc i) (suc n) (suc j) src (x ∷ xs) h =
      take-drop-copy_at_apart i (suc n) j src xs (omega arith)

  pub take-suc-set :
      (n : ℕ) (xs : List A) (v : A)
      → n < length xs
      → take (suc n) (set xs n v) ≡ take n xs ++ v ∷ []
  take-suc-set n [] v h = absurd (omega arith)
  take-suc-set zero (x ∷ xs) v h = refl
  take-suc-set (suc n) (x ∷ xs) v h = ap (λ t. x ∷ t) (take-suc-set n xs v (omega arith))

  take-nil : (n : ℕ) → take {A = A} n [] ≡ []
  take-nil zero = refl
  take-nil (suc n) = refl

  pub drop-take : (n m : ℕ) (xs : List A) → drop n (take m xs) ≡ take (m - n) (drop n xs)
  drop-take zero m xs = ap (λ k. take k xs) (omega arith)
  drop-take (suc n) zero xs =
      let e : zero - suc n ≡ zero = omega arith in ap (λ k. take k (drop (suc n) xs)) (sym e)
  drop-take (suc n) (suc m) [] = sym (take-nil (suc m - suc n))
  drop-take (suc n) (suc m) (x ∷ xs) =
      let e : suc m - suc n ≡ m - n = omega arith in
      drop-take n m xs ∙ ap (λ k. take k (drop n xs)) (sym e)

  pub copy_at-nil : (xs : List A) → copy_at 0 [] xs ≡ xs
  copy_at-nil [] = refl
  copy_at-nil (x ∷ xs) = refl

  -- A head and a tail written one behind the other read back as one list.
  pub take-copy_at-copy_at :
      (header payload output : List A)
      → length header + length payload ≤ length output
      → take
          (length header + length payload)
          (copy_at (length header) payload (copy_at 0 header output))
        ≡ header ++ payload
  take-copy_at-copy_at [] payload output h =
      let e : 0 + length payload ≡ length payload = omega arith in
      rw (e, copy_at-nil output) (take-copy_at_zero payload output (omega arith))
  take-copy_at-copy_at (x ∷ header) payload [] h = absurd (omega arith)
  take-copy_at-copy_at (x ∷ header) payload (y ∷ output) h =
      let e : suc (length header) + length payload ≡ suc (length header + length payload) =
        omega arith in
      rw e (ap (λ t. x ∷ t) (take-copy_at-copy_at header payload output (omega arith)))

  pub slice?-copy_at_apart :
      (i n j : ℕ) (src xs : List A)
      → (j + n ≤ i) ⊎ (i + length src ≤ j)
      → slice? (copy_at i src xs) j (j + n) ≡ slice? xs j (j + n)
  slice?-copy_at_apart i n j src xs h =
      let e : j + n - j ≡ n = omega arith in
      rw (e, length-copy_at i src xs, take-drop-copy_at_apart i n j src xs h)
