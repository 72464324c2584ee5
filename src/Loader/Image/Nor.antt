-- ===== src/Loader/Image/Nor.antt =====
-- The flash as the documentation of NOR flash has it: cells that a read gives, an erase fills with
-- 0xff and a write programs once erased. `peek` is the content of a state of the driver, by address.
-- What the loops over the flash in crates/optibridge-protocol/src/lib.rs then find.
pub mod Bytes
pub mod Agrees
pub mod Operations
pub mod Reads
pub mod Boot
pub mod Steps
pub mod Sessions
pub mod PowerCuts
pub mod CutOperations
pub mod Recovery
pub mod Loads
pub mod CommitSteps
pub mod Commits
use opti_bridge.Prelude.{
  window, window-append, window_cong, window_list, ℕ, zero, suc, ◌+◌, ◌-◌, ◌*◌, ◌^◌, ◌≤◌, ◌<◌, ◌≡◌,
  refl, ap, ap₂, sym, ◌∙◌, subst, ◌⊎◌, inl, inr, min, Option, none, some, List, [], ◌∷◌, ◌++◌,
  length, set, All, get_or, Result, ok, err, Result-cases, Option-cases, arith, ltb, if◌then◌else◌,
  Bool-cases, true, false,
}
use native.Mathlib.Decide.{dec_lt}
use opti_bridge.Protocol.{bpf_flash_offset, bpf_header_size, bpf_map_descriptor_size, max_payload}
use opti_bridge.Crc.{crc32_update}
use opti_bridge.Crc.Detect.{IsBytes, crc32_update-append}
use opti_bridge.Loader.{BpfFlash, MapLayout, no_layouts}
use opti_bridge.Loader.Image.{layout_of, layouts_from, map_layouts, scan}

pub record IsNor {ℓ} {S : Type ℓ} (flash : BpfFlash S) (peek : S → ℕ → ℕ) : Type ℓ where
  pub read_ok :
      (s : S) (offset n : ℕ) (bytes : List ℕ)
      → (flash.read s offset n).1 ≡ ok bytes
      → bytes ≡ window (peek s) offset n
  pub read_keeps : (s : S) (offset n : ℕ) → peek (flash.read s offset n).0 ≡ peek s
  pub write_ok :
      (s : S) (offset : ℕ) (bytes : List ℕ)
      → IsBytes bytes
      → ((i : ℕ) → offset ≤ i → i < offset + length bytes → peek s i ≡ 0xff)
      → (flash.write s offset bytes).1 ≡ ok tt
      → window (peek (flash.write s offset bytes).0) offset (length bytes) ≡ bytes
  pub write_outside :
      (s : S) (offset : ℕ) (bytes : List ℕ) (i : ℕ)
      → (i < offset) ⊎ (offset + length bytes ≤ i)
      → peek (flash.write s offset bytes).0 i ≡ peek s i
  pub erase_ok :
      (s : S) (from to i : ℕ)
      → (flash.erase s from to).1 ≡ ok tt
      → from ≤ i
      → i < to
      → peek (flash.erase s from to).0 i ≡ 0xff

-- No read fails.
abbrev pub Answers {ℓ} : {S : Type ℓ} → BpfFlash S → Type ℓ
Answers {S} flash =
    (s : S) (offset n : ℕ) → (bytes : List ℕ) × ((flash.read s offset n).1 ≡ ok bytes)

crc32_update-nil : (crc : ℕ) → crc32_update crc [] ≡ crc
unfolding crc32_update
crc32_update-nil crc = refl

-- Two neighbouring ranges, one after the other.
pub crc32_update-windows :
    (cells : ℕ → ℕ) (crc from n m whole : ℕ)
    → n + m ≡ whole
    → crc32_update (crc32_update crc (window cells from n)) (window cells (from + n) m)
      ≡ crc32_update crc (window cells from whole)
crc32_update-windows cells crc from n m whole e =
    sym (crc32_update-append crc (window cells from n) (window cells (from + n) m))
    ∙ ap (crc32_update crc) (window-append cells from n m ∙ ap (window cells from) e)

-- The loop of `map_layouts` on the cells.
unfoldable pub layouts_in : (ℕ → ℕ) → ℕ → ℕ → ℕ → ℕ → List MapLayout → Option (List MapLayout)
layouts_in cells bytecode_len zero index total layouts = some layouts
layouts_in cells bytecode_len (suc left) index total layouts =
    elim (layout_of
      (window cells
        (bpf_flash_offset + bpf_header_size + bytecode_len + index * bpf_map_descriptor_size)
        bpf_map_descriptor_size)
      total) [
        | none ↦ none
        | some (m, next_total) ↦
            layouts_in cells bytecode_len left (index + 1) next_total (set layouts index m)
      ]

module _ {ℓ} {S : Type ℓ} {flash : BpfFlash S} {peek : S → ℕ → ℕ} (nor : IsNor flash peek) where
  pub layouts_from_keeps :
      (b left index total : ℕ) (layouts : List MapLayout) (s : S)
      → peek (layouts_from flash b left index total layouts s).0 ≡ peek s
  unfolding layouts_from
  layouts_from_keeps b zero index total layouts s = refl
  layouts_from_keeps b (suc left) index total layouts s =
      elim (Result-cases (flash.read s from bpf_map_descriptor_size).1) [
        | inr (e, refused) ↦ ground (arith, kept)
        | inl (descriptor, given) ↦ elim (Option-cases (layout_of descriptor total)) [
          | inl bad ↦ ground (arith, kept)
          | inr ((m, next_total), good) ↦ ground (
            arith,
            kept,
            layouts_from_keeps b left (index + 1) next_total (set layouts index m)
                (flash.read s from bpf_map_descriptor_size).0,
          )
        ]
      ]
    where
      from : ℕ
      from = bpf_flash_offset + bpf_header_size + b + index * bpf_map_descriptor_size

      kept : peek (flash.read s from bpf_map_descriptor_size).0 ≡ peek s
      kept = nor.read_keeps s from bpf_map_descriptor_size

  pub layouts_from_found :
      (b left index total : ℕ) (layouts : List MapLayout) (s : S) {found : List MapLayout}
      → (layouts_from flash b left index total layouts s).1 ≡ some found
      → layouts_in (peek s) b left index total layouts ≡ some found
  unfolding layouts_from layouts_in
  layouts_from_found b zero index total layouts s h = h
  layouts_from_found b (suc left) index total layouts s {found} h =
      elim (Result-cases (flash.read s from bpf_map_descriptor_size).1) [
        | inr (e, refused) ↦ absurd (ground arith)
        | inl (descriptor, given) ↦ elim (Option-cases (layout_of descriptor total)) [
          | inl bad ↦ absurd (ground arith)
          | inr ((m, next_total), good) ↦
              let rest =
                layouts_from_found b left (index + 1) next_total (set layouts index m)
                  (flash.read s from bpf_map_descriptor_size).0 {found = found} (ground arith) in
              ground (
                arith,
                nor.read_ok s from bpf_map_descriptor_size descriptor given,
                nor.read_keeps s from bpf_map_descriptor_size,
                rest,
              )
        ]
      ]
    where
      from : ℕ
      from = bpf_flash_offset + bpf_header_size + b + index * bpf_map_descriptor_size

  pub scan_keeps :
      (fuel n offset crc : ℕ) (s : S) → peek (scan flash fuel n offset crc s).0 ≡ peek s
  unfolding scan
  scan_keeps zero n offset crc s = refl
  scan_keeps (suc fuel) n offset crc s = elim (Result-cases (flash.read s from step).1) [
    | inr (e, refused) ↦ ground (arith, nor.read_keeps s from step)
    | inl (chunk, given) ↦ ground (
      arith,
      nor.read_keeps s from step,
      scan_keeps fuel n (offset + step) (crc32_update crc chunk) (flash.read s from step).0,
    )
  ]
    where
      step : ℕ
      step = min max_payload (n - offset)

      from : ℕ
      from = bpf_flash_offset + bpf_header_size + offset

  pub scan_ok :
      (fuel n offset crc : ℕ) (s : S) {sum : ℕ}
      → n ≤ offset + fuel
      → offset ≤ n
      → (scan flash fuel n offset crc s).1 ≡ ok sum
      → sum
        ≡ crc32_update crc
            (window (peek s) (bpf_flash_offset + bpf_header_size + offset) (n - offset))
  unfolding scan window
  scan_ok zero n offset crc s {sum} enough within h =
      let e : n - offset ≡ 0 = omega arith in rw e (ground (arith, crc32_update-nil crc))
  scan_ok (suc fuel) n offset crc s {sum} enough within h = elim (dec_lt offset n) [
    | no done ↦ let e : n - offset ≡ 0 = omega arith in rw e (ground (arith, crc32_update-nil crc))
    | yes more ↦ elim (Result-cases (flash.read s from step).1) [
      | inr (e, refused) ↦ absurd (ground arith)
      | inl (chunk, given) ↦
          let rest =
            scan_ok fuel n (offset + step) (crc32_update crc chunk) (flash.read s from step).0
              {sum = sum} (omega arith) (omega arith) (ground arith) in
          let f : bpf_flash_offset + bpf_header_size + (offset + step) ≡ from + step =
            omega arith in
          let joined =
            crc32_update-windows (peek s) crc from step (n - (offset + step)) (n - offset)
              (omega arith) in
          cc (rest, f, joined, nor.read_ok s from step chunk given, nor.read_keeps s from step)
    ]
  ]
    where
      step : ℕ
      step = min max_payload (n - offset)

      from : ℕ
      from = bpf_flash_offset + bpf_header_size + offset
