-- ===== src/Loader/Image/Nor/Reads.antt =====
-- The loops over the flash when no read fails.
use opti_bridge.Prelude.{
  ℕ, zero, suc, ◌+◌, ◌-◌, ◌*◌, ◌≡◌, refl, inl, inr, some, List, set, min, ok, Option-cases, arith,
}
use native.Mathlib.Decide.{dec_lt}
use opti_bridge.Protocol.{bpf_flash_offset, bpf_header_size, bpf_map_descriptor_size, max_payload}
use opti_bridge.Crc.{crc32_update}
use opti_bridge.Loader.{BpfFlash, MapLayout}
use opti_bridge.Loader.Image.{layout_of, layouts_from, scan}
use opti_bridge.Loader.Image.Nor.{IsNor, Answers, layouts_in}

module _ {ℓ} {S : Type ℓ} (flash : BpfFlash S) (answers : Answers flash) where
  pub scan_answers :
      (fuel n offset crc : ℕ) (s : S) → (sum : ℕ) × ((scan flash fuel n offset crc s).1 ≡ ok sum)
  unfolding scan
  scan_answers zero n offset crc s = (crc, refl)
  scan_answers (suc fuel) n offset crc s =
      let (chunk, given) = answers s (bpf_flash_offset + bpf_header_size + offset) step in
      let (sum, rest) =
        scan_answers fuel n (offset + step) (crc32_update crc chunk)
          (flash.read s (bpf_flash_offset + bpf_header_size + offset) step).0 in
      elim (dec_lt offset n) [ no done ↦ (crc, ground arith) | yes more ↦ (sum, ground arith) ]
    where
      step : ℕ
      step = min max_payload (n - offset)

  module _ {peek : S → ℕ → ℕ} (nor : IsNor flash peek) where
    pub layouts_from_answers :
        (b left index total : ℕ) (layouts : List MapLayout) (s : S) {found : List MapLayout}
        → layouts_in (peek s) b left index total layouts ≡ some found
        → (layouts_from flash b left index total layouts s).1 ≡ some found
    unfolding layouts_from layouts_in
    layouts_from_answers b zero index total layouts s h = h
    layouts_from_answers b (suc left) index total layouts s {found} h =
        let (descriptor, given) = answers s from bpf_map_descriptor_size in
        let same = nor.read_ok s from bpf_map_descriptor_size descriptor given in
        elim (Option-cases (layout_of descriptor total)) [
          | inl bad ↦ absurd (ground (arith, same))
          | inr ((m, next_total), good) ↦
              let rest =
                layouts_from_answers b left (index + 1) next_total (set layouts index m)
                  (flash.read s from bpf_map_descriptor_size).0 {found = found}
                  (ground (arith, same, nor.read_keeps s from bpf_map_descriptor_size)) in
              ground (arith, given, rest)
        ]
      where
        from : ℕ
        from = bpf_flash_offset + bpf_header_size + b + index * bpf_map_descriptor_size
