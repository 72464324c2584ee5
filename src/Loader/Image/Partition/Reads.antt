-- ===== src/Loader/Image/Partition/Reads.antt =====
-- The loops and the boot, which only read: `map_layouts` and `validate_committed`.
use opti_bridge.Prelude.{
  ℕ, zero, suc, ◌+◌, ◌-◌, ◌*◌, ◌≡◌, sym, subst, inl, inr, min, List, set, not, ◌==◌, ltb, get_or,
  le16, Result-cases, Option-cases, Bool-cases, arith,
}
use opti_bridge.Protocol.{bpf_flash_offset, bpf_header_size, bpf_map_descriptor_size, max_payload}
use opti_bridge.Crc.{crc32_update, crc32_finish}
use opti_bridge.Loader.{
  BpfFlash, BpfLoader, MapLayout, no_layouts, image_len, is_bad_image, clear_map_layouts,
}
use opti_bridge.Loader.Image.{
  layout_of, layouts_from, map_layouts, scan, is_foreign, validate_image, validate_header,
  validate_committed,
}
use opti_bridge.Loader.Image.Partition.{IsKept}

module _ {ℓ κ} {S : Type ℓ} {flash : BpfFlash S} {Q : S → Type κ} (kept : IsKept flash Q) where
  pub layouts_from_kept :
      (b left index total : ℕ) (layouts : List MapLayout) (s : S)
      → Q s
      → Q (layouts_from flash b left index total layouts s).0
  unfolding layouts_from
  layouts_from_kept b zero index total layouts s h = h
  layouts_from_kept b (suc left) index total layouts s h =
      elim (Result-cases (flash.read s from bpf_map_descriptor_size).1) [
        | inr (x, e) ↦ let last : here ≡ read = ground (arith, e) in subst Q (sym last) after
        | inl (descriptor, e) ↦ elim (Option-cases (layout_of descriptor total)) [
          | inl bad ↦ let last : here ≡ read = ground (arith, e, bad) in subst Q (sym last) after
          | inr ((m, next_total), good) ↦
              let rest =
                layouts_from flash b left (index + 1) next_total (set layouts index m) read in
              let next : here ≡ rest.0 = ground (arith, e, good) in
              subst Q (sym next)
                (layouts_from_kept b left (index + 1) next_total (set layouts index m) read after)
        ]
      ]
    where
      from : ℕ
      from = bpf_flash_offset + bpf_header_size + b + index * bpf_map_descriptor_size

      read : S
      read = (flash.read s from bpf_map_descriptor_size).0

      here : S
      here = (layouts_from flash b (suc left) index total layouts s).0

      after : Q read
      after = kept.reads s from bpf_map_descriptor_size h

  scan_kept : (rounds size offset crc : ℕ) (s : S) → Q s → Q (scan flash rounds size offset crc s).0
  unfolding scan
  scan_kept zero size offset crc s h = h
  scan_kept (suc rounds) size offset crc s h = elim (Bool-cases (ltb offset size)) [
    | inr done ↦ let last : here ≡ s = ground (arith, done) in subst Q (sym last) h
    | inl more ↦ elim (Result-cases (flash.read s from step).1) [
      | inr (x, e) ↦ let last : here ≡ read = ground (arith, e, more) in subst Q (sym last) after
      | inl (chunk, e) ↦
          let rest = scan flash rounds size (offset + step) (crc32_update crc chunk) read in
          let next : here ≡ rest.0 = ground (arith, e, more) in
          subst Q (sym next)
            (scan_kept rounds size (offset + step) (crc32_update crc chunk) read after)
    ]
  ]
    where
      step : ℕ
      step = min max_payload (size - offset)

      from : ℕ
      from = bpf_flash_offset + bpf_header_size + offset

      read : S
      read = (flash.read s from step).0

      here : S
      here = (scan flash (suc rounds) size offset crc s).0

      after : Q read
      after = kept.reads s from step h

  validate_image_kept :
      (l : BpfLoader) (b m c size : ℕ) (s : S) → Q s → Q (validate_image flash l b m c size s).1
  unfolding validate_image map_layouts
  validate_image_kept l b m c size s h =
      let scanned = scan flash size size 0 0xffff_ffff s in
      let after = scan_kept size size 0 0xffff_ffff s h in
      let read = layouts_from_kept b m 0 0 no_layouts scanned.0 after in
      elim (Result-cases scanned.1) [
        | inr (x, e) ↦ rw (e, validate_image) after
        | inl (sum, e) ↦ elim (Option-cases (layouts_from flash b m 0 0 no_layouts scanned.0).1) [
          | inl missing ↦ rw (e, missing, validate_image) read
          | inr (layouts, found) ↦ elim (Bool-cases (not (crc32_finish sum == c))) [
            | inl wrong ↦ rw (e, found, wrong, validate_image) read
            | inr right ↦ rw (e, found, right, validate_image) read
          ]
        ]
      ]

  validate_header_kept :
      (l : BpfLoader) (header : List ℕ) (s : S) → Q s → Q (validate_header flash l header s).1
  unfolding validate_header
  validate_header_kept l header s h = elim (Bool-cases (is_foreign header)) [
    | inl foreign ↦ rw (foreign, validate_header) h
    | inr own ↦
        elim (Option-cases
          (image_len (le16 (get_or header 6 0) (get_or header 7 0)) (get_or header 5 0))) [
            | inl missing ↦ rw (own, missing, validate_header) h
            | inr (size, e) ↦
                elim (Bool-cases (
                  is_bad_image (le16 (get_or header 6 0) (get_or header 7 0)) (get_or header 5 0)
                    size)) [
                      | inl bad ↦ rw (own, e, bad, validate_header) h
                      | inr good ↦
                          rw (own, e, good, validate_header) (validate_image_kept l _ _ _ size s h)
                    ]
          ]
  ]

  pub validate_committed_kept : (l : BpfLoader) (s : S) → Q s → Q (validate_committed flash l s).1
  unfolding validate_committed
  validate_committed_kept l s h =
      let after = kept.reads s bpf_flash_offset bpf_header_size h in
      elim (Result-cases (flash.read s bpf_flash_offset bpf_header_size).1) [
        | inr (x, e) ↦ rw (e, validate_committed) after
        | inl (header, e) ↦
            rw (e, validate_committed) (validate_header_kept (clear_map_layouts l) header _ after)
      ]
