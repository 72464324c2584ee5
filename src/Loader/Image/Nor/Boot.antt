-- ===== src/Loader/Image/Nor/Boot.antt =====
-- `validate_committed` on NOR flash: what it finds at boot.
use opti_bridge.Prelude.{
  window, ℕ, ◌+◌, ◌-◌, ◌*◌, ◌≤◌, ◌≡◌, refl, ap, sym, ◌∙◌, subst, inl, inr, Option, List, get_or,
  Result, ok, Result-cases, Option-cases, arith, Bool-cases, true, false, le16, le32, not, ◌==◌,
}
use opti_bridge.Protocol.{bpf_flash_offset, bpf_header_size, bpf_map_descriptor_size}
use opti_bridge.Crc.{crc32_update, crc32_finish}
use opti_bridge.Loader.{
  BpfFlash, BpfLoader, MapLayout, no_layouts, committed, image_len, is_bad_image, clear_map_layouts,
}
use opti_bridge.Loader.Maps.{has_program}
use opti_bridge.Loader.Image.{
  map_layouts, scan, is_foreign, validate_image, validate_header, validate_committed,
}
use opti_bridge.Loader.Image.Invariant.{IsImage, good_image, image_len-IsImage}
use opti_bridge.Loader.Image.Nor.{
  IsNor, Answers, layouts_in, layouts_from_keeps, layouts_from_found, scan_keeps, scan_ok,
}
use opti_bridge.Loader.Image.Nor.Reads.{scan_answers, layouts_from_answers}
use opti_bridge.Loader.Image.Nor.Agrees.{Declares, body, Holds, Stored}

module _ {ℓ} {S : Type ℓ} {flash : BpfFlash S} {peek : S → ℕ → ℕ} (nor : IsNor flash peek) where
  validate_image-Stored :
      (l : BpfLoader) (b m c : ℕ) (s : S)
      → IsImage b m
      → Declares (window (peek s) bpf_flash_offset bpf_header_size) b m c
      → let (l', s') = validate_image flash l b m c (b + m * bpf_map_descriptor_size) s in
        Stored l'.state l' (peek s')
  unfolding validate_image map_layouts
  validate_image-Stored l b m c s image declared = elim (Result-cases scanned.1) [
    | inr (x, e) ↦ rw (e, validate_image) tt
    | inl (sum, e) ↦ elim (Option-cases read.1) [
      | inl missing ↦ rw (e, missing, validate_image) tt
      | inr (layouts, found) ↦ elim (Bool-cases (not (crc32_finish sum == c))) [
        | inl wrong ↦ rw (e, found, wrong, validate_image) tt
        | inr right ↦
            let same : peek read.0 ≡ peek s =
              layouts_from_keeps nor b m 0 0 no_layouts scanned.0
              ∙ scan_keeps nor image_size image_size 0 0xffff_ffff s in
            let summed =
              scan_ok nor image_size image_size 0 0xffff_ffff s {sum = sum} (omega arith)
                (omega arith) e in
            let place : bpf_flash_offset + bpf_header_size + 0 ≡ body = omega arith in
            let size : image_size - 0 ≡ image_size = omega arith in
            let whole : sum ≡ crc32_update 0xffff_ffff (window (peek s) body image_size) =
              cc (summed, place, size) in
            rw (e, found, right, validate_image, same)
              (
                record {
                  image = image;
                  declared = declared;
                  sum = rw (← whole) (ground (arith, right));
                  laid =
                      ap (λ c. layouts_in c b m 0 0 no_layouts)
                        (sym (scan_keeps nor image_size image_size 0 0xffff_ffff s))
                      ∙ layouts_from_found nor b m 0 0 no_layouts scanned.0 found;
                },
                refl,
              )
      ]
    ]
  ]
    where
      image_size : ℕ
      image_size = b + m * bpf_map_descriptor_size

      scanned : S × Result ℕ (Unit {0})
      scanned = scan flash image_size image_size 0 0xffff_ffff s

      read : S × Option (List MapLayout)
      read = map_layouts flash b m scanned.0

  validate_header-Stored :
      (l : BpfLoader) (header : List ℕ) (s : S)
      → header ≡ window (peek s) bpf_flash_offset bpf_header_size
      → let (l', s') = validate_header flash l header s in Stored l'.state l' (peek s')
  unfolding validate_header
  validate_header-Stored l header s given = elim (Bool-cases (is_foreign header)) [
    | inl foreign ↦ rw (foreign, validate_header) tt
    | inr own ↦ elim (Option-cases (image_len b m)) [
      | inl missing ↦ rw (own, missing, validate_header) tt
      | inr (image, size) ↦ elim (Bool-cases (is_bad_image b m image)) [
        | inl bad ↦ rw (own, size, bad, validate_header) tt
        | inr good ↦
            let (fits, exact) = good_image b m size good in
            rw (own, size, good, validate_header, exact)
              (validate_image-Stored l b m c s fits
                (subst (λ h. Declares h b m c) given (own, refl, refl, refl)))
      ]
    ]
  ]
    where
      b : ℕ
      b = le16 (get_or header 6 0) (get_or header 7 0)

      m : ℕ
      m = get_or header 5 0

      c : ℕ
      c = le32 (get_or header 8 0) (get_or header 9 0) (get_or header 10 0) (get_or header 11 0)

  -- Whatever boot finds in the flash, the loader afterwards agrees with it.
  pub validate_committed-Stored :
      (l : BpfLoader) (s : S)
      → let (l', s') = validate_committed flash l s in Stored l'.state l' (peek s')
  unfolding validate_committed
  validate_committed-Stored l s =
      elim (Result-cases (flash.read s bpf_flash_offset bpf_header_size).1) [
        | inr (x, e) ↦ rw (e, validate_committed) tt
        | inl (header, e) ↦
            rw (e, validate_committed)
              (validate_header-Stored (clear_map_layouts l) header _ (
                nor.read_ok s bpf_flash_offset bpf_header_size header e
                ∙ ap (λ c. window c bpf_flash_offset bpf_header_size)
                    (sym (nor.read_keeps s bpf_flash_offset bpf_header_size))))
      ]

good_is_not_bad :
    (b m : ℕ) → IsImage b m → is_bad_image b m (b + m * bpf_map_descriptor_size) ≡ false
good_is_not_bad b m image = ground arith

module _ {ℓ} {S : Type ℓ} (flash : BpfFlash S) {peek : S → ℕ → ℕ} (nor : IsNor flash peek) where
  -- On NOR flash, if no read fails, as many rounds as the image has bytes are enough for the loop
  -- of `validate_committed`: it ends with the CRC of the whole image, and more rounds change
  -- nothing.
  pub scan_ends :
      (rounds size crc : ℕ) (s : S)
      → Answers flash
      → size ≤ rounds
      → (scan flash rounds size 0 crc s).1 ≡ ok (crc32_update crc (window (peek s) body size))
  scan_ends rounds size crc s answers enough =
      let (sum, scanned) = scan_answers flash answers rounds size 0 crc s in
      let summed =
        scan_ok nor rounds size 0 crc s {sum = sum} (omega arith) (omega arith) scanned in
      let place : bpf_flash_offset + bpf_header_size + 0 ≡ body = omega arith in
      let whole : size - 0 ≡ size = omega arith in scanned ∙ cc (summed, place, whole)

-- The loader after a boot that finds a committed image.
abbrev pub found_image : BpfLoader → ℕ → ℕ → ℕ → List MapLayout → BpfLoader
found_image l b m c layouts = record l {
  state = committed c;
  bytecode_len = b;
  map_count = m;
  map_layouts = layouts;
  committed_map_count = m;
}

module _ {ℓ} {S : Type ℓ} (flash : BpfFlash S) {peek : S → ℕ → ℕ} (nor : IsNor flash peek) where
  validate_image-Holds :
      (l : BpfLoader) (b m c : ℕ) (layouts : List MapLayout) (s : S)
      → Answers flash
      → Holds (peek s) b m c layouts
      → (validate_image flash l b m c (b + m * bpf_map_descriptor_size) s).0
        ≡ found_image l b m c layouts
  unfolding validate_image map_layouts
  validate_image-Holds l b m c layouts s answers h =
      let size = b + m * bpf_map_descriptor_size in
      let (sum, scanned) = scan_answers flash answers size size 0 0xffff_ffff s in
      let s' = (scan flash size size 0 0xffff_ffff s).0 in
      let kept = scan_keeps nor size size 0 0xffff_ffff s in
      let laid =
        layouts_from_answers flash answers nor b m 0 0 no_layouts s' {found = layouts}
          (ap (λ c. layouts_in c b m 0 0 no_layouts) kept ∙ h.laid) in
      let summed =
        scan_ok nor size size 0 0xffff_ffff s {sum = sum} (omega arith) (omega arith) scanned in
      let place : bpf_flash_offset + bpf_header_size + 0 ≡ body = omega arith in
      let whole : size - 0 ≡ size = omega arith in
      let right : crc32_finish sum ≡ c = cc (summed, place, whole, h.sum) in
      let passes : not (crc32_finish sum == c) ≡ false = ground (arith, right) in
      rw (scanned, laid, passes, validate_image) refl

  validate_header-own :
      (l : BpfLoader) (header : List ℕ) (s : S)
      → let b = le16 (get_or header 6 0) (get_or header 7 0) in
        let m = get_or header 5 0 in
        let c =
          le32 (get_or header 8 0) (get_or header 9 0) (get_or header 10 0) (get_or header 11 0) in
        is_foreign header ≡ false
        → IsImage b m
        → validate_header flash l header s
          ≡ validate_image flash l b m c (b + m * bpf_map_descriptor_size) s
  unfolding validate_header
  validate_header-own l header s own image =
      rw (own, image_len-IsImage image, good_is_not_bad _ _ image, validate_header) refl

  validate_header-Holds :
      (l : BpfLoader) (header : List ℕ) (b m c : ℕ) (layouts : List MapLayout) (s : S)
      → Answers flash
      → Declares header b m c
      → Holds (peek s) b m c layouts
      → (validate_header flash l header s).0 ≡ found_image l b m c layouts
  validate_header-Holds l header b m c layouts s answers (own, at_m, at_b, at_c) h =
      let image : IsImage (le16 (get_or header 6 0) (get_or header 7 0)) (get_or header 5 0) =
        rw (at_m, at_b) h.image in
      ap (λ r. r.0) (validate_header-own l header s own image)
      ∙ rw (at_m, at_b, at_c) (validate_image-Holds l b m c layouts s answers h)

  -- A committed image in the flash is found at boot, if no read fails.
  pub validate_committed-Holds :
      (l : BpfLoader) (s : S) {b m c : ℕ} {layouts : List MapLayout}
      → Answers flash
      → Holds (peek s) b m c layouts
      → (validate_committed flash l s).0 ≡ found_image (clear_map_layouts l) b m c layouts
  unfolding validate_committed
  validate_committed-Holds l s {b} {m} {c} {layouts} answers h =
      let (header, given) = answers s bpf_flash_offset bpf_header_size in
      let same = nor.read_keeps s bpf_flash_offset bpf_header_size in
      let read = nor.read_ok s bpf_flash_offset bpf_header_size header given in
      rw (given, validate_committed)
        (validate_header-Holds (clear_map_layouts l) header b m c layouts _ answers
          (subst (λ w. Declares w b m c) (sym read) h.declared)
          (subst (λ cells. Holds cells b m c layouts) (sym same) h))

  -- An image whose header has no commit marker is not a program, whatever else the cells hold and
  -- whether or not reads fail.
  pub validate_committed-uncommitted :
      (l : BpfLoader) (s : S)
      → is_foreign (window (peek s) bpf_flash_offset bpf_header_size) ≡ true
      → has_program (validate_committed flash l s).0.state ≡ false
  unfolding validate_committed validate_header
  validate_committed-uncommitted l s foreign =
      elim (Result-cases (flash.read s bpf_flash_offset bpf_header_size).1) [
        | inr (x, e) ↦ rw (e, validate_committed) refl
        | inl (header, e) ↦
            let own : is_foreign header ≡ true =
              ap is_foreign (nor.read_ok s bpf_flash_offset bpf_header_size header e) ∙ foreign in
            rw (e, own, validate_committed) refl
      ]
