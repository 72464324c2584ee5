-- ===== src/Loader/Image/Invariant/Storage.antt =====
-- The invariant through `execute_pending` and `validate_committed`, the operations on the flash.
use opti_bridge.Prelude.{
  ℕ, ◌+◌, ◌*◌, ◌/◌, ◌≤◌, ◌≡◌, refl, Bool-cases, Option, none, List, get_or, take, inl, inr,
  Option-cases, Result-cases, Result, arith, le16, ◌==◌, not, [], ◌∷◌,
}
use opti_bridge.Protocol.{
  bpf_max_maps, bpf_max_map_bytes, bpf_header_size, bpf_map_descriptor_size, bpf_flash_offset,
  status_bad_state, status_flash_error, status_bad_crc,
}
use opti_bridge.Crc.{crc32_finish}
use opti_bridge.Loader.{
  BpfFlash, BpfLoader, LoadOperation, begin_op, data_op, finalize_op, empty, MapLayout,
  clear_map_layouts, image_len, is_bad_image,
}
use opti_bridge.Loader.Image.{
  begin, program, finalize, perform, execute_pending, map_layouts, validate_image, validate_header,
  validate_committed, fail, image_header, scan, is_foreign,
}
use opti_bridge.Loader.Image.Layouts.{IsLaid, map_layouts-IsLaid}
use opti_bridge.Loader.Image.Invariant.Requests.{Suits-pending}
use opti_bridge.Loader.Image.Invariant.{
  IsImage, Suits, IsTransfer, IsLoader, good_image, quiet-IsLoader, blank, image_len-IsImage,
  taken-IsLoader,
}

module _ {ℓ} {S : Type ℓ} (flash : BpfFlash S) where
  begin-IsLoader :
      (l : BpfLoader) (b m c : ℕ) (s : S)
      → l.pending ≡ none
      → IsImage b m
      → IsLoader (begin flash l b m c s).0
  unfolding begin
  begin-IsLoader l b m c s quiet image =
      rw (image_len-IsImage image, begin)
        (elim (Result-cases erased.1) [
          | inr (x, e) ↦ rw e failed_begin
          | inl (x, e) ↦
              rw e
                (elim (Result-cases
                  (flash.write erased.0 bpf_flash_offset (image_header b m c)).1) [
                    | inr (x, e') ↦ rw e' failed_begin
                    | inl (x, e') ↦ rw e' record {
                      laid = blank;
                      hidden = λ h. refl;
                      transfer = λ h. record {
                        image = image;
                        sized = omega (arith, image.total_max);
                        received = omega arith;
                        even = refl;
                      };
                      suits = λ op h. absurd (cc);
                      idle = λ h. quiet;
                    }
                  ])
        ])
    where
      erased : S × Result (Unit {0}) (Unit {0})
      erased = flash.erase s bpf_flash_offset (
          bpf_flash_offset
          + (bpf_header_size + (b + m * bpf_map_descriptor_size) + 4095) / 4096 * 4096)

      failed_begin : IsLoader (fail (clear_map_layouts l) status_flash_error)
      failed_begin = quiet-IsLoader _ quiet (λ h. cc) blank (λ h. refl)

  program-IsLoader :
      (l : BpfLoader) (at_offset : ℕ) (bytes : List ℕ) (len : ℕ) (s : S)
      → IsLoader l
      → l.pending ≡ none
      → Suits l (data_op at_offset bytes len)
      → IsLoader (program flash l at_offset bytes len s).0
  unfolding program
  program-IsLoader l at_offset bytes len s v quiet fits = elim (Result-cases written.1) [
    | inr (x, e) ↦ rw (e, program) (quiet-IsLoader _ quiet (λ h. cc) v.laid (λ h. none_exposed))
    | inl (x, e) ↦
        rw (e, program)
          record {
            laid = v.laid;
            hidden = v.hidden;
            transfer = λ h. record {
              image = t.image;
              sized = t.sized;
              received = omega (arith, t.image.total_max, t.sized);
              even = omega (arith, t.image.total_max, t.sized, t.even);
            };
            suits = λ op h. absurd (cc);
            idle = λ h. quiet;
          }
  ]
    where
      written : S × Result (Unit {0}) (Unit {0})
      written = flash.write s (bpf_flash_offset + bpf_header_size + at_offset) (take len bytes)

      t : IsTransfer l
      t = v.transfer fits.0

      none_exposed : l.committed_map_count ≡ 0
      none_exposed = v.hidden (rw fits.0)

  finalize-IsLoader :
      (l : BpfLoader) (s : S)
      → IsLoader l
      → l.pending ≡ none
      → Suits l finalize_op
      → IsLoader (finalize flash l s).0
  unfolding finalize
  finalize-IsLoader l s v quiet fits =
      elim (Bool-cases (not (crc32_finish l.crc == l.expected_crc))) [
        | inl wrong ↦ rw (wrong, finalize) (failed_with status_bad_crc)
        | inr right ↦ elim (Option-cases found.1) [
          | inl e ↦ rw (right, e, finalize) (failed_with status_bad_state)
          | inr (layouts, e) ↦
              elim (Result-cases (flash.write found.0 (bpf_flash_offset + 12) (0 ∷ 0 ∷ [])).1) [
                | inr (x, e') ↦ rw (right, e, e', finalize) (failed_with status_flash_error)
                | inl (x, e') ↦
                    rw (right, e, e', finalize)
                      (quiet-IsLoader _ quiet (λ h. cc)
                        (map_layouts-IsLaid flash l.bytecode_len l.map_count s
                          (v.transfer fits.0).image.maps_max e)
                        (λ h. absurd (cc)))
              ]
        ]
      ]
    where
      found : S × Option (List MapLayout)
      found = map_layouts flash l.bytecode_len l.map_count s

      failed_with : (status : ℕ) → IsLoader (fail l status)
      failed_with status = quiet-IsLoader _ quiet (λ h. cc) v.laid (λ h. v.hidden (rw fits.0))

  perform-IsLoader :
      (op : LoadOperation) (l : BpfLoader) (s : S)
      → IsLoader l
      → l.pending ≡ none
      → Suits l op
      → IsLoader (perform flash op l s).0
  perform-IsLoader (begin_op b m c) l s v quiet fits = begin-IsLoader l b m c s quiet fits
  perform-IsLoader (data_op at_offset bytes len) l s v quiet fits =
      program-IsLoader l at_offset bytes len s v quiet fits
  perform-IsLoader finalize_op l s v quiet fits = finalize-IsLoader l s v quiet fits

  -- From a loader that satisfies the invariant, the pending operation on the flash, if any, leads
  -- to one that satisfies it, whatever the flash answers.
  pub execute_pending-IsLoader :
      (l : BpfLoader) (s : S) → IsLoader l → IsLoader (execute_pending flash l s).0
  unfolding execute_pending
  execute_pending-IsLoader l s v = elim (Option-cases l.pending) [
    | inl e ↦ rw (e, execute_pending) v
    | inr (op, e) ↦
        rw (e, execute_pending)
          (perform-IsLoader op (record l { pending = none }) s (taken-IsLoader l v) refl
            (Suits-pending l none op (v.suits op e)))
  ]

  validate_image-IsLoader :
      (l : BpfLoader) (b m c image : ℕ) (s : S)
      → l.pending ≡ none
      → IsLaid l.map_layouts l.committed_map_count bpf_max_map_bytes
      → l.committed_map_count ≡ 0
      → m ≤ bpf_max_maps
      → IsLoader (validate_image flash l b m c image s).0
  unfolding validate_image
  validate_image-IsLoader l b m c image s quiet laid hidden few = elim (Result-cases scanned.1) [
    | inr (x, e) ↦ rw (e, validate_image) (quiet-IsLoader _ quiet (λ h. cc) laid (λ h. hidden))
    | inl (crc, e) ↦ elim (Option-cases found.1) [
      | inl e' ↦ rw (e, e', validate_image) (quiet-IsLoader _ quiet (λ h. cc) laid (λ h. hidden))
      | inr (layouts, e') ↦ elim (Bool-cases (not (crc32_finish crc == c))) [
        | inl wrong ↦
            rw (e, e', wrong, validate_image) (quiet-IsLoader _ quiet (λ h. cc) laid (λ h. hidden))
        | inr right ↦
            rw (e, e', right, validate_image)
              (quiet-IsLoader _ quiet (λ h. cc) (map_layouts-IsLaid flash b m scanned.0 few e')
                (λ h. absurd (cc)))
      ]
    ]
  ]
    where
      scanned : S × Result ℕ (Unit {0})
      scanned = scan flash image image 0 0xffff_ffff s

      found : S × Option (List MapLayout)
      found = map_layouts flash b m scanned.0

  validate_header-IsLoader :
      (l : BpfLoader) (header : List ℕ) (s : S)
      → l.pending ≡ none
      → IsLaid l.map_layouts l.committed_map_count bpf_max_map_bytes
      → l.committed_map_count ≡ 0
      → IsLoader (validate_header flash l header s).0
  unfolding validate_header
  validate_header-IsLoader l header s quiet laid hidden = elim (Bool-cases (is_foreign header)) [
    | inl foreign ↦ rw (foreign, validate_header) no_image
    | inr own ↦ elim (Option-cases (image_len b m)) [
      | inl e ↦ rw (own, e, validate_header) no_image
      | inr (image, e) ↦ elim (Bool-cases (is_bad_image b m image)) [
        | inl wrong ↦ rw (own, e, wrong, validate_header) no_image
        | inr right ↦
            rw (own, e, right, validate_header)
              (validate_image-IsLoader l b m _ image s quiet laid hidden
                (good_image b m e right).0.maps_max)
      ]
    ]
  ]
    where
      b : ℕ
      b = le16 (get_or header 6 0) (get_or header 7 0)

      m : ℕ
      m = get_or header 5 0

      no_image : IsLoader (record l { state = empty })
      no_image = quiet-IsLoader _ quiet (λ h. cc) laid (λ h. hidden)

  -- Validation at boot of a loader with nothing pending leads to one that satisfies the invariant,
  -- whatever the flash holds or answers.
  pub validate_committed-IsLoader :
      (l : BpfLoader) (s : S) → l.pending ≡ none → IsLoader (validate_committed flash l s).0
  unfolding validate_committed
  validate_committed-IsLoader l s quiet =
      elim (Result-cases (flash.read s bpf_flash_offset bpf_header_size).1) [
        | inr (x, e) ↦
            rw (e, validate_committed) (quiet-IsLoader _ quiet (λ h. cc) blank (λ h. refl))
        | inl (header, e) ↦
            rw (e, validate_committed)
              (validate_header-IsLoader (clear_map_layouts l) header _ quiet blank refl)
      ]
