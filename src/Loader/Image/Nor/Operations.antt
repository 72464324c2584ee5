-- ===== src/Loader/Image/Nor/Operations.antt =====
-- `begin`, `program` and `finalize` on NOR flash.
use opti_bridge.Prelude.{
  window, window_cong, ℕ, ◌+◌, ◌*◌, ◌/◌, ◌^◌, ◌≤◌, ◌<◌, ◌≡◌, refl, ap, sym, ◌∙◌, subst, ◌⊎◌, inl,
  inr, Option, some, List, [], ◌∷◌, length, take, Result, ok, Result-cases, Option-cases, arith,
  Bool-cases, not, ◌==◌, length-take, u16,
}
use opti_bridge.Protocol.{bpf_flash_offset, bpf_header_size, bpf_map_descriptor_size}
use opti_bridge.Crc.{crc32_finish}
use opti_bridge.Crc.Detect.{IsBytes}
use opti_bridge.Loader.{
  BpfFlash, BpfLoader, MapLayout, no_layouts, LoadOperation, begin_op, data_op, finalize_op,
}
use opti_bridge.Loader.Image.{map_layouts, image_header, begin, program, finalize, perform}
use opti_bridge.Loader.Image.Invariant.{IsImage, IsTransfer, IsLoader, Suits, image_len-IsImage}
use opti_bridge.Loader.Image.Nor.Bytes.{FromBytes, take-IsBytes}
use opti_bridge.Loader.Image.Nor.{
  IsNor, crc32_update-windows, layouts_from_keeps, layouts_from_found,
}
use opti_bridge.Loader.Image.Nor.Agrees.{
  body, Holds, Receives, Stored, image_header-IsBytes, marker_erased, marked-Holds,
  nothing_received,
}

module _ {ℓ} {S : Type ℓ} {flash : BpfFlash S} {peek : S → ℕ → ℕ} (nor : IsNor flash peek) where
  begin-Stored :
      (l : BpfLoader) (b m c : ℕ) (s : S)
      → IsImage b m
      → c < 2 ^ 32
      → let (l', s') = begin flash l b m c s in Stored l'.state l' (peek s')
  unfolding begin
  begin-Stored l b m c s image word =
      rw (image_len-IsImage image, begin)
        (elim (Result-cases erased.1) [
          | inr (x, e) ↦ rw e tt
          | inl (x, e) ↦
              rw e
                (elim (Result-cases
                  (flash.write erased.0 bpf_flash_offset (image_header b m c)).1) [
                    | inr (x, e') ↦ rw e' tt
                    | inl (x, e') ↦ rw e' record {
                      header =
                          nor.write_ok erased.0 bpf_flash_offset (image_header b m c)
                            (image_header-IsBytes b m c (omega (arith, image.maps_max)))
                            (λ i lo hi.
                              nor.erase_ok s bpf_flash_offset end i e lo (omega (arith, hi)))
                            e';
                      word = word;
                      sum = nothing_received _;
                      erased = λ i lo hi.
                          nor.write_outside erased.0 bpf_flash_offset (image_header b m c) i
                            (inr (omega (arith, lo)))
                          ∙ nor.erase_ok s bpf_flash_offset end i e (omega (arith, lo))
                              (omega (arith, hi));
                    }
                  ])
        ])
    where
      end : ℕ
      end =
          bpf_flash_offset
          + (bpf_header_size + (b + m * bpf_map_descriptor_size) + 4095) / 4096 * 4096

      erased : S × Result (Unit {0}) (Unit {0})
      erased = flash.erase s bpf_flash_offset end

  program-Stored :
      (l : BpfLoader) (offset : ℕ) (bytes : List ℕ) (len : ℕ) (s : S)
      → IsTransfer l
      → Suits l (data_op offset bytes len)
      → IsBytes bytes
      → Receives l (peek s)
      → let (l', s') = program flash l offset bytes len s in Stored l'.state l' (peek s')
  unfolding program
  program-Stored l offset bytes len s t fits spelled r =
      elim (Result-cases (flash.write s at chunk).1) [
        | inr (x, e) ↦ rw (e, program) tt
        | inl (x, e) ↦
            let short : length chunk ≡ len = omega (arith, length-take len bytes, fits) in
            let kept : (i : ℕ) → (i < at) ⊎ (at + len ≤ i) → peek s' i ≡ peek s i =
              λ i out. nor.write_outside s at chunk i (ground (arith, out, short)) in
            let fresh : window (peek s') at len ≡ chunk =
              subst (λ n. window (peek s') at n ≡ chunk) short
                (nor.write_ok s at chunk (take-IsBytes len bytes spelled)
                  (λ i lo hi.
                    r.erased i (omega (arith, lo, fits.1))
                      (omega (arith, hi, short, fits.1, fits.5)))
                  e) in
            let before : window (peek s) body l.next_offset ≡ window (peek s') body l.next_offset =
              window_cong (peek s) (peek s') body l.next_offset
                (λ i lo hi. sym (kept i (inl (omega (arith, hi, fits.1))))) in
            let total : l.next_offset + len ≡ u16 (l.next_offset + len) =
              omega (arith, fits, t.sized, t.image.total_max) in
            let joined =
              crc32_update-windows (peek s') 0xffff_ffff body l.next_offset len
                (u16 (l.next_offset + len)) total in
            let place : body + l.next_offset ≡ at = omega (arith, fits.1) in
            rw (e, program, fits.0)
              record {
                header =
                    window_cong (peek s') (peek s) bpf_flash_offset bpf_header_size
                      (λ i lo hi. kept i (inl (omega arith)))
                    ∙ r.header;
                word = r.word;
                sum = cc (r.sum, fresh, before, joined, place);
                erased = λ i lo hi.
                    kept i (inr (omega (arith, lo, total, place)))
                    ∙ r.erased i (omega (arith, lo, total)) hi;
              }
      ]
    where
      at : ℕ
      at = bpf_flash_offset + bpf_header_size + offset

      chunk : List ℕ
      chunk = take len bytes

      s' : S
      s' = (flash.write s at chunk).0

  finalize-Stored :
      (l : BpfLoader) (s : S)
      → IsTransfer l
      → l.next_offset ≡ l.image_len
      → Receives l (peek s)
      → let (l', s') = finalize flash l s in Stored l'.state l' (peek s')
  unfolding finalize map_layouts
  finalize-Stored l s t whole r = elim (Bool-cases (not (crc32_finish l.crc == l.expected_crc))) [
    | inl wrong ↦ rw (wrong, finalize) tt
    | inr right ↦ elim (Option-cases read.1) [
      | inl missing ↦ rw (right, missing, finalize) tt
      | inr (layouts, found) ↦ elim (Result-cases marked.1) [
        | inr (x, e) ↦ rw (right, found, e, finalize) tt
        | inl (x, e) ↦
            rw (right, found, e, finalize) (finished layouts (ground (arith, right)) found e, refl)
      ]
    ]
  ]
    where
      read : S × Option (List MapLayout)
      read = map_layouts flash l.bytecode_len l.map_count s

      marked : S × Result (Unit {0}) (Unit {0})
      marked = flash.write read.0 (bpf_flash_offset + 12) (0 ∷ 0 ∷ [])

      finished :
          (layouts : List MapLayout)
          → crc32_finish l.crc ≡ l.expected_crc
          → read.1 ≡ some layouts
          → marked.1 ≡ ok tt
          → Holds (peek marked.0) l.bytecode_len l.map_count l.expected_crc layouts
      finished layouts right found e =
          let same_reads : peek read.0 ≡ peek s =
            layouts_from_keeps nor l.bytecode_len l.map_count 0 0 no_layouts s in
          let marker =
            nor.write_ok read.0 (bpf_flash_offset + 12) (0 ∷ 0 ∷ []) (omega arith)
              (λ i lo hi.
                ap (λ c. c i) same_reads
                ∙ marker_erased (peek s) l.bytecode_len l.map_count l.expected_crc i r.header lo hi)
              e in
          marked-Holds (peek s) (peek marked.0) l layouts t whole r right
            (layouts_from_found nor l.bytecode_len l.map_count 0 0 no_layouts s found) marker
            (λ i out.
              nor.write_outside read.0 (bpf_flash_offset + 12) (0 ∷ 0 ∷ []) i out
              ∙ ap (λ c. c i) same_reads)

  pub perform-Stored :
      (op : LoadOperation) (l : BpfLoader) (s : S)
      → IsLoader l
      → Suits l op
      → FromBytes op
      → Stored l.state l (peek s)
      → let (l', s') = perform flash op l s in Stored l'.state l' (peek s')
  perform-Stored (begin_op b m c) l s v fits spelled stored = begin-Stored l b m c s fits spelled
  perform-Stored (data_op offset bytes len) l s v fits spelled stored =
      program-Stored l offset bytes len s (v.transfer fits.0) fits spelled
        (subst (λ state. Stored state l (peek s)) fits.0 stored)
  perform-Stored finalize_op l s v fits spelled stored =
      finalize-Stored l s (v.transfer fits.0) fits.1
        (subst (λ state. Stored state l (peek s)) fits.0 stored)
