-- ===== src/Loader/Image/Nor/CutOperations.antt =====
-- What `begin`, `program` and `finalize` leave in the cells when the power is cut.
use opti_bridge.Prelude.{
  window, window_cong, ℕ, zero, suc, ◌+◌, ◌*◌, ◌/◌, ◌≤◌, ◌<◌, ◌≡◌, refl, ap, ◌∙◌, subst, ◌⊎◌, inl,
  inr, Option, some, List, [], ◌∷◌, take, Result, Result-cases, Option-cases, Bool-cases, arith,
  true, not, ◌==◌,
}
use native.Mathlib.Decide.{dec_lt}
use opti_bridge.Protocol.{bpf_flash_offset, bpf_header_size, bpf_map_descriptor_size}
use opti_bridge.Crc.{crc32_finish}
use opti_bridge.Loader.{
  BpfFlash, BpfLoader, MapLayout, no_layouts, LoadOperation, begin_op, data_op, finalize_op,
}
use opti_bridge.Loader.Image.{
  map_layouts, is_foreign, image_header, begin, program, finalize, perform,
}
use opti_bridge.Loader.Image.Invariant.{IsImage, IsTransfer, IsLoader, Suits, image_len-IsImage}
use opti_bridge.Loader.Image.Nor.{IsNor, layouts_in, layouts_from_keeps, layouts_from_found}
use opti_bridge.Loader.Image.Nor.Agrees.{
  Holds, Receives, Stored, marked-Holds, image_header-IsBytes,
}
use opti_bridge.Loader.Image.Nor.Loads.{Works}
use opti_bridge.Loader.Image.Nor.Steps.{foreign_header}
use opti_bridge.Loader.Image.Nor.PowerCuts.{
  IsTear, Powered, power_cut, read_cut, write_cut, erase_cut, power_cut-IsNor,
}

-- A header of which one of the bytes of the commit marker is not zero.
uncommitted_header :
    (cells : ℕ → ℕ)
    → (0 < cells (bpf_flash_offset + 12)) ⊎ (0 < cells (bpf_flash_offset + 13))
    → is_foreign (window cells bpf_flash_offset bpf_header_size) ≡ true
unfolding window
uncommitted_header cells set = ground (arith, set)

-- The cells after an operation that was cut: as before a Begin, an image without the commit marker,
-- or the whole image after a Finalize.
pub data After (l : BpfLoader) (before after : ℕ → ℕ) : LoadOperation → Type 0 where
  not_begun : {b m c : ℕ} → after ≡ before → After l before after (begin_op b m c)
  uncommitted :
      {op : LoadOperation}
      → is_foreign (window after bpf_flash_offset bpf_header_size) ≡ true
      → After l before after op
  finished :
      (layouts : List MapLayout)
      → Holds after l.bytecode_len l.map_count l.expected_crc layouts
      → After l before after finalize_op

module _ {ℓ} {S : Type ℓ} {flash : BpfFlash S} {tear : S → ℕ → List ℕ → S} {peek : S → ℕ → ℕ}
    (nor : IsNor flash peek) (tears : IsTear tear peek) where
  abbrev end_of : ℕ → ℕ → ℕ
  end_of b m =
      bpf_flash_offset + (bpf_header_size + (b + m * bpf_map_descriptor_size) + 4095) / 4096 * 4096

  blank_header :
      (s : S) (b m : ℕ)
      → Works flash
      → (i : ℕ) → bpf_flash_offset ≤ i
      → i < bpf_flash_offset + bpf_header_size
      → peek (flash.erase s bpf_flash_offset (end_of b m)).0 i ≡ 0xff
  blank_header s b m works i lo hi =
      nor.erase_ok s bpf_flash_offset (end_of b m) i (works.erases s bpf_flash_offset (end_of b m))
        lo (omega (arith, hi))

  begin-After :
      (l : BpfLoader) (b m c : ℕ) (s : S) (calls : ℕ)
      → Works flash
      → IsImage b m
      → After l
          (peek s)
          (peek (begin (power_cut flash tear) l b m c (s, some calls)).1.0)
          (begin_op b m c)
  unfolding begin power_cut read_cut write_cut erase_cut
  begin-After l b m c s zero works image = rw (image_len-IsImage image, begin) (not_begun refl)
  begin-After l b m c s (suc zero) works image =
      rw (image_len-IsImage image, begin, works.erases s bpf_flash_offset (end_of b m))
        (uncommitted (
          uncommitted_header _ (
            inl (
              omega (
                arith,
                tears.unprogrammed (flash.erase s bpf_flash_offset (end_of b m)).0 bpf_flash_offset
                    (image_header b m c) 12 refl
                    (blank_header s b m works (bpf_flash_offset + 12) (omega arith) (omega arith)),
              )))))
  begin-After l b m c s (suc (suc calls)) works image =
      let erased = (flash.erase s bpf_flash_offset (end_of b m)).0 in
      let written =
        nor.write_ok erased bpf_flash_offset (image_header b m c)
          (image_header-IsBytes b m c (omega (arith, image.maps_max)))
          (λ i lo hi. blank_header s b m works i lo hi)
          (works.writes erased bpf_flash_offset (image_header b m c)) in
      rw
        (
          image_len-IsImage image,
          begin,
          works.erases s bpf_flash_offset (end_of b m),
          works.writes erased bpf_flash_offset (image_header b m c),
        )
        (uncommitted (ap is_foreign written ∙ foreign_header b m c))

  -- An image in transfer has no commit marker.
  pub Receives-foreign :
      (l : BpfLoader) (cells : ℕ → ℕ)
      → Receives l cells
      → is_foreign (window cells bpf_flash_offset bpf_header_size) ≡ true
  Receives-foreign l cells r =
      ap is_foreign r.header ∙ foreign_header l.bytecode_len l.map_count l.expected_crc

  program-After :
      (l : BpfLoader) (offset : ℕ) (bytes : List ℕ) (len : ℕ) (s : S) (calls : Option ℕ)
      → Receives l (peek s)
      → After l
          (peek s)
          (peek (program (power_cut flash tear) l offset bytes len (s, calls)).1.0)
          (data_op offset bytes len)
  unfolding program
  program-After l offset bytes len s calls r =
      let at = bpf_flash_offset + bpf_header_size + offset in
      let x : Powered S × Result (Unit {0}) (Unit {0}) =
        (power_cut flash tear).write (s, calls) at (take len bytes) in
      let same : window (peek x.0.0) bpf_flash_offset bpf_header_size
          ≡ window (peek s) bpf_flash_offset bpf_header_size =
        window_cong (peek x.0.0) (peek s) bpf_flash_offset bpf_header_size (λ i lo hi.
          (power_cut-IsNor nor tears).write_outside (s, calls) at (take len bytes) i
            (inl (omega (arith, hi)))) in
      elim (Result-cases x.1) [
        | inr (u, e) ↦
            rw (e, program) (uncommitted (ap is_foreign same ∙ Receives-foreign l (peek s) r))
        | inl (u, e) ↦
            rw (e, program) (uncommitted (ap is_foreign same ∙ Receives-foreign l (peek s) r))
      ]

  -- The commit marker is torn or written.
  marked-After :
      (l : BpfLoader) (cells : ℕ → ℕ) (layouts : List MapLayout) (p : Powered S)
      → IsTransfer l
      → l.next_offset ≡ l.image_len
      → Receives l cells
      → crc32_finish l.crc ≡ l.expected_crc
      → layouts_in cells l.bytecode_len l.map_count 0 0 no_layouts ≡ some layouts
      → peek p.0 ≡ cells
      → After l cells
          (peek ((power_cut flash tear).write p (bpf_flash_offset + 12) (0 ∷ 0 ∷ [])).0.0)
          finalize_op
  unfolding window
  marked-After l cells layouts p t whole r right found before =
      let marked = peek ((power_cut flash tear).write p (bpf_flash_offset + 12) (0 ∷ 0 ∷ [])).0.0 in
      let same : (i : ℕ)
          → (i < bpf_flash_offset + 12) ⊎ (bpf_flash_offset + 14 ≤ i)
          → marked i ≡ cells i =
        λ i out.
          (power_cut-IsNor nor tears).write_outside p (bpf_flash_offset + 12) (0 ∷ 0 ∷ []) i out
          ∙ ap (λ c. c i) before in
      elim (dec_lt 0 (marked (bpf_flash_offset + 12))) [
        | yes set ↦ uncommitted (uncommitted_header marked (inl set))
        | no clear ↦ elim (dec_lt 0 (marked (bpf_flash_offset + 13))) [
          | yes set ↦ uncommitted (uncommitted_header marked (inr set))
          | no clear' ↦
              let first : marked (bpf_flash_offset + 12) ≡ 0 = omega (arith, clear) in
              let second : marked (bpf_flash_offset + 13) ≡ 0 = omega (arith, clear') in
              finished layouts (
                marked-Holds cells marked l layouts t whole r right found
                  (ground (arith, first, second)) same)
        ]
      ]

  finalize-After :
      (l : BpfLoader) (s : S) (calls : Option ℕ)
      → IsTransfer l
      → l.next_offset ≡ l.image_len
      → Receives l (peek s)
      → After l (peek s) (peek (finalize (power_cut flash tear) l (s, calls)).1.0) finalize_op
  unfolding finalize map_layouts
  finalize-After l s calls t whole r =
      let left = uncommitted (Receives-foreign l (peek s) r) in
      elim (Bool-cases (not (crc32_finish l.crc == l.expected_crc))) [
        | inl wrong ↦ rw (wrong, finalize) left
        | inr right ↦ elim (Option-cases read.1) [
          | inl missing ↦ rw (right, missing, finalize, kept) left
          | inr (layouts, found) ↦
              let ended =
                marked-After l (peek s) layouts read.0 t whole r (ground (arith, right))
                  (layouts_from_found (power_cut-IsNor nor tears) l.bytecode_len l.map_count 0 0
                    no_layouts (s, calls) found)
                  kept in
              elim (Result-cases marked.1) [
                | inr (x, e) ↦ rw (right, found, e, finalize) ended
                | inl (x, e) ↦ rw (right, found, e, finalize) ended
              ]
        ]
      ]
    where
      read : Powered S × Option (List MapLayout)
      read = map_layouts (power_cut flash tear) l.bytecode_len l.map_count (s, calls)

      marked : Powered S × Result (Unit {0}) (Unit {0})
      marked = (power_cut flash tear).write read.0 (bpf_flash_offset + 12) (0 ∷ 0 ∷ [])

      kept : peek read.0.0 ≡ peek s
      kept =
          layouts_from_keeps (power_cut-IsNor nor tears) l.bytecode_len l.map_count 0 0 no_layouts
            (s, calls)

  pub perform-After :
      (op : LoadOperation) (l : BpfLoader) (s : S) (calls : ℕ)
      → Works flash
      → IsLoader l
      → Suits l op
      → Stored l.state l (peek s)
      → After l (peek s) (peek (perform (power_cut flash tear) op l (s, some calls)).1.0) op
  perform-After (begin_op b m c) l s calls works v fits stored =
      begin-After l b m c s calls works fits
  perform-After (data_op offset bytes len) l s calls works v fits stored =
      program-After l offset bytes len s (some calls)
        (subst (λ state. Stored state l (peek s)) fits.0 stored)
  perform-After finalize_op l s calls works v fits stored =
      finalize-After l s (some calls) (v.transfer fits.0) fits.1
        (subst (λ state. Stored state l (peek s)) fits.0 stored)
