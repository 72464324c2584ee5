-- ===== src/Loader/Image/Nor/CommitSteps.antt =====
-- Each operation of a load in turn, on a NOR flash without failures.
use opti_bridge.Prelude.{
  ℕ, ◌+◌, ◌≤◌, ◌≡◌, refl, ap, ap₂, sym, ◌∙◌, inl, some, List, [], ◌∷◌, ◌++◌, length, take, copy_at,
  replicate, take-copy_at_zero, length-append, arith, false, ◌==◌, not, window, window-append,
  window_cong,
}
use opti_bridge.Protocol.{bpf_flash_offset, bpf_header_size}
use opti_bridge.Crc.{crc32_update, crc32_finish}
use opti_bridge.Loader.{
  BpfFlash, BpfLoader, MapLayout, no_layouts, begin_op, data_op, finalize_op, committed,
}
use opti_bridge.Loader.Image.{
  layouts_from, image_header, begin, program, finalize, execute_pending, map_layouts,
}
use opti_bridge.Loader.Image.Invariant.{IsImage, IsTransfer, image_len-IsImage}
use opti_bridge.Loader.Image.Nor.Agrees.{body, Receives}
use opti_bridge.Loader.Image.Nor.Reads.{layouts_from_answers}
use opti_bridge.Loader.Image.Nor.{IsNor, layouts_in}
use opti_bridge.Loader.Image.Nor.Loads.{IsChunk, Works, Progress, Committed}

module _ {ℓ} {S : Type ℓ} {flash : BpfFlash S} {peek : S → ℕ → ℕ} (nor : IsNor flash peek)
    (works : Works flash) where
  pub begin-Progress :
      (l : BpfLoader) (b m c : ℕ) (s : S)
      → IsImage b m
      → let (l', s') = execute_pending flash (record l { pending = some (begin_op b m c) }) s in
        Progress b m c [] l' (peek s')
  unfolding execute_pending begin window
  begin-Progress l b m c s image =
      rw
        (
          image_len-IsImage image,
          works.erases s bpf_flash_offset _,
          works.writes _ bpf_flash_offset (image_header b m c),
          begin,
        )
        record {
          state = refl;
          quiet = refl;
          bytecode = refl;
          maps = refl;
          expected = refl;
          next = refl;
          held = refl;
        }

  pub data-Progress :
      (l : BpfLoader) (b m c : ℕ) (received chunk : List ℕ) (s : S)
      → IsTransfer l
      → Receives l (peek s)
      → Progress b m c received l (peek s)
      → IsChunk chunk
      → length received + length chunk ≤ l.image_len
      → let op = data_op (length received) (copy_at 0 chunk (replicate 12 0)) (length chunk) in
        let (l', s') = execute_pending flash (record l { pending = some op }) s in
        Progress b m c (received ++ chunk) l' (peek s')
  unfolding execute_pending program
  data-Progress l b m c received chunk s t r p fine fits =
      rw (taken, works.writes s at chunk, program)
        record {
          state = p.state;
          quiet = refl;
          bytecode = p.bytecode;
          maps = p.maps;
          expected = p.expected;
          next = omega (arith, p.next, size, fits, t.sized, t.image.total_max);
          held =
              rw (size, taken)
                (sym (window-append (peek s') body n k) ∙ ap₂ ◌++◌ (before ∙ p.held) fresh);
        }
    where
      n : ℕ
      n = length received

      k : ℕ
      k = length chunk

      at : ℕ
      at = bpf_flash_offset + bpf_header_size + n

      s' : S
      s' = (flash.write s at chunk).0

      size : length (received ++ chunk) ≡ n + k
      size = length-append received chunk

      taken : take k (copy_at 0 chunk (replicate 12 0)) ≡ chunk
      taken = take-copy_at_zero chunk (replicate 12 0) (omega (arith, fine.few_bytes))

      before : window (peek s') body n ≡ window (peek s) body n
      before =
          window_cong (peek s') (peek s) body n
            (λ i lo hi. nor.write_outside s at chunk i (inl (omega (arith, hi))))

      fresh : window (peek s') (body + n) k ≡ chunk
      fresh =
          nor.write_ok s at chunk fine.bytes
            (λ i lo hi. r.erased i (omega (arith, lo, p.next)) (omega (arith, hi, fits)))
            (works.writes s at chunk)

  pub finalize-Committed :
      (l : BpfLoader) (b m c : ℕ) (image : List ℕ) (layouts : List MapLayout) (s : S)
      → Progress b m c image l (peek s)
      → l.crc ≡ crc32_update 0xffff_ffff (window (peek s) body l.next_offset)
      → crc32_finish (crc32_update 0xffff_ffff image) ≡ c
      → layouts_in (peek s) b m 0 0 no_layouts ≡ some layouts
      → let (l', s') = execute_pending flash (record l { pending = some finalize_op }) s in
        Committed b m c layouts l'
  unfolding execute_pending finalize map_layouts
  finalize-Committed l b m c image layouts s p sum right laid =
      let whole : window (peek s) body l.next_offset ≡ image =
        ap (λ n. window (peek s) body n) p.next ∙ p.held in
      let matches : crc32_finish l.crc ≡ l.expected_crc = cc (sum, whole, right, p.expected) in
      let passes : not (crc32_finish l.crc == l.expected_crc) ≡ false = ground (arith, matches) in
      let found : (layouts_from flash l.bytecode_len l.map_count 0 0 no_layouts s).1
          ≡ some layouts =
        layouts_from_answers flash works.answers nor l.bytecode_len l.map_count 0 0 no_layouts s
          {found = layouts} (rw (p.bytecode, p.maps) laid) in
      rw (passes, found, works.writes _ (bpf_flash_offset + 12) (0 ∷ 0 ∷ []), finalize)
        (ap committed p.expected, p.bytecode, refl, p.maps)
