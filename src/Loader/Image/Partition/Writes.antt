-- ===== src/Loader/Image/Partition/Writes.antt =====
-- The operations that erase and write: `begin`, `program` and `finalize`.
use opti_bridge.Prelude.{
  ℕ, ◌+◌, ◌*◌, ◌/◌, ◌≡◌, refl, inl, inr, Option, none, List, [], ◌∷◌, length, length-take, take,
  not, ◌==◌, Result-cases, Option-cases, Bool-cases, arith,
}
use opti_bridge.Protocol.{bpf_flash_offset, bpf_header_size, bpf_map_descriptor_size}
use opti_bridge.Crc.{crc32_finish}
use opti_bridge.Loader.{
  BpfFlash, BpfLoader, MapLayout, no_layouts, LoadOperation, begin_op, data_op, finalize_op,
}
use opti_bridge.Loader.Image.{
  map_layouts, image_header, begin, program, finalize, perform, execute_pending, validate_committed,
}
use opti_bridge.Loader.Image.Invariant.{
  IsImage, IsTransfer, IsLoader, Suits, image_len-IsImage, taken-IsLoader,
}
use opti_bridge.Loader.Image.Invariant.Requests.{Suits-pending}
use opti_bridge.Loader.Image.Partition.{IsKept}
use opti_bridge.Loader.Image.Partition.Reads.{layouts_from_kept, validate_committed_kept}

module _ {ℓ κ} {S : Type ℓ} {flash : BpfFlash S} {Q : S → Type κ} (kept : IsKept flash Q) where
  begin_kept : (l : BpfLoader) (b m c : ℕ) (s : S) → IsImage b m → Q s → Q (begin flash l b m c s).1
  unfolding begin
  begin_kept l b m c s image h =
      rw (image_len-IsImage image, begin)
        (elim (Result-cases (flash.erase s bpf_flash_offset end).1) [
          | inr (x, e) ↦ rw e after
          | inl (x, e) ↦
              rw e
                (elim (Result-cases (flash.write erased bpf_flash_offset (image_header b m c)).1) [
                  | inr (x, e') ↦ rw e' written
                  | inl (x, e') ↦ rw e' written
                ])
        ])
    where
      end : ℕ
      end =
          bpf_flash_offset
          + (bpf_header_size + (b + m * bpf_map_descriptor_size) + 4095) / 4096 * 4096

      erased : S
      erased = (flash.erase s bpf_flash_offset end).0

      after : Q erased
      after =
          kept.erases s bpf_flash_offset end
            record {
              starts = omega arith;
              forward = omega arith;
              ends = omega (arith, image.total_max);
              from_aligned = refl;
              to_aligned = omega arith;
            }
            h

      written : Q (flash.write erased bpf_flash_offset (image_header b m c)).0
      written =
          kept.writes erased bpf_flash_offset (image_header b m c)
            record {
              starts = omega arith;
              forward = omega arith;
              ends = omega arith;
              from_aligned = refl;
              to_aligned = refl;
            }
            after

  program_kept :
      (l : BpfLoader) (offset : ℕ) (bytes : List ℕ) (len : ℕ) (s : S)
      → IsTransfer l
      → Suits l (data_op offset bytes len)
      → Q s
      → Q (program flash l offset bytes len s).1
  unfolding program
  program_kept l offset bytes len s t fits h =
      elim (Result-cases (flash.write s at (take len bytes)).1) [
        | inr (x, e) ↦ rw (e, program) after
        | inl (x, e) ↦ rw (e, program) after
      ]
    where
      at : ℕ
      at = bpf_flash_offset + bpf_header_size + offset

      short : length (take len bytes) ≡ len
      short = omega (arith, length-take len bytes, fits)

      after : Q (flash.write s at (take len bytes)).0
      after =
          kept.writes s at (take len bytes)
            record {
              starts = omega arith;
              forward = omega arith;
              ends = omega (arith, short, fits, t.sized, t.image.total_max);
              from_aligned = omega (arith, fits.1, t.even);
              to_aligned = omega (arith, fits, t.even, short);
            }
            h

  finalize_kept : (l : BpfLoader) (s : S) → Q s → Q (finalize flash l s).1
  unfolding finalize map_layouts
  finalize_kept l s h = elim (Bool-cases (not (crc32_finish l.crc == l.expected_crc))) [
    | inl wrong ↦ rw (wrong, finalize) h
    | inr right ↦ elim (Option-cases read.1) [
      | inl missing ↦ rw (right, missing, finalize) after
      | inr (layouts, found) ↦
          elim (Result-cases (flash.write read.0 (bpf_flash_offset + 12) (0 ∷ 0 ∷ [])).1) [
            | inr (x, e) ↦ rw (right, found, e, finalize) marked
            | inl (x, e) ↦ rw (right, found, e, finalize) marked
          ]
    ]
  ]
    where
      read : S × Option (List MapLayout)
      read = map_layouts flash l.bytecode_len l.map_count s

      after : Q read.0
      after = layouts_from_kept kept l.bytecode_len l.map_count 0 0 no_layouts s h

      marked : Q (flash.write read.0 (bpf_flash_offset + 12) (0 ∷ 0 ∷ [])).0
      marked =
          kept.writes read.0 (bpf_flash_offset + 12) (0 ∷ 0 ∷ [])
            record {
              starts = omega arith;
              forward = omega arith;
              ends = omega arith;
              from_aligned = refl;
              to_aligned = refl;
            }
            after

  perform_kept :
      (op : LoadOperation) (l : BpfLoader) (s : S)
      → IsLoader l
      → Suits l op
      → Q s
      → Q (perform flash op l s).1
  perform_kept (begin_op b m c) l s v fits h = begin_kept l b m c s fits h
  perform_kept (data_op offset bytes len) l s v fits h =
      program_kept l offset bytes len s (v.transfer fits.0) fits h
  perform_kept finalize_op l s v fits h = finalize_kept l s h

  execute_pending_kept :
      (l : BpfLoader) (s : S) → IsLoader l → Q s → Q (execute_pending flash l s).1
  unfolding execute_pending
  execute_pending_kept l s v h = elim (Option-cases l.pending) [
    | inl e ↦ rw (e, execute_pending) h
    | inr (op, e) ↦
        rw (e, execute_pending)
          (perform_kept op (record l { pending = none }) s (taken-IsLoader l v)
            (Suits-pending l none op (v.suits op e)) h)
  ]

  -- From a loader that satisfies the invariant, `execute_pending` and `validate_committed` erase only
  -- whole pages of the partition and write only whole halfwords of it, whatever the flash answers:
  -- what reads, such erases and such writes keep of the flash, they keep.
  pub partition_kept :
      (l : BpfLoader) (s : S)
      → IsLoader l
      → Q s
      → Q (execute_pending flash l s).1 × Q (validate_committed flash l s).1
  partition_kept l s v h = (execute_pending_kept l s v h, validate_committed_kept kept l s h)
