-- ===== src/Loader/Image/Partition.antt =====
-- The erases and writes of `execute_pending` and `validate_committed` lie in the BPF partition.
pub mod Reads
pub mod Writes
use opti_bridge.Prelude.{
  ℕ, zero, suc, ◌+◌, ◌-◌, ◌*◌, ◌/◌, ◌%◌, ◌≤◌, ◌≡◌, refl, sym, subst, inl, inr, min, Option, none,
  List, [], ◌∷◌, length, length-take, take, set, not, ◌==◌, ltb, get_or, le16, Result-cases,
  Option-cases, Bool-cases, arith,
}
use opti_bridge.Protocol.{
  bpf_flash_offset, bpf_flash_size, bpf_header_size, bpf_map_descriptor_size, max_payload,
}
use opti_bridge.Crc.{crc32_update, crc32_finish}
use opti_bridge.Loader.{
  BpfFlash, BpfLoader, MapLayout, no_layouts, LoadOperation, begin_op, data_op, finalize_op,
  image_len, is_bad_image, clear_map_layouts,
}
use opti_bridge.Loader.Image.{
  layout_of, layouts_from, map_layouts, scan, is_foreign, image_header, begin, program, finalize,
  perform, execute_pending, validate_image, validate_header, validate_committed,
}
use opti_bridge.Loader.Image.Invariant.{
  IsImage, IsTransfer, IsLoader, Suits, image_len-IsImage, taken-IsLoader,
}
use opti_bridge.Loader.Image.Invariant.Requests.{Suits-pending}

-- A range of the partition, at a multiple of a size and of a multiple of it.
pub record InPartition (unit from to : ℕ) : Type 0 where
  pub starts : bpf_flash_offset ≤ from
  pub forward : from ≤ to
  pub ends : to ≤ bpf_flash_offset + bpf_flash_size
  pub from_aligned : from % unit ≡ 0
  pub to_aligned : to % unit ≡ 0

-- What holds of the flash and is kept by every read, by writes of whole halfwords of the partition,
-- and by erases of whole pages of it.
pub record IsKept {ℓ κ} {S : Type ℓ} (flash : BpfFlash S) (Q : S → Type κ) : Type (ℓ ⊔ κ) where
  pub reads : (s : S) (offset n : ℕ) → Q s → Q (flash.read s offset n).0
  pub writes :
      (s : S) (offset : ℕ) (bytes : List ℕ)
      → InPartition 2 offset (offset + length bytes)
      → Q s
      → Q (flash.write s offset bytes).0
  pub erases : (s : S) (from to : ℕ) → InPartition 4096 from to → Q s → Q (flash.erase s from to).0
