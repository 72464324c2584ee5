-- ===== src/Loader/Image/Invariant.antt =====
-- The invariant of `BpfLoader`.
pub mod Requests
pub mod Storage
use opti_bridge.Prelude.{
  ℕ, ◌+◌, ◌*◌, ◌%◌, ◌-◌, ◌/◌, ◌≤◌, ◌<◌, ◌≡◌, refl, subst, ◌≢◌, true, false, Bool-cases, Option,
  none, some, List, length, get_or, take, inl, inr, Option-cases, Result-cases, Result, ok, err,
  arith, slice?, length-copy_at, drop, replicate, le16, ◌==◌, not, [], ◌∷◌, get_elem?,
}
use opti_bridge.Protocol.{
  bpf_max_maps, bpf_max_map_bytes, bpf_max_bytecode, bpf_header_size, bpf_flash_size,
  bpf_map_descriptor_size, bpf_flash_offset, status_busy, status_bad_state, status_flash_error,
  status_bad_crc,
}
use opti_bridge.Crc.{crc32_finish}
use opti_bridge.Frame.{Request}
use opti_bridge.Loader.{
  BpfFlash, BpfLoader, LoadOperation, begin_op, data_op, finalize_op, LoaderState, empty, receiving,
  committed, running, failed, MapLayout, new, mark_running, mark_from, is_pending, no_layouts,
  clear_map_layouts, image_len, is_bad_image,
}
use opti_bridge.Loader.Accept.{
  operation, parse_operation, accepts_load, store, is_running, begin_request, data_request,
  finalize_request,
}
use opti_bridge.Loader.Maps.{has_program}
use opti_bridge.Loader.Image.{
  begin, program, finalize, perform, execute_pending, map_layouts, validate_image, validate_header,
  validate_committed, fail, image_header, scan, is_foreign,
}
use opti_bridge.Loader.Image.Layouts.{IsLaid, no_layouts-IsLaid, map_layouts-IsLaid}

-- The bounds on a declared image.
pub record IsImage (bytecode_len map_count : ℕ) : Type 0 where
  pub nonempty : 0 < bytecode_len
  pub bytecode_max : bytecode_len ≤ bpf_max_bytecode
  pub aligned : bytecode_len % 8 ≡ 0
  pub maps_max : map_count ≤ bpf_max_maps
  pub total_max :
      bytecode_len + map_count * bpf_map_descriptor_size + bpf_header_size ≤ bpf_flash_size

-- A pending operation suits the loader's state.
abbrev pub Suits : BpfLoader → LoadOperation → Type 0
Suits l (begin_op bytecode_len map_count expected_crc) = IsImage bytecode_len map_count
Suits l (data_op offset bytes len) =
    (l.state ≡ receiving)
    × (offset ≡ l.next_offset)
    × (2 ≤ len)
    × (len ≤ 12)
    × (len % 2 ≡ 0)
    × (offset + len ≤ l.image_len)
    × (length bytes ≡ 12)
Suits l finalize_op = (l.state ≡ receiving) × (l.next_offset ≡ l.image_len)

-- A transfer in progress: what it has received of a valid image so far.
pub record IsTransfer (l : BpfLoader) : Type 0 where
  pub image : IsImage l.bytecode_len l.map_count
  pub sized : l.image_len ≡ l.bytecode_len + l.map_count * bpf_map_descriptor_size
  pub received : l.next_offset ≤ l.image_len
  pub even : l.next_offset % 2 ≡ 0

pub record IsLoader (l : BpfLoader) : Type 0 where
  pub laid : IsLaid l.map_layouts l.committed_map_count bpf_max_map_bytes
  pub hidden : has_program l.state ≡ false → l.committed_map_count ≡ 0
  pub transfer : l.state ≡ receiving → IsTransfer l
  pub suits : (operation : LoadOperation) → l.pending ≡ some operation → Suits l operation
  pub idle : is_running l.state ≡ true → l.pending ≡ none

pub new-IsLoader : IsLoader new
new-IsLoader = record {
  laid = no_layouts-IsLaid bpf_max_map_bytes (omega arith);
  hidden = λ h. refl;
  transfer = λ h. absurd (cc);
  suits = λ operation h. absurd (cc);
  idle = λ h. refl;
}

pub good_image :
    (bytecode_len map_count : ℕ) {image : ℕ}
    → image_len bytecode_len map_count ≡ some image
    → is_bad_image bytecode_len map_count image ≡ false
    → IsImage bytecode_len map_count × (image ≡ bytecode_len + map_count * bpf_map_descriptor_size)
unfolding image_len
good_image bytecode_len map_count e good = ground arith

-- A loader with nothing pending and no maps exposed, that is not receiving.
quiet-IsLoader :
    (l : BpfLoader)
    → l.pending ≡ none
    → l.state ≢ receiving
    → IsLaid l.map_layouts l.committed_map_count bpf_max_map_bytes
    → (has_program l.state ≡ false → l.committed_map_count ≡ 0)
    → IsLoader l
quiet-IsLoader l quiet still laid hidden = record {
  laid = laid;
  hidden = hidden;
  transfer = λ h. absurd (still h);
  suits = λ op e. absurd (cc);
  idle = λ h. quiet;
}

blank : IsLaid no_layouts 0 bpf_max_map_bytes
blank = no_layouts-IsLaid bpf_max_map_bytes (omega arith)

pub image_len-IsImage :
    {b m : ℕ} → IsImage b m → image_len b m ≡ some (b + m * bpf_map_descriptor_size)
unfolding image_len
image_len-IsImage i = ground arith

pub taken-IsLoader : (l : BpfLoader) → IsLoader l → IsLoader (record l { pending = none })
taken-IsLoader l v = record {
  laid = v.laid;
  hidden = v.hidden;
  transfer = λ h.
      let t = v.transfer h in
      record { image = t.image; sized = t.sized; received = t.received; even = t.even };
  suits = λ op e. absurd (cc);
  idle = λ h. refl;
}
