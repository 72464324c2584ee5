-- ===== src/Tests/Loads.antt =====
-- Loading an image: a memory that takes every write, a Begin request, and instances.
use opti_bridge.Prelude.{
  ℕ, ◌+◌, ◌%◌, ◌==◌, ◌&&◌, leb, Bool, length, if◌then◌else◌, ◌-◌, ◌≡◌, refl, arith, some, List, [],
  ◌∷◌, ◌++◌, replicate, slice?, copy_at, to_le32, ok, ok_or,
}
use opti_bridge.Protocol.{bpf_flash_offset, bpf_max_map_bytes, cmd_load_bpf}
use opti_bridge.Frame.{Request}
use opti_bridge.Frame.Packet.{request_for}
use opti_bridge.Loader.{BpfFlash, BpfLoader, MapLayout, new, begin_op, empty_layout, image_len}
use opti_bridge.Loader.Accept.{accepts_load, operation, begin_request}
use opti_bridge.Loader.Image.{
  map_layouts, layouts_from, layout_of, execute_pending, validate_committed,
}
use opti_bridge.Loader.Image.Partition.{IsKept}
use opti_bridge.Loader.Image.Partition.Writes.{partition_kept}
use opti_bridge.Loader.Image.Layouts.{IsLaid, map_layouts-IsLaid}
use opti_bridge.Loader.Image.Invariant.{IsLoader, new-IsLoader}
use opti_bridge.Loader.Image.Invariant.Requests.{
  Accepts, accepts_load-Accepts, accepts_load-IsLoader,
}
use opti_bridge.Loader.Image.Invariant.Storage.{execute_pending-IsLoader}

-- The bytes from the partition's start; a read beyond them fails.
abbrev pub memory : BpfFlash (List ℕ)
memory = record {
  read = λ s offset n.
      (s, ok_or (slice? s (offset - bpf_flash_offset) (offset - bpf_flash_offset + n)) tt);
  write = λ s offset bytes. (copy_at (offset - bpf_flash_offset) bytes s, ok tt);
  erase = λ s from to. (copy_at (from - bpf_flash_offset) (replicate (to - from) 0xff) s, ok tt);
}

-- Begin, for 8 bytes of bytecode, no maps and the CRC 5.
abbrev pub load_request : Request
load_request = request_for cmd_load_bpf 1 0 (0 ∷ 8 ∷ 0 ∷ 0 ∷ 5 ∷ 0 ∷ 0 ∷ 0 ∷ [])

abbrev begun : BpfLoader
begun = record new { pending = some (begin_op 8 0 5) }

begin_accepted : accepts_load new load_request ≡ some (begun, ok tt)
unfolding accepts_load operation begin_request image_len
begin_accepted = refl

begun-IsLoader : IsLoader begun
begun-IsLoader = accepts_load-IsLoader load_request new-IsLoader begin_accepted

accepts_load-Accepts_example : Accepts new begun (ok tt)
accepts_load-Accepts_example = accepts_load-Accepts new load_request begun (ok tt) begin_accepted

execute_pending-IsLoader_example : IsLoader (execute_pending memory begun (replicate 64 0)).0
execute_pending-IsLoader_example =
    execute_pending-IsLoader memory begun (replicate 64 0) begun-IsLoader

-- A header, 8 bytes of bytecode, and the descriptor of an array of two values of 4 bytes.
abbrev pub image : List ℕ
image = replicate 24 0 ++ to_le32 1 ++ to_le32 4 ++ to_le32 4 ++ to_le32 2

abbrev pub layouts : List MapLayout
layouts = record { offset = 0; len = 8; key_size = 4; value_size = 4 } ∷ replicate 7 empty_layout

pub image_layouts : (map_layouts memory 8 1 image).1 ≡ some layouts
unfolding map_layouts layouts_from layout_of
image_layouts = refl

map_layouts-IsLaid_example : IsLaid layouts 1 bpf_max_map_bytes
map_layouts-IsLaid_example =
    map_layouts-IsLaid memory 8 1 image {found = layouts} (omega arith) image_layouts

-- A flash that counts the erases and writes that are not whole pages or halfwords of the partition.
abbrev legal : ℕ → ℕ → ℕ → Bool
legal unit from to =
    leb bpf_flash_offset from && leb to 0x8000 && from % unit == 0 && to % unit == 0

abbrev counter : BpfFlash ℕ
counter = record {
  read = λ s offset n. (s, ok (replicate n 0xff));
  write = λ s offset bytes. (if legal 2 offset (offset + length bytes) then s else s + 1, ok tt);
  erase = λ s from to. (if legal 4096 from to then s else s + 1, ok tt);
}

counter-IsKept : IsKept counter (λ s. s ≡ 0)
counter-IsKept = record {
  reads = λ s offset n h. h;
  writes = λ s offset bytes p h. ground (arith, h, p.starts, p.ends, p.from_aligned, p.to_aligned);
  erases = λ s from to p h. ground (arith, h, p.starts, p.ends, p.from_aligned, p.to_aligned);
}

partition_kept_example :
    ((execute_pending counter begun 0).1 ≡ 0) × ((validate_committed counter begun 0).1 ≡ 0)
partition_kept_example = partition_kept counter-IsKept begun 0 begun-IsLoader refl
