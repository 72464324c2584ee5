-- ===== src/Loader/Maps.antt =====
-- `read_map` and `write_map`: byte ranges of the committed maps in the 1,024-byte backing store.
pub mod Access
use opti_bridge.Prelude.{
  ℕ, ◌+◌, ◌^◌, Bool, true, false, Option, none, some, List, length, get_elem?, slice?, copy_at, u16,
  Result, ok, err, ◌>>=◌, ◌>>◌, fail_if, ok_or, ltb, leb, ◌==◌, if◌then◌else◌, not, ◌||◌,
  checked_add,
}
use opti_bridge.Protocol.{
  status_bad_length, status_bad_command, status_no_program, max_payload, max_map_write_bytes,
}
use opti_bridge.Loader.{BpfLoader, LoaderState, committed, running, MapLayout}

abbrev pub has_program : LoaderState → Bool
has_program (committed crc) = true
has_program (running crc) = true
has_program _ = false

-- The first byte in the backing store of a range of `len` bytes at `byte_offset` of a map, after
-- the checks that `read_map` and `write_map` share.
unfoldable pub locate : BpfLoader → ℕ → ℕ → ℕ → Result ℕ ℕ
locate l map_id byte_offset len = do
  fail_if (not (has_program l.state)) status_no_program
  layout ← ok_or (get_elem? l.map_layouts map_id) status_bad_command
  fail_if (leb l.committed_map_count map_id) status_bad_command
  map_end ← ok_or (checked_add (2 ^ 16) byte_offset (u16 len)) status_bad_length
  fail_if (ltb layout.len map_end) status_bad_length
  ok (layout.offset + byte_offset)

unfoldable pub read_map : BpfLoader → ℕ → ℕ → ℕ → List ℕ → Result (List ℕ) ℕ
read_map l map_id byte_offset byte_length backing = do
  fail_if (byte_length == 0 || ltb max_payload byte_length) status_bad_length
  start ← locate l map_id byte_offset byte_length
  ok_or (slice? backing start (start + byte_length)) status_bad_length

-- `backing.get_mut(start..end).ok_or(..)?.copy_from_slice(replacement)`
abbrev replace_range : ℕ → List ℕ → List ℕ → Result (Unit {0}) ℕ × List ℕ
replace_range start replacement backing = elim (slice? backing start (start + length replacement)) [
  | none ↦ (err status_bad_length, backing)
  | some destination ↦ (ok tt, copy_at start replacement backing)
]

-- The result beside the new backing store.
unfoldable pub write_map : BpfLoader → ℕ → ℕ → List ℕ → List ℕ → Result (Unit {0}) ℕ × List ℕ
write_map l map_id byte_offset replacement backing =
    if length replacement == 0 || ltb max_map_write_bytes (length replacement)
    then (err status_bad_length, backing)
    else elim (locate l map_id byte_offset (length replacement)) [
      | err status ↦ (err status, backing)
      | ok start ↦ replace_range start replacement backing
    ]
