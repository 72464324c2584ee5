-- ===== src/Firmware/Pointers.antt =====
-- The map helpers of firmware/optibridge/src/main.rs, which a BPF program calls with addresses, and
-- the regions that `execute_loaded_bpf` gives the interpreter. The memory is a function from
-- addresses to bytes; addresses have 32 bits, the helpers' arguments 64. `none` around a result is
-- the panic of an index out of range.
pub mod Programs
pub mod Regions
pub mod Calls
pub mod Helpers
use opti_bridge.Prelude.{
  ℕ, zero, suc, ◌+◌, ◌-◌, ◌*◌, ◌^◌, Bool, true, false, Option, none, some, List, [], ◌∷◌, length,
  get_elem?, take, u32, ltb, leb, ◌==◌, ◌&&◌, ◌||◌, not, if◌then◌else◌, checked_add, le32,
}
use opti_bridge.Loader.{BpfMapMetadata, BpfProgramMetadata}
use opti_bridge.Firmware.MapHelpers.{value_range}
use opti_bridge.Firmware.Timer.{helper_error}

abbrev pub Ram : Type 0
Ram = ℕ → ℕ

abbrev pub bpf_ram_start : ℕ
bpf_ram_start = 0x2000_0000

abbrev pub bpf_ram_end : ℕ
bpf_ram_end = bpf_ram_start + 10 * 1024

-- The address of the backing store, and the program that runs.
pub record ActiveMapHelpers : Type 0 where
  pub backing : ℕ
  pub metadata : BpfProgramMetadata

pub record MapRegion : Type 0 where
  pub relocated_ptr : ℕ
  pub key_size : ℕ
  pub value_size : ℕ
  pub data_start : ℕ
  pub data_end : ℕ

-- `as u64` of `backing.add(…)`, a pointer of 32 bits.
abbrev pub add : ℕ → ℕ → ℕ
add backing offset = u32 (backing + offset)

abbrev pub region_of : ℕ → BpfMapMetadata → MapRegion
region_of map_backing descriptor =
    let start = add map_backing descriptor.backing_offset in
    record {
      relocated_ptr = start;
      key_size = descriptor.key_size;
      value_size = descriptor.value_size;
      data_start = start;
      data_end = start + descriptor.backing_len;
    }

infixl 5 ◌>>=◌
abbrev pub ◌>>=◌ {ℓ κ} : {A : Type ℓ} {B : Type κ} → Option A → (A → Option B) → Option B
none >>= f = none
some a >>= f = f a

-- The loop over the maps of `execute_loaded_bpf`, with the rounds left and the index.
unfoldable pub regions_from : List BpfMapMetadata → ℕ → ℕ → ℕ → Option (List MapRegion)
regions_from maps map_backing zero index = some []
regions_from maps map_backing (suc left) index = do
  descriptor ← get_elem? maps index
  rest ← regions_from maps map_backing left (index + 1)
  some (region_of map_backing descriptor ∷ rest)

-- The regions that `execute_loaded_bpf` passes to the interpreter.
unfoldable pub map_regions : BpfProgramMetadata → ℕ → Option (List MapRegion)
map_regions metadata map_backing = regions_from metadata.maps map_backing metadata.map_count 0

-- The loop of `bpf_map_layout`, with the rounds left and the index.
unfoldable pub layout_from : ℕ → ActiveMapHelpers → ℕ → ℕ → Option (Option (ℕ × ℕ × ℕ × ℕ))
layout_from map state zero index = some none
layout_from map state (suc left) index = do
  metadata ← get_elem? state.metadata.maps index
  if map == add state.backing metadata.backing_offset
      then some (some (index, metadata.key_size, metadata.value_size, metadata.backing_len))
      else layout_from map state left (index + 1)

-- The index, the sizes of key and value, and the length of the map at an address.
unfoldable pub bpf_map_layout : ℕ → ActiveMapHelpers → Option (Option (ℕ × ℕ × ℕ × ℕ))
bpf_map_layout map state = layout_from map state state.metadata.map_count 0

unfoldable pub valid_bpf_ram_range : ℕ → ℕ → Bool
valid_bpf_ram_range pointer length =
    leb bpf_ram_start pointer
    && elim (checked_add (2 ^ 64) pointer length) [ none ↦ false | some end ↦ leb end bpf_ram_end ]

-- `read_unaligned` of a `*const u32`.
abbrev pub read_u32 : Ram → ℕ → ℕ
read_u32 ram pointer = let p = u32 pointer in le32 (ram p) (ram (p + 1)) (ram (p + 2)) (ram (p + 3))

-- `core::ptr::copy` of `n` bytes, which may overlap.
abbrev pub copy : Ram → ℕ → ℕ → ℕ → Ram
copy ram source destination n i =
    if leb destination i && ltb i (destination + n) then ram (source + (i - destination)) else ram i

-- The address of the entry that the key at `key` names in the map at an index, if the entry lies in
-- the map's first `backing_len` bytes.
unfoldable pub entry_address : Ram → ActiveMapHelpers → ℕ → ℕ → ℕ → Option (Option ℕ)
entry_address ram state index backing_len key = do
  metadata ← get_elem? state.metadata.maps index
  elim (value_range metadata (read_u32 ram key)) [
    | none ↦ some none
    | some (from, to) ↦
        if ltb backing_len to
        then some none
        else some (some (add state.backing (metadata.backing_offset + from)))
  ]

-- The answer, as a pointer or null.
abbrev or_null : Option ℕ → Option ℕ
or_null none = some 0
or_null (some address) = some address

unfoldable pub bpf_map_lookup_elem : Ram → Option ActiveMapHelpers → ℕ → ℕ → Option ℕ
bpf_map_lookup_elem ram none map key = some 0
bpf_map_lookup_elem ram (some state) map key = do
  layout ← bpf_map_layout map state
  elim layout [
    | none ↦ some 0
    | some (index, key_size, value_size, backing_len) ↦
        if key == 0 || not (key_size == 4) || not (valid_bpf_ram_range key 4)
        then some 0
        else entry_address ram state index backing_len key >>= or_null
  ]

-- The answer beside the new memory, for a value of `value_size` bytes at `value`.
abbrev store_at : Ram → ℕ → ℕ → Option ℕ → Option (ℕ × Ram)
store_at ram value value_size none = some (helper_error, ram)
store_at ram value value_size (some destination) =
    some (0, copy ram (u32 value) destination value_size)

unfoldable pub bpf_map_update_elem :
    Ram → Option ActiveMapHelpers → ℕ → ℕ → ℕ → ℕ → Option (ℕ × Ram)
bpf_map_update_elem ram none map key value flags = some (helper_error, ram)
bpf_map_update_elem ram (some state) map key value flags = do
  layout ← bpf_map_layout map state
  elim layout [
    | none ↦ some (helper_error, ram)
    | some (index, key_size, value_size, backing_len) ↦
        if key == 0
          || value == 0
          || not (flags == 0)
          || not (key_size == 4)
          || not (valid_bpf_ram_range key 4)
          || not (valid_bpf_ram_range value value_size)
        then some (helper_error, ram)
        else entry_address ram state index backing_len key >>= store_at ram value value_size
  ]
