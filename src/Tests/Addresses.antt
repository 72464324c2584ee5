-- ===== src/Tests/Addresses.antt =====
-- The map helpers on addresses: a program with one map of two values of four bytes, and instances.
use opti_bridge.Prelude.{
  ℕ, ◌+◌, ◌≤◌, ◌<◌, ◌≡◌, ◌⊎◌, ◌==◌, refl, arith, some, List, length, ok, if◌then◌else◌, window,
}
use opti_bridge.Protocol.{bpf_max_map_bytes}
use opti_bridge.Loader.{BpfLoader, new, committed_metadata, fill_maps}
use opti_bridge.Loader.Image.Layouts.{IsLaid, map_layouts-IsLaid}
use opti_bridge.Firmware.MapHelpers.{lookup, update}
use opti_bridge.Firmware.Timer.{helper_error}
use opti_bridge.Firmware.Pointers.{
  Ram, ActiveMapHelpers, MapRegion, map_regions, read_u32, bpf_map_lookup_elem, bpf_map_update_elem,
}
use opti_bridge.Firmware.Pointers.Programs.{map_at}
use opti_bridge.Firmware.Pointers.Regions.{InRam, IsRegion, map_regions-IsRegion}
use opti_bridge.Firmware.Pointers.Calls.{Names, Replaces, entry_at}
use opti_bridge.Firmware.Pointers.Helpers.{
  store_of, bpf_map_lookup_elem-lookup, bpf_map_lookup_elem_inside, bpf_map_update_elem-update,
  bpf_map_update_elem_refuses,
}
use opti_bridge.Tests.Loads.{memory, image, layouts, image_layouts}

abbrev loader : BpfLoader
loader = record new { map_layouts = layouts; committed_map_count = 1 }

laid : IsLaid layouts 1 bpf_max_map_bytes
laid = map_layouts-IsLaid memory 8 1 image {found = layouts} (omega arith) image_layouts

abbrev base : ℕ
base = 0x2000_0100

room : InRam base
room = record { starts = omega arith; ends = omega arith }

abbrev key : ℕ
key = 0x2000_2500

abbrev value : ℕ
value = 0x2000_2600

-- The key 1 at its address, and zeros.
abbrev ram : Ram
ram a = if a == key then 1 else 0

abbrev active : ActiveMapHelpers
active = record { backing = base; metadata = committed_metadata loader }

names : Names base (committed_metadata loader) ram base key 0
unfolding committed_metadata fill_maps
names = record {
  small = omega arith;
  at = refl;
  readable = omega arith;
  entry = record { key = refl; inside = omega arith };
}

replaces : Replaces base (committed_metadata loader) ram base key value 0 0
unfolding committed_metadata fill_maps
replaces = record { names = names; source = omega arith; plain = refl }

map_regions-IsRegion_example :
    (regions : List MapRegion) × (map_regions (committed_metadata loader) base ≡ some regions)
    × (length regions ≡ 1)
    × ((i : ℕ) → i < 1 → IsRegion base (committed_metadata loader) regions i)
map_regions-IsRegion_example = map_regions-IsRegion loader base laid room

abbrev first : ℕ
first = entry_at base (committed_metadata loader) ram key 0

bpf_map_lookup_elem-lookup_example :
    (bpf_map_lookup_elem ram (some active) base key ≡ some first)
    × (lookup (map_at (committed_metadata loader) 0) (read_u32 ram key) (store_of ram base)
        ≡ some (window ram first (map_at (committed_metadata loader) 0).value_size))
bpf_map_lookup_elem-lookup_example =
    bpf_map_lookup_elem-lookup loader base laid room ram base key 0 names

bpf_map_lookup_elem_inside_example :
    (address : ℕ) × (bpf_map_lookup_elem ram (some active) base key ≡ some address)
    × ((address ≡ 0)
        ⊎ ((i : ℕ) × Names base (committed_metadata loader) ram base key i
            × (base ≤ address)
            × (address + (map_at (committed_metadata loader) i).value_size
                ≤ base + (map_at (committed_metadata loader) i).backing_len)))
bpf_map_lookup_elem_inside_example = bpf_map_lookup_elem_inside loader base laid room ram base key

bpf_map_update_elem-update_example :
    let v = (map_at (committed_metadata loader) 0).value_size in
    (ram' : Ram) × (bpf_map_update_elem ram (some active) base key value 0 ≡ some (0, ram'))
    × (update
          (map_at (committed_metadata loader) 0)
          (read_u32 ram key)
          (window ram value v)
          (store_of ram base)
        ≡ (ok tt, store_of ram' base))
    × ((a : ℕ) → (a < first) ⊎ (first + v ≤ a) → ram' a ≡ ram a)
bpf_map_update_elem-update_example =
    bpf_map_update_elem-update loader base laid room ram base key value 0 0 replaces

-- A flag is refused.
bpf_map_update_elem_refuses_example :
    bpf_map_update_elem ram (some active) base key value 1 ≡ some (helper_error, ram)
bpf_map_update_elem_refuses_example =
    bpf_map_update_elem_refuses loader base laid room ram base key value 1
      (λ i r. absurd (omega (arith, r.plain)))
