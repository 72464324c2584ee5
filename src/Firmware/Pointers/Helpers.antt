-- ===== src/Firmware/Pointers/Helpers.antt =====
-- What a BPF program gets from `bpf_map_lookup_elem` and `bpf_map_update_elem`, for the maps of the
-- loaded program.
use opti_bridge.Prelude.{
  ℕ, ◌+◌, ◌-◌, ◌*◌, ◌≤◌, ◌<◌, ◌≡◌, refl, ap, sym, ◌∙◌, ◌⊎◌, inl, inr, some, List, get_or, arith,
  window, length-window, slice?-window, get_or-window, window-copy_at, ok,
}
use opti_bridge.Protocol.{bpf_max_map_bytes}
use opti_bridge.Loader.{BpfLoader, BpfMapMetadata, committed_metadata}
use opti_bridge.Loader.Image.Layouts.{IsLaid}
use opti_bridge.Firmware.MapHelpers.{lookup, update}
use opti_bridge.Firmware.MapHelpers.Entries.{InStore, update-HasEntry, lookup-HasEntry}
use opti_bridge.Firmware.Timer.{helper_error}
use opti_bridge.Firmware.Pointers.{
  Ram, ActiveMapHelpers, read_u32, copy, bpf_map_lookup_elem, bpf_map_update_elem,
}
use opti_bridge.Firmware.Pointers.Programs.{map_at, IsProgram, committed_metadata-IsProgram}
use opti_bridge.Firmware.Pointers.Regions.{InRam}
use opti_bridge.Firmware.Pointers.Calls.{
  Names, Replaces, entry_at, lookup-Names, lookup_cases, update-Replaces, update_cases,
}

abbrev pub store_of : Ram → ℕ → List ℕ
store_of ram base = window ram base bpf_max_map_bytes

copied :
    (ram : Ram) (source at n j : ℕ)
    → j < n
    → copy ram source at n (at + j) ≡ get_or (window ram source n) j 0
copied ram source at n j h =
    let e : at + j - at ≡ j = omega arith in ground (arith, h, e, get_or-window ram source n j h)

copy_outside :
    (ram : Ram) (source at n a : ℕ) → (a < at) ⊎ (at + n ≤ a) → copy ram source at n a ≡ ram a
copy_outside ram source at n a out = ground (arith, out)

module _ (l : BpfLoader) (base : ℕ)
    (laid : IsLaid l.map_layouts l.committed_map_count bpf_max_map_bytes) (room : InRam base) where
  abbrev committed-IsProgram : IsProgram (committed_metadata l)
  committed-IsProgram = committed_metadata-IsProgram l laid

  abbrev active : ActiveMapHelpers
  active = record { backing = base; metadata = committed_metadata l }

  abbrev map_of : ℕ → BpfMapMetadata
  map_of i = map_at (committed_metadata l) i

  in_store :
      (ram : Ram) (i : ℕ)
      → i < (committed_metadata l).map_count
      → InStore (map_of i) (store_of ram base)
  in_store ram i h = record {
    ends = omega (arith, committed-IsProgram.ends i h, length-window ram base bpf_max_map_bytes);
    addressable = omega (arith, length-window ram base bpf_max_map_bytes);
  }

  -- For the maps of a loader whose layouts are in order and a backing store in RAM, a lookup that
  -- names an entry answers its address: the bytes there are the value that `lookup` of
  -- map_helpers.rs finds in the backing store.
  pub bpf_map_lookup_elem-lookup :
      (ram : Ram) (map key i : ℕ)
      → Names base (committed_metadata l) ram map key i
      → let address = entry_at base (committed_metadata l) ram key i in
        (bpf_map_lookup_elem ram (some active) map key ≡ some address)
        × (lookup (map_of i) (read_u32 ram key) (store_of ram base)
            ≡ some (window ram address (map_of i).value_size))
  bpf_map_lookup_elem-lookup ram map key i n =
      let at = (map_of i).backing_offset + read_u32 ram key * (map_of i).value_size in
      let v = (map_of i).value_size in
      (
        lookup-Names base (committed_metadata l) room committed-IsProgram ram map key i n,
        lookup-HasEntry (map_of i) (store_of ram base) (in_store ram i n.small) (read_u32 ram key)
              n.entry
            ∙ slice?-window ram base at v bpf_max_map_bytes
                (omega (arith, n.entry.inside, committed-IsProgram.ends i n.small)),
      )

  -- For the maps of a loader whose layouts are in order and a backing store in RAM, a lookup does
  -- not panic and answers null or, if it names an entry of a map, an address at which the value
  -- lies whole in that map's part of the backing store.
  pub bpf_map_lookup_elem_inside :
      (ram : Ram) (map key : ℕ)
      → (address : ℕ) × (bpf_map_lookup_elem ram (some active) map key ≡ some address)
        × ((address ≡ 0)
            ⊎ ((i : ℕ) × Names base (committed_metadata l) ram map key i
                × (map ≤ address)
                × (address + (map_of i).value_size ≤ map + (map_of i).backing_len)))
  bpf_map_lookup_elem_inside ram map key =
      elim (lookup_cases base (committed_metadata l) room committed-IsProgram ram map key) [
        | inl null ↦ (0, null, inl refl)
        | inr (i, n) ↦ (
          entry_at base (committed_metadata l) ram key i,
          lookup-Names base (committed_metadata l) room committed-IsProgram ram map key i n,
          inr (i, n, omega (arith, n.at), omega (arith, n.at, n.entry.inside)),
        )
      ]

  -- For the maps of a loader whose layouts are in order and a backing store in RAM, an update that
  -- names an entry and a value succeeds: the backing store is then what `update` of map_helpers.rs
  -- makes of it with the bytes at the value's address, and no byte of the memory outside the entry
  -- changes.
  pub bpf_map_update_elem-update :
      (ram : Ram) (map key value flags i : ℕ)
      → Replaces base (committed_metadata l) ram map key value flags i
      → let v = (map_of i).value_size in
        let address = entry_at base (committed_metadata l) ram key i in
        (ram' : Ram) × (bpf_map_update_elem ram (some active) map key value flags ≡ some (0, ram'))
        × (update (map_of i) (read_u32 ram key) (window ram value v) (store_of ram base)
            ≡ (ok tt, store_of ram' base))
        × ((a : ℕ) → (a < address) ⊎ (address + v ≤ a) → ram' a ≡ ram a)
  bpf_map_update_elem-update ram map key value flags i r =
      let n = r.names in
      let v = (map_of i).value_size in
      let at = (map_of i).backing_offset + read_u32 ram key * v in
      let bytes = window ram value v in
      let size = length-window ram value v in
      let ram' : Ram = copy ram value (base + at) v in
      (
        ram',
        update-Replaces base (committed_metadata l) room committed-IsProgram ram map key value flags
            i r,
        update-HasEntry (map_of i) (store_of ram base) (in_store ram i n.small) (read_u32 ram key)
              bytes n.entry size
            ∙ ap (λ b. (ok tt, b))
                (sym (
                  window-copy_at ram ram' base at bpf_max_map_bytes bytes
                    (λ j h. copied ram value (base + at) v j (omega (arith, h, size)))
                    (λ a lo out.
                      copy_outside ram value (base + at) v a (ground (arith, out, size))))),
        λ a out. copy_outside ram value (base + at) v a out,
      )

  -- For the maps of a loader whose layouts are in order and a backing store in RAM, an update that
  -- does not name an entry and a value answers an error and leaves the memory as it is.
  pub bpf_map_update_elem_refuses :
      (ram : Ram) (map key value flags : ℕ)
      → ((i : ℕ) → ¬ Replaces base (committed_metadata l) ram map key value flags i)
      → bpf_map_update_elem ram (some active) map key value flags ≡ some (helper_error, ram)
  bpf_map_update_elem_refuses ram map key value flags none_named =
      elim (update_cases base (committed_metadata l) room committed-IsProgram ram map key value
        flags) [ inl refused ↦ refused | inr (i, r) ↦ absurd (none_named i r) ]
