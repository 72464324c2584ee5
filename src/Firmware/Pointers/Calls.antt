-- ===== src/Firmware/Pointers/Calls.antt =====
-- `bpf_map_lookup_elem` and `bpf_map_update_elem` on addresses, beside `lookup` and `update` of
-- firmware/optibridge/src/map_helpers.rs on the backing store as a slice.
use opti_bridge.Prelude.{
  ℕ, ◌+◌, ◌*◌, ◌^◌, ◌≤◌, ◌<◌, ◌≡◌, refl, ◌⊎◌, ◌↔◌, inl, inr, true, none, some, u32, ◌==◌, ◌||◌, not,
  arith, Bool-cases, Option-cases,
}
use opti_bridge.Loader.{BpfProgramMetadata}
use opti_bridge.Firmware.MapHelpers.{value_range}
use opti_bridge.Firmware.MapHelpers.Entries.{HasEntry, value_range_iff}
use opti_bridge.Firmware.Timer.{helper_error}
use opti_bridge.Firmware.Pointers.{
  Ram, ActiveMapHelpers, bpf_map_layout, bpf_ram_start, bpf_ram_end, valid_bpf_ram_range, read_u32,
  copy, entry_address, bpf_map_lookup_elem, bpf_map_update_elem,
}
use opti_bridge.Firmware.Pointers.Programs.{map_at, IsProgram}
use opti_bridge.Firmware.Pointers.Regions.{
  InRam, layout_tuple, elem, map_layout_cases, map_layout_found,
}

-- An address of `n` bytes in the RAM that programs may address.
abbrev pub Addressable : ℕ → ℕ → Type 0
Addressable pointer n = (bpf_ram_start ≤ pointer) × (pointer + n ≤ bpf_ram_end)

valid_bpf_ram_range_iff :
    (pointer n : ℕ) → (valid_bpf_ram_range pointer n ≡ true) ↔ Addressable pointer n
unfolding valid_bpf_ram_range
valid_bpf_ram_range_iff pointer n = (λ h. ground arith, λ h. ground arith)

-- A map's address, and the address of a key that names an entry of it.
pub record Names (base : ℕ) (metadata : BpfProgramMetadata) (ram : Ram) (map key i : ℕ)
    : Type 0 where
  pub small : i < metadata.map_count
  pub at : map ≡ base + (map_at metadata i).backing_offset
  pub readable : Addressable key 4
  pub entry : HasEntry (map_at metadata i) (read_u32 ram key)

-- The address of the entry.
abbrev pub entry_at : ℕ → BpfProgramMetadata → Ram → ℕ → ℕ → ℕ
entry_at base metadata ram key i =
    base + ((map_at metadata i).backing_offset + read_u32 ram key * (map_at metadata i).value_size)

-- A call of `bpf_map_update_elem` that names an entry and a value to copy.
pub record Replaces (base : ℕ) (metadata : BpfProgramMetadata) (ram : Ram)
    (map key value flags i : ℕ) : Type 0 where
  pub names : Names base metadata ram map key i
  pub source : Addressable value (map_at metadata i).value_size
  pub plain : flags ≡ 0

module _ (base : ℕ) (metadata : BpfProgramMetadata) (room : InRam base)
    (p : IsProgram metadata) where
  abbrev active : ActiveMapHelpers
  active = record { backing = base; metadata = metadata }

  small_map : (i : ℕ) → i < metadata.map_count → (map_at metadata i).backing_len < 2 ^ 32
  small_map i h = omega (arith, p.ends i h)

  entry_address_found :
      (ram : Ram) (i key : ℕ)
      → i < metadata.map_count
      → HasEntry (map_at metadata i) (read_u32 ram key)
      → entry_address ram active i (map_at metadata i).backing_len key
        ≡ some (some (entry_at base metadata ram key i))
  unfolding entry_address
  entry_address_found ram i key h entry =
      let here = elem base metadata room p i h in
      let range =
        (value_range_iff (map_at metadata i) (read_u32 ram key) _ (small_map i h)).1
          (entry, refl) in
      ground (arith, here, range, entry.inside, p.ends i h, room.ends)

  entry_address_cases :
      (ram : Ram) (i key : ℕ)
      → i < metadata.map_count
      → (entry_address ram active i (map_at metadata i).backing_len key ≡ some none)
        ⊎ HasEntry (map_at metadata i) (read_u32 ram key)
  unfolding entry_address
  entry_address_cases ram i key h =
      let here = elem base metadata room p i h in
      elim (Option-cases (value_range (map_at metadata i) (read_u32 ram key))) [
        | inl missing ↦ inl (ground (arith, here, missing))
        | inr (range, found) ↦
            inr
              ((value_range_iff (map_at metadata i) (read_u32 ram key) range (small_map i h)).0
                found).0
      ]

  pub lookup-Names :
      (ram : Ram) (map key i : ℕ)
      → Names base metadata ram map key i
      → bpf_map_lookup_elem ram (some active) map key ≡ some (entry_at base metadata ram key i)
  unfolding bpf_map_lookup_elem
  lookup-Names ram map key i n =
      let layout : bpf_map_layout map active ≡ some (some (layout_tuple base metadata room p i)) =
        rw n.at (map_layout_found base metadata room p i n.small) in
      ground (
        arith,
        layout,
        p.keys i n.small,
        (valid_bpf_ram_range_iff key 4).1 n.readable,
        n.readable,
        entry_address_found ram i key n.small n.entry,
      )

  pub lookup_cases :
      (ram : Ram) (map key : ℕ)
      → (bpf_map_lookup_elem ram (some active) map key ≡ some 0)
        ⊎ ((i : ℕ) × Names base metadata ram map key i)
  unfolding bpf_map_lookup_elem
  lookup_cases ram map key = elim (map_layout_cases base metadata room p map) [
    | inl (others, missing) ↦ inl (ground (arith, missing))
    | inr (i, small, at, found) ↦ elim (Bool-cases (valid_bpf_ram_range key 4)) [
      | inr outside ↦ inl (ground (arith, found, p.keys i small, outside))
      | inl readable ↦ elim (entry_address_cases ram i key small) [
        | inl missing ↦ inl (ground (arith, found, p.keys i small, readable, missing))
        | inr entry ↦ inr (
          i,
          record {
            small = small;
            at = at;
            readable = (valid_bpf_ram_range_iff key 4).0 readable;
            entry = entry;
          },
        )
      ]
    ]
  ]

  pub update-Replaces :
      (ram : Ram) (map key value flags i : ℕ)
      → Replaces base metadata ram map key value flags i
      → bpf_map_update_elem ram (some active) map key value flags
        ≡ some (0, copy ram value (entry_at base metadata ram key i) (map_at metadata i).value_size)
  unfolding bpf_map_update_elem
  update-Replaces ram map key value flags i r =
      let n = r.names in
      let layout : bpf_map_layout map active ≡ some (some (layout_tuple base metadata room p i)) =
        rw n.at (map_layout_found base metadata room p i n.small) in
      let whole : u32 value ≡ value = omega (arith, r.source) in
      rw (← whole) (
        ground (
          arith,
          layout,
          p.keys i n.small,
          (valid_bpf_ram_range_iff key 4).1 n.readable,
          n.readable,
          (valid_bpf_ram_range_iff value (map_at metadata i).value_size).1 r.source,
          r.source,
          r.plain,
          entry_address_found ram i key n.small n.entry,
        ))

  pub update_cases :
      (ram : Ram) (map key value flags : ℕ)
      → (bpf_map_update_elem ram (some active) map key value flags ≡ some (helper_error, ram))
        ⊎ ((i : ℕ) × Replaces base metadata ram map key value flags i)
  unfolding bpf_map_update_elem
  update_cases ram map key value flags = elim (map_layout_cases base metadata room p map) [
    | inl (others, missing) ↦ inl (ground (arith, missing))
    | inr (i, small, at, found) ↦
        elim (Bool-cases (
          key == 0
          || value == 0
          || not (flags == 0)
          || not ((map_at metadata i).key_size == 4)
          || not (valid_bpf_ram_range key 4)
          || not (valid_bpf_ram_range value (map_at metadata i).value_size))) [
            | inl refused ↦ inl (rw (found, refused) refl)
            | inr passed ↦ elim (entry_address_cases ram i key small) [
              | inl missing ↦ inl (rw (found, passed, missing) refl)
              | inr entry ↦ inr (
                i,
                record {
                  names = record {
                    small = small;
                    at = at;
                    readable = (valid_bpf_ram_range_iff key 4).0 (ground (arith, passed));
                    entry = entry;
                  };
                  source =
                      (valid_bpf_ram_range_iff value (map_at metadata i).value_size).0
                        (ground (arith, passed));
                  plain = ground (arith, passed);
                },
              )
            ]
          ]
  ]
