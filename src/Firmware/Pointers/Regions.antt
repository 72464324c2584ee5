-- ===== src/Firmware/Pointers/Regions.antt =====
-- The regions of a program's maps in the backing store, and the addresses under which
-- `bpf_map_layout` of firmware/optibridge/src/main.rs finds them.
use opti_bridge.Prelude.{
  ℕ, zero, suc, ◌+◌, ◌-◌, ◌≤◌, ◌<◌, ◌≡◌, ◌≢◌, refl, ap, sym, ◌∙◌, ◌⊎◌, inl, inr, none, some, List,
  [], ◌∷◌, length, get_elem?, arith, get_elem?-eq-get_or,
}
use native.Mathlib.Decide.{ℕ_discrete, dec_lt}
use opti_bridge.Protocol.{bpf_max_map_bytes}
use opti_bridge.Loader.{BpfProgramMetadata, BpfLoader, no_metadata, committed_metadata}
use opti_bridge.Loader.Image.Layouts.{IsLaid}
use opti_bridge.Firmware.Pointers.{
  ActiveMapHelpers, MapRegion, add, region_of, regions_from, map_regions, layout_from,
  bpf_map_layout, bpf_ram_start, bpf_ram_end,
}
use opti_bridge.Firmware.Pointers.Programs.{map_at, IsProgram, committed_metadata-IsProgram}

-- The backing store at `base` lies in the RAM that programs may address.
pub record InRam (base : ℕ) : Type 0 where
  pub starts : bpf_ram_start ≤ base
  pub ends : base + bpf_max_map_bytes ≤ bpf_ram_end

-- What the interpreter is told of a map: a region inside the backing store, behind the regions of
-- the maps before it, that starts where the helpers look the map up.
pub record IsRegion (base : ℕ) (metadata : BpfProgramMetadata) (regions : List MapRegion) (i : ℕ)
    : Type 0 where
  pub region : MapRegion
  pub given : get_elem? regions i ≡ some region
  pub keys : region.key_size ≡ 4
  pub starts : base ≤ region.data_start
  pub ends : region.data_end ≤ base + bpf_max_map_bytes
  pub filled : region.data_start < region.data_end
  pub behind :
      (j : ℕ) (before : MapRegion)
      → j < i
      → get_elem? regions j ≡ some before
      → before.data_end ≤ region.data_start
  pub found :
      bpf_map_layout region.relocated_ptr (record { backing = base; metadata = metadata })
      ≡ some (some (i, region.key_size, region.value_size, region.data_end - region.data_start))

module _ (base : ℕ) (metadata : BpfProgramMetadata) (room : InRam base)
    (p : IsProgram metadata) where
  abbrev pub state : ActiveMapHelpers
  state = record { backing = base; metadata = metadata }

  add-within :
      (i : ℕ)
      → i < metadata.map_count
      → add base (map_at metadata i).backing_offset ≡ base + (map_at metadata i).backing_offset
  add-within i h = omega (arith, p.ends i h, room.ends)

  pub elem : (i : ℕ) → i < metadata.map_count → get_elem? metadata.maps i ≡ some (map_at metadata i)
  elem i h = get_elem?-eq-get_or metadata.maps i no_metadata (omega (arith, p.full, p.count_max))

  -- What `bpf_map_layout` gives for the map at an index.
  abbrev pub layout_tuple : ℕ → ℕ × ℕ × ℕ × ℕ
  layout_tuple i = let m = map_at metadata i in (i, m.key_size, m.value_size, m.backing_len)

  abbrev pub start_of : ℕ → ℕ
  start_of i = base + (map_at metadata i).backing_offset

  abbrev pub NoStart : ℕ → ℕ → Type 0
  NoStart map index = (i : ℕ) → index ≤ i → i < metadata.map_count → map ≢ start_of i

  -- Either the address is the start of no map from the index on, or that of a map, which the search
  -- then finds.
  layout_from_cases :
      (left index map : ℕ)
      → index + left ≡ metadata.map_count
      → (NoStart map index × (layout_from map state left index ≡ some none))
        ⊎ ((i : ℕ) × (i < metadata.map_count)
            × (map ≡ start_of i)
            × (layout_from map state left index ≡ some (some (layout_tuple i))))
  unfolding layout_from
  layout_from_cases zero index map e = inl ((λ i lo hi. absurd (omega arith)), refl)
  layout_from_cases (suc left) index map e =
      let here = elem index (omega (arith, e)) in
      let place = add-within index (omega (arith, e)) in
      elim (ℕ_discrete map (start_of index)) [
        | yes same ↦ inr (index, omega (arith, e), same, ground (arith, here, place, same))
        | no differs ↦ elim (layout_from_cases left (index + 1) map (omega (arith, e))) [
          | inl (others, missing) ↦ inl (
            (λ i lo hi. elim (ℕ_discrete index i) [
              | yes same ↦ rw (← same) differs
              | no further ↦ others i (omega (arith, further)) hi
            ]),
            ground (arith, here, place, differs, missing),
          )
          | inr (i, small, same, found) ↦
              inr (i, small, same, ground (arith, here, place, differs, found))
        ]
      ]

  start_distinct :
      (i j : ℕ) → i < metadata.map_count → j < metadata.map_count → start_of i ≡ start_of j → i ≡ j
  start_distinct i j h g e = elim (dec_lt i j) [
    | yes below ↦ absurd (omega (arith, p.ordered i j below g, p.nonempty i h, e))
    | no above ↦ elim (dec_lt j i) [
      | yes over ↦ absurd (omega (arith, p.ordered j i over h, p.nonempty j g, e))
      | no same ↦ omega arith
    ]
  ]

  pub map_layout_cases :
      (map : ℕ)
      → (NoStart map 0 × (bpf_map_layout map state ≡ some none))
        ⊎ ((i : ℕ) × (i < metadata.map_count)
            × (map ≡ start_of i)
            × (bpf_map_layout map state ≡ some (some (layout_tuple i))))
  unfolding bpf_map_layout
  map_layout_cases map = layout_from_cases metadata.map_count 0 map (omega arith)

  -- The address at which a map's region starts is found to be that map's.
  pub map_layout_found :
      (i : ℕ)
      → i < metadata.map_count
      → bpf_map_layout (start_of i) state ≡ some (some (layout_tuple i))
  map_layout_found i h = elim (map_layout_cases (start_of i)) [
    | inl (others, missing) ↦ absurd (others i (omega arith) h refl)
    | inr (j, small, same, found) ↦
        found ∙ ap (λ k. some (some (layout_tuple k))) (start_distinct j i small h (sym same))
  ]

  each_region :
      (index left : ℕ) (rest : List MapRegion)
      → ((i : ℕ)
          → i < left
          → get_elem? rest i ≡ some (region_of base (map_at metadata (index + 1 + i))))
      → (i : ℕ) → i < suc left
      → get_elem? (region_of base (map_at metadata index) ∷ rest) i
        ≡ some (region_of base (map_at metadata (index + i)))
  each_region index left rest each zero h = let e : index + 0 ≡ index = omega arith in rw e refl
  each_region index left rest each (suc i) h =
      let e : index + suc i ≡ index + 1 + i = omega arith in rw e (each i (omega arith))

  regions_from_lem :
      (left index : ℕ)
      → index + left ≡ metadata.map_count
      → (regions : List MapRegion) × (regions_from metadata.maps base left index ≡ some regions)
        × (length regions ≡ left)
        × ((i : ℕ)
            → i < left
            → get_elem? regions i ≡ some (region_of base (map_at metadata (index + i))))
  unfolding regions_from
  regions_from_lem zero index e = ([], refl, refl, λ i h. elim h [ ])
  regions_from_lem (suc left) index e =
      let here = elem index (omega (arith, e)) in
      let (rest, found, size, each) = regions_from_lem left (index + 1) (omega (arith, e)) in
      (
        region_of base (map_at metadata index) ∷ rest,
        rw (here, found) refl,
        ap suc size,
        each_region index left rest each,
      )

  each-IsRegion :
      (regions : List MapRegion)
      → ((i : ℕ)
          → i < metadata.map_count
          → get_elem? regions i ≡ some (region_of base (map_at metadata i)))
      → (i : ℕ) → i < metadata.map_count
      → IsRegion base metadata regions i
  each-IsRegion regions each i h = record {
    region = region_of base (map_at metadata i);
    given = each i h;
    keys = p.keys i h;
    starts = omega (arith, add-within i h);
    ends = omega (arith, add-within i h, p.ends i h);
    filled = omega (arith, p.nonempty i h);
    behind = λ j before lo e.
        let same : region_of base (map_at metadata j) ≡ before = cc (each j (omega arith), e) in
        rw (← same) (omega (arith, add-within i h, add-within j (omega arith), p.ordered j i lo h));
    found =
        let len = (map_at metadata i).backing_len in
        let whole : start_of i + len - start_of i ≡ len = omega arith in
        rw (add-within i h, whole) (map_layout_found i h);
  }

-- For the maps of a loader whose layouts are in order and a backing store in RAM, the regions of an
-- execution are built without a panic, one for each map: they lie in the store, apart from each
-- other, and the address that the program has of a map is the one under which the helpers find it.
pub map_regions-IsRegion :
    (l : BpfLoader) (base : ℕ)
    → IsLaid l.map_layouts l.committed_map_count bpf_max_map_bytes
    → InRam base
    → (regions : List MapRegion) × (map_regions (committed_metadata l) base ≡ some regions)
      × (length regions ≡ l.committed_map_count)
      × ((i : ℕ) → i < l.committed_map_count → IsRegion base (committed_metadata l) regions i)
unfolding map_regions committed_metadata
map_regions-IsRegion l base laid room =
    let metadata = committed_metadata l in
    let p = committed_metadata-IsProgram l laid in
    let (regions, built, size, each) =
      regions_from_lem base metadata room p l.committed_map_count 0 (omega arith) in
    (
      regions,
      built,
      size,
      each-IsRegion base metadata room p regions
          (λ i h. let e : 0 + i ≡ i = omega arith in each i h ∙ rw e refl),
    )
