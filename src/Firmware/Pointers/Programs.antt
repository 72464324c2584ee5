-- ===== src/Firmware/Pointers/Programs.antt =====
-- The maps of a committed program in the metadata that an execution is given, `committed_metadata` of
-- crates/optibridge-protocol/src/lib.rs.
use opti_bridge.Prelude.{
  ℕ, zero, suc, ◌+◌, ◌*◌, ◌≤◌, ◌<◌, ◌≡◌, refl, ◌∙◌, List, length, get_or, arith, length-set,
  get_or-set_self, get_or-set_ne,
}
use native.Mathlib.Decide.{ℕ_discrete}
use opti_bridge.Protocol.{bpf_max_maps, bpf_max_map_bytes}
use opti_bridge.Loader.{
  BpfMapMetadata, BpfProgramMetadata, BpfLoader, MapLayout, metadata_of, no_metadata, fill_maps,
  committed_metadata,
}
use opti_bridge.Loader.Image.Layouts.{IsLaid, layout_at}

abbrev pub map_at : BpfProgramMetadata → ℕ → BpfMapMetadata
map_at metadata i = get_or metadata.maps i no_metadata

-- Maps one behind the other in the backing store, none of them empty.
pub record IsProgram (metadata : BpfProgramMetadata) : Type 0 where
  pub full : length metadata.maps ≡ bpf_max_maps
  pub count_max : metadata.map_count ≤ bpf_max_maps
  pub ends :
      (i : ℕ)
      → i < metadata.map_count
      → (map_at metadata i).backing_offset + (map_at metadata i).backing_len ≤ bpf_max_map_bytes
  pub ordered :
      (i j : ℕ)
      → i < j
      → j < metadata.map_count
      → (map_at metadata i).backing_offset + (map_at metadata i).backing_len
        ≤ (map_at metadata j).backing_offset
  pub keys : (i : ℕ) → i < metadata.map_count → (map_at metadata i).key_size ≡ 4
  pub nonempty : (i : ℕ) → i < metadata.map_count → 0 < (map_at metadata i).backing_len

length-fill_maps :
    (left index : ℕ) (layouts : List MapLayout) (maps : List BpfMapMetadata)
    → length (fill_maps left index layouts maps) ≡ length maps
unfolding fill_maps
length-fill_maps zero index layouts maps = refl
length-fill_maps (suc left) index layouts maps =
    length-fill_maps left (index + 1) layouts _ ∙ length-set maps index _

fill_maps_before :
    (left index i : ℕ) (layouts : List MapLayout) (maps : List BpfMapMetadata)
    → i < index
    → get_or (fill_maps left index layouts maps) i no_metadata ≡ get_or maps i no_metadata
unfolding fill_maps
fill_maps_before zero index i layouts maps h = refl
fill_maps_before (suc left) index i layouts maps h =
    fill_maps_before left (index + 1) i layouts _ (omega arith)
    ∙ get_or-set_ne maps index i _ no_metadata (λ e. omega arith)

get_or-fill_maps :
    (left index i : ℕ) (layouts : List MapLayout) (maps : List BpfMapMetadata)
    → index ≤ i
    → i < index + left
    → index + left ≤ length maps
    → get_or (fill_maps left index layouts maps) i no_metadata ≡ metadata_of (layout_at layouts i)
unfolding fill_maps
get_or-fill_maps zero index i layouts maps lo hi room = absurd (omega arith)
get_or-fill_maps (suc left) index i layouts maps lo hi room = elim (ℕ_discrete index i) [
  | yes e ↦
      fill_maps_before left (index + 1) i layouts _ (omega arith)
      ∙ rw e (get_or-set_self maps i (metadata_of (layout_at layouts i)) no_metadata (omega arith))
  | no ne ↦
      get_or-fill_maps left (index + 1) i layouts _ (omega (arith, ne)) (omega arith)
        (omega (arith, length-set maps index (metadata_of (layout_at layouts index))))
]

positive_product : (a b : ℕ) → 0 < a → 0 < b → 0 < a * b
positive_product zero b g h = absurd (omega arith)
positive_product (suc a) zero g h = absurd (omega arith)
positive_product (suc a) (suc b) g h = omega arith

-- The metadata of a loader whose layouts are in order.
pub committed_metadata-IsProgram :
    (l : BpfLoader)
    → IsLaid l.map_layouts l.committed_map_count bpf_max_map_bytes
    → IsProgram (committed_metadata l)
unfolding committed_metadata
committed_metadata-IsProgram l laid = record {
  full = length-fill_maps l.committed_map_count 0 l.map_layouts _;
  count_max = laid.count_max;
  ends = λ i h. rw (at i h) (laid.ends i h);
  ordered = λ i j lo hi. rw (at i (omega arith), at j hi) (laid.ordered i j lo hi);
  keys = λ i h. rw (at i h) (laid.arrays i h).keys;
  nonempty = λ i h. rw (at i h) (filled i h);
}
  where
    at :
        (i : ℕ)
        → i < l.committed_map_count
        → map_at (committed_metadata l) i ≡ metadata_of (layout_at l.map_layouts i)
    at i h =
        get_or-fill_maps l.committed_map_count 0 i l.map_layouts _ (omega arith) (omega arith)
          (omega (arith, laid.count_max))

    filled : (i : ℕ) → i < l.committed_map_count → 0 < (layout_at l.map_layouts i).len
    filled i h =
        let array = laid.arrays i h in
        let positive =
          positive_product (layout_at l.map_layouts i).value_size array.entries array.values
            array.nonempty in
        omega (arith, positive, array.exact)
