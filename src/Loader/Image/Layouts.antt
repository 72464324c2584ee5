-- ===== src/Loader/Image/Layouts.antt =====
-- `map_layouts`: well-formed layouts, and the loop over the descriptors.
use opti_bridge.Prelude.{
  ℕ, zero, suc, ◌+◌, ◌*◌, ◌≤◌, ◌<◌, ◌≡◌, refl, sym, ◌∙◌, subst, ◌≢◌, some, List, length, get_or,
  set, inl, inr, Option-cases, Result-cases, arith, length-set, get_or-set_self, get_or-set_ne,
}
use native.Mathlib.Decide.{ℕ_discrete}
use opti_bridge.Protocol.{
  bpf_flash_offset, bpf_header_size, bpf_map_descriptor_size, bpf_max_maps, bpf_max_map_bytes,
}
use opti_bridge.Loader.{BpfFlash, MapLayout, empty_layout, no_layouts}
use opti_bridge.Loader.Image.{word_at, layout_of, layouts_from, map_layouts}

abbrev pub layout_at : List MapLayout → ℕ → MapLayout
layout_at layouts i = get_or layouts i empty_layout

-- A layout is an array of at least one entry with four-byte keys.
pub record IsArray (m : MapLayout) : Type 0 where
  pub entries : ℕ
  pub nonempty : 0 < entries
  pub keys : m.key_size ≡ 4
  pub values : 0 < m.value_size
  pub exact : m.len ≡ m.value_size * entries

pub record IsLaid (layouts : List MapLayout) (count total : ℕ) : Type 0 where
  pub full : length layouts ≡ bpf_max_maps
  pub count_max : count ≤ bpf_max_maps
  pub total_max : total ≤ bpf_max_map_bytes
  pub ends : (i : ℕ) → i < count → (layout_at layouts i).offset + (layout_at layouts i).len ≤ total
  pub ordered :
      (i j : ℕ)
      → i < j
      → j < count
      → (layout_at layouts i).offset + (layout_at layouts i).len ≤ (layout_at layouts j).offset
  pub arrays : (i : ℕ) → i < count → IsArray (layout_at layouts i)

-- What one accepted descriptor contributes.
record IsNext (total next_total : ℕ) (m : MapLayout) : Type 0 where
  starts : m.offset ≡ total
  stops : m.offset + m.len ≡ next_total
  bounded : next_total ≤ bpf_max_map_bytes
  array : IsArray m

layout_of-IsNext :
    (descriptor : List ℕ) (total : ℕ) {m : MapLayout} {next_total : ℕ}
    → total ≤ bpf_max_map_bytes
    → layout_of descriptor total ≡ some (m, next_total)
    → IsNext total next_total m
unfolding layout_of
layout_of-IsNext descriptor total {m} {next_total} h e = record {
  starts = ground arith;
  stops = ground arith;
  bounded = ground arith;
  array = record {
    entries = word_at descriptor 12;
    nonempty = ground arith;
    keys = ground arith;
    values = ground arith;
    exact = ground arith;
  };
}

-- The next layout goes behind those before it.
set-IsLaid :
    (layouts : List MapLayout) (count total : ℕ) (m : MapLayout) (next_total : ℕ)
    → count < bpf_max_maps
    → IsLaid layouts count total
    → IsNext total next_total m
    → IsLaid (set layouts count m) (count + 1) next_total
set-IsLaid layouts count total m next_total room v n = record {
  full = length-set layouts count m ∙ v.full;
  count_max = omega arith;
  total_max = n.bounded;
  ends = λ i p. ground (arith, same i, fresh, v.ends i, n.starts, n.stops);
  ordered = λ i j p q. ground (arith, same i, same j, fresh, v.ends i, v.ordered i j, n.starts);
  arrays = λ i p. elim (ℕ_discrete i count) [
    | yes e ↦
        subst (λ (k : ℕ). IsArray (layout_at (set layouts count m) k)) (sym e) (rw fresh n.array)
    | no h ↦ rw (same i h) (v.arrays i (omega arith))
  ];
}
  where
    same : (i : ℕ) → i ≢ count → layout_at (set layouts count m) i ≡ layout_at layouts i
    same i h = get_or-set_ne layouts count i m empty_layout (λ e. h (sym e))

    fresh : layout_at (set layouts count m) count ≡ m
    fresh = get_or-set_self layouts count m empty_layout (omega arith)

widen-IsLaid :
    {layouts : List MapLayout} {count total : ℕ}
    → IsLaid layouts count total
    → IsLaid layouts count bpf_max_map_bytes
widen-IsLaid v = record {
  full = v.full;
  count_max = v.count_max;
  total_max = omega arith;
  ends = λ i p. omega (arith, v.ends i p, v.total_max);
  ordered = v.ordered;
  arrays = v.arrays;
}

pub no_layouts-IsLaid : (total : ℕ) → total ≤ bpf_max_map_bytes → IsLaid no_layouts 0 total
no_layouts-IsLaid total h = record {
  full = refl;
  count_max = omega arith;
  total_max = h;
  ends = λ i p. absurd (omega arith);
  ordered = λ i j p q. absurd (omega arith);
  arrays = λ i p. absurd (omega arith);
}

module _ {ℓ} {S : Type ℓ} (flash : BpfFlash S) where
  layouts_from-IsLaid :
      (bytecode_len left index total : ℕ) (layouts : List MapLayout) (s : S)
      {found : List MapLayout}
      → index + left ≤ bpf_max_maps
      → IsLaid layouts index total
      → (layouts_from flash bytecode_len left index total layouts s).1 ≡ some found
      → IsLaid found (index + left) bpf_max_map_bytes
  unfolding layouts_from
  layouts_from-IsLaid bytecode_len zero index total layouts s {found} room v h =
      let e : index + 0 ≡ index = omega arith in
      let same : layouts ≡ found = cc in rw (e, ← same) (widen-IsLaid v)
  layouts_from-IsLaid bytecode_len (suc left) index total layouts s room v h =
      elim (Result-cases (flash.read s from bpf_map_descriptor_size).1) [
        | inr (e, refused) ↦ absurd (ground arith)
        | inl (descriptor, got) ↦ elim (Option-cases (layout_of descriptor total)) [
          | inl bad ↦ absurd (ground arith)
          | inr ((m, next_total), good) ↦
              rw (let e : index + suc left ≡ index + 1 + left = omega arith in e) (
                layouts_from-IsLaid bytecode_len left (index + 1) next_total (set layouts index m)
                  (flash.read s from bpf_map_descriptor_size).0 (omega arith)
                  (set-IsLaid layouts index total m next_total (omega arith) v
                    (layout_of-IsNext descriptor total v.total_max good))
                  (ground arith))
        ]
      ]
    where
      from : ℕ
      from = bpf_flash_offset + bpf_header_size + bytecode_len + index * bpf_map_descriptor_size

  -- For at most eight maps, layouts that `map_layouts` returns lie in index order within the 1,024
  -- bytes of backing, apart from each other, and each is an array of whole entries with four-byte
  -- keys.
  pub map_layouts-IsLaid :
      (bytecode_len map_count : ℕ) (s : S) {found : List MapLayout}
      → map_count ≤ bpf_max_maps
      → (map_layouts flash bytecode_len map_count s).1 ≡ some found
      → IsLaid found map_count bpf_max_map_bytes
  unfolding map_layouts
  map_layouts-IsLaid bytecode_len map_count s h e =
      let z : 0 + map_count ≡ map_count = omega arith in
      rw z at (
        layouts_from-IsLaid bytecode_len map_count 0 0 no_layouts s (omega arith)
          (no_layouts-IsLaid 0 (omega arith)) e)
