-- ===== src/Loader/Maps/Access.antt =====
-- `read_map` and `write_map` on ranges inside and outside the maps of the loaded program.
use opti_bridge.Prelude.{
  ℕ, ◌+◌, ◌^◌, ◌≤◌, ◌<◌, ◌≡◌, ◌≢◌, sym, ap, ◌∙◌, ◌⊎◌, ◌↔◌, inl, inr, true, List, length, get_or,
  take, drop, copy_at, Result, ok, err, arith, Result-cases, get_elem?-eq-get_or, length-copy_at,
  take-drop-copy_at, slice?-copy_at_apart, get_or-copy_at_outside,
}
use native.Mathlib.Decide.{dec_lt}
use opti_bridge.Protocol.{max_payload, max_map_write_bytes, bpf_max_map_bytes}
use opti_bridge.Loader.{BpfLoader, empty_layout}
use opti_bridge.Loader.Image.Layouts.{IsLaid, layout_at}
use opti_bridge.Loader.Maps.{has_program, locate, read_map, write_map}

-- A range that lies in a map of the loaded program.
pub record InMap (l : BpfLoader) (map_id byte_offset len : ℕ) : Type 0 where
  pub program : has_program l.state ≡ true
  pub known : map_id < l.committed_map_count
  pub inside : byte_offset + len ≤ (layout_at l.map_layouts map_id).len

abbrev pub start_of : BpfLoader → ℕ → ℕ → ℕ
start_of l map_id byte_offset = (layout_at l.map_layouts map_id).offset + byte_offset

module _ (l : BpfLoader) (laid : IsLaid l.map_layouts l.committed_map_count bpf_max_map_bytes) where
  locate-InMap :
      (map_id byte_offset len : ℕ)
      → InMap l map_id byte_offset len
      → locate l map_id byte_offset len ≡ ok (start_of l map_id byte_offset)
  unfolding locate
  locate-InMap map_id byte_offset len h = ground (
    arith,
    get_elem?-eq-get_or l.map_layouts map_id empty_layout,
    laid.ends map_id,
    laid.full,
    laid.count_max,
  )

  locate_ok :
      (map_id byte_offset len : ℕ) {start : ℕ}
      → len < 2 ^ 16
      → locate l map_id byte_offset len ≡ ok start
      → InMap l map_id byte_offset len × (start ≡ start_of l map_id byte_offset)
  unfolding locate
  locate_ok map_id byte_offset len small h =
      ground
        (arith, get_elem?-eq-get_or l.map_layouts map_id empty_layout, laid.full, laid.count_max)

  in_backing :
      (map_id byte_offset len : ℕ)
      → InMap l map_id byte_offset len
      → start_of l map_id byte_offset + len ≤ bpf_max_map_bytes
  in_backing map_id byte_offset len h = omega (arith, laid.ends map_id h.known, h.inside)

  -- With the maps laid out apart and a store of 1,024 bytes, a read succeeds exactly on a range of
  -- one to 16 bytes inside a map of the loaded program, and returns those bytes of the backing of
  -- the map.
  pub read_map_iff :
      (map_id byte_offset len : ℕ) (backing bytes : List ℕ)
      → length backing ≡ bpf_max_map_bytes
      → (read_map l map_id byte_offset len backing ≡ ok bytes) ↔ (
          InMap l map_id byte_offset len
          × (0 < len)
          × (len ≤ max_payload)
          × (bytes ≡ take len (drop (start_of l map_id byte_offset) backing)))
  unfolding read_map
  read_map_iff map_id byte_offset len backing bytes full = (
    λ h. elim (Result-cases (locate l map_id byte_offset len)) [
      | inl (start, e) ↦ ground (arith, locate_ok map_id byte_offset len {start = start})
      | inr (status, e) ↦ absurd (ground arith)
    ],
    λ h.
        ground
          (arith, locate-InMap map_id byte_offset len h.0, in_backing map_id byte_offset len h.0),
  )

  -- With the maps laid out apart and a store of 1,024 bytes, a write succeeds exactly with one to
  -- 14 bytes on a range inside a map of the loaded program, and the store afterwards is the one
  -- before with those bytes at that range.
  pub write_map_iff :
      (map_id byte_offset : ℕ) (replacement backing backing' : List ℕ)
      → length backing ≡ bpf_max_map_bytes
      → (write_map l map_id byte_offset replacement backing ≡ (ok tt, backing')) ↔ (
          InMap l map_id byte_offset (length replacement)
          × (0 < length replacement)
          × (length replacement ≤ max_map_write_bytes)
          × (backing' ≡ copy_at (start_of l map_id byte_offset) replacement backing))
  unfolding write_map
  write_map_iff map_id byte_offset replacement backing backing' full = (
    λ h. elim (Result-cases (locate l map_id byte_offset (length replacement))) [
      | inl (start, e) ↦
          ground (arith, locate_ok map_id byte_offset (length replacement) {start = start})
      | inr (status, e) ↦ absurd (ground arith)
    ],
    λ h. ground (
      arith,
      locate-InMap map_id byte_offset (length replacement) h.0,
      in_backing map_id byte_offset (length replacement) h.0,
    ),
  )

-- A write that is refused leaves the backing store as it was.
pub write_map_err :
    (l : BpfLoader) (map_id byte_offset : ℕ) (replacement backing backing' : List ℕ) {status : ℕ}
    → write_map l map_id byte_offset replacement backing ≡ (err status, backing')
    → backing' ≡ backing
unfolding write_map
write_map_err l map_id byte_offset replacement backing backing' h = ground arith

module _ (l : BpfLoader) (laid : IsLaid l.map_layouts l.committed_map_count bpf_max_map_bytes) where
  -- Ranges in two maps do not overlap.
  apart_of :
      (map_id byte_offset n other other_offset m : ℕ)
      → other ≢ map_id
      → InMap l map_id byte_offset n
      → InMap l other other_offset m
      → (start_of l other other_offset + m ≤ start_of l map_id byte_offset)
        ⊎ (start_of l map_id byte_offset + n ≤ start_of l other other_offset)
  apart_of map_id byte_offset n other other_offset m ne h k = elim (dec_lt map_id other) [
    | yes lt ↦ inr (omega (arith, laid.ordered map_id other lt k.known, h.inside))
    | no ge ↦ inl (omega (arith, laid.ordered other map_id (omega arith) h.known, k.inside))
  ]

  read_map_unchanged :
      (map_id byte_offset : ℕ) (replacement backing : List ℕ) (other other_offset len : ℕ)
      → other ≢ map_id
      → InMap l map_id byte_offset (length replacement)
      → read_map l other other_offset len
          (copy_at (start_of l map_id byte_offset) replacement backing)
        ≡ read_map l other other_offset len backing
  unfolding read_map
  read_map_unchanged map_id byte_offset replacement backing other other_offset len ne h =
      elim (Result-cases (locate l other other_offset len)) [
        | inr (status, e) ↦ ground arith
        | inl (start', e) ↦ elim (dec_lt max_payload len) [
          | yes long ↦ ground arith
          | no short ↦
              let (k, same) =
                locate_ok l laid other other_offset len {start = start'} (omega arith) e in
              ground (
                arith,
                slice?-copy_at_apart start len start' replacement backing,
                apart_of map_id byte_offset (length replacement) other other_offset len ne h k,
              )
        ]
      ]
    where
      start : ℕ
      start = start_of l map_id byte_offset

  -- With the maps laid out apart and a store of 1,024 bytes, what an accepted write stored, a read
  -- of the same range of the same map returns.
  pub read_map-write_map :
      (map_id byte_offset : ℕ) (replacement backing backing' : List ℕ)
      → length backing ≡ bpf_max_map_bytes
      → write_map l map_id byte_offset replacement backing ≡ (ok tt, backing')
      → read_map l map_id byte_offset (length replacement) backing' ≡ ok replacement
  read_map-write_map map_id byte_offset replacement backing backing' full h =
      let (inside, some_bytes, few, stored) =
        (write_map_iff l laid map_id byte_offset replacement backing backing' full).0 h in
      let start = start_of l map_id byte_offset in
      let room = in_backing l laid map_id byte_offset (length replacement) inside in
      let kept : length backing' ≡ bpf_max_map_bytes =
        ap length stored ∙ length-copy_at start replacement backing ∙ full in
      let back : take (length replacement) (drop start backing') ≡ replacement =
        ap (λ t. take (length replacement) (drop start t)) stored
        ∙ take-drop-copy_at start replacement backing (omega arith) in
      (read_map_iff l laid map_id byte_offset (length replacement) backing' replacement kept).1
        (inside, some_bytes, omega arith, sym back)

  -- With the maps laid out apart and a store of 1,024 bytes, a write to one map, accepted or
  -- refused, changes no read of another map.
  pub write_map_isolated :
      (map_id byte_offset : ℕ) (replacement backing : List ℕ) (other other_offset len : ℕ)
      → length backing ≡ bpf_max_map_bytes
      → other ≢ map_id
      → read_map l other other_offset len (write_map l map_id byte_offset replacement backing).1
        ≡ read_map l other other_offset len backing
  write_map_isolated map_id byte_offset replacement backing other other_offset len full ne =
      elim (Result-cases w.0) [
        | inr (status, e) ↦
            ap (read_map l other other_offset len)
              (write_map_err l map_id byte_offset replacement backing w.1 (λ i. (e i, w.1)))
        | inl (done, e) ↦
            let (inside, some_bytes, few, stored) =
              (write_map_iff l laid map_id byte_offset replacement backing w.1 full).0
                (λ i. (e i, w.1)) in
            ap (read_map l other other_offset len) stored
            ∙ read_map_unchanged map_id byte_offset replacement backing other other_offset len ne
                inside
      ]
    where
      w : Result (Unit {0}) ℕ × List ℕ
      w = write_map l map_id byte_offset replacement backing

  -- With the maps laid out apart and a store of 1,024 bytes, a write that is accepted changes no
  -- byte outside its range, and not the size of the store.
  pub write_map_frame :
      (map_id byte_offset : ℕ) (replacement backing backing' : List ℕ)
      → length backing ≡ bpf_max_map_bytes
      → write_map l map_id byte_offset replacement backing ≡ (ok tt, backing')
      → (length backing' ≡ bpf_max_map_bytes)
        × ((j : ℕ)
            → (j < start_of l map_id byte_offset)
              ⊎ (start_of l map_id byte_offset + length replacement ≤ j)
            → get_or backing' j 0 ≡ get_or backing j 0)
  write_map_frame map_id byte_offset replacement backing backing' full h =
      let (inside, some_bytes, few, stored) =
        (write_map_iff l laid map_id byte_offset replacement backing backing' full).0 h in
      let start = start_of l map_id byte_offset in
      (
        ap length stored ∙ length-copy_at start replacement backing ∙ full,
        λ j out.
            ap (λ t. get_or t j 0) stored
            ∙ get_or-copy_at_outside start replacement backing j 0 out,
      )
