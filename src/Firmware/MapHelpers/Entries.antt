-- ===== src/Firmware/MapHelpers/Entries.antt =====
-- Entries of a map, for `value_range`, `lookup` and `update` of map_helpers.rs.
use opti_bridge.Prelude.{
  ℕ, zero, suc, ◌+◌, ◌*◌, ◌^◌, ◌≤◌, ◌<◌, ◌≡◌, ◌≢◌, refl, sym, ap, ◌∙◌, ◌↔◌, ◌⊎◌, inl, inr, some,
  List, length, slice?, copy_at, ok, arith, length-copy_at, take-drop-copy_at, slice?-copy_at_apart,
  Option-cases,
}
use native.Mathlib.Decide.{dec_lt, ℕ_discrete}
use opti_bridge.Loader.{BpfMapMetadata}
use opti_bridge.Firmware.MapHelpers.{value_range, lookup, update}

-- An entry that lies whole inside the map.
pub record HasEntry (m : BpfMapMetadata) (entry : ℕ) : Type 0 where
  pub key : m.key_size ≡ 4
  pub inside : entry * m.value_size + m.value_size ≤ m.backing_len

-- A map whose backing lies in the store, as the loader lays it out.
pub record InStore (m : BpfMapMetadata) (backing : List ℕ) : Type 0 where
  pub ends : m.backing_offset + m.backing_len ≤ length backing
  pub addressable : length backing < 2 ^ 32

value_range-HasEntry :
    (m : BpfMapMetadata) (entry : ℕ)
    → m.backing_len < 2 ^ 32
    → HasEntry m entry
    → value_range m entry ≡ some (entry * m.value_size, entry * m.value_size + m.value_size)
unfolding value_range
value_range-HasEntry m entry small h = ground (arith, h.key, h.inside)

HasEntry-value_range :
    (m : BpfMapMetadata) (entry : ℕ) {range : ℕ × ℕ}
    → value_range m entry ≡ some range
    → HasEntry m entry × (range ≡ (entry * m.value_size, entry * m.value_size + m.value_size))
unfolding value_range
HasEntry-value_range m entry h = ground arith

-- Distinct entries do not overlap.
apart : (v i j : ℕ) → i < j → i * v + v ≤ j * v
apart v i zero h = elim h [ ]
apart v i (suc j) h = elim (dec_lt i j) [
  | yes below ↦ let rest = apart v i j below in omega (arith, rest)
  | no above ↦ let e : i ≡ j = omega arith in rw e (omega arith)
]

-- In a map of fewer than 2 ^ 32 bytes, an entry has a range exactly when the keys have four bytes
-- and the entry lies whole inside the map, and then its range is the one in an array of values.
pub value_range_iff :
    (m : BpfMapMetadata) (entry : ℕ) (range : ℕ × ℕ)
    → m.backing_len < 2 ^ 32
    → (value_range m entry ≡ some range)
      ↔ (HasEntry m entry × (range ≡ (entry * m.value_size, entry * m.value_size + m.value_size)))
value_range_iff m entry range small = (
  λ found. HasEntry-value_range m entry found,
  λ h. value_range-HasEntry m entry small h.0 ∙ ap some (sym h.1),
)

module _ (m : BpfMapMetadata) (backing : List ℕ) (inside : InStore m backing) where
  pub update-HasEntry :
      (entry : ℕ) (value : List ℕ)
      → HasEntry m entry
      → length value ≡ m.value_size
      → update m entry value backing
        ≡ (ok tt, copy_at (m.backing_offset + entry * m.value_size) value backing)
  unfolding update
  update-HasEntry entry value h sized =
      let range = value_range-HasEntry m entry (omega (arith, inside.ends, inside.addressable)) h in
      ground (arith, range, inside.ends, inside.addressable, h.inside)

  pub lookup-HasEntry :
      (entry : ℕ)
      → HasEntry m entry
      → lookup m entry backing
        ≡ slice? backing
            (m.backing_offset + entry * m.value_size)
            (m.backing_offset + entry * m.value_size + m.value_size)
  unfolding lookup
  lookup-HasEntry entry h =
      let range = value_range-HasEntry m entry (omega (arith, inside.ends, inside.addressable)) h in
      ground (arith, range, inside.ends, inside.addressable, h.inside)

InStore-copy_at :
    (m : BpfMapMetadata) (backing value : List ℕ) (at : ℕ)
    → InStore m backing
    → InStore m (copy_at at value backing)
InStore-copy_at m backing value at h =
    let same = length-copy_at at value backing in
    record { ends = omega (arith, same, h.ends); addressable = omega (arith, same, h.addressable) }

-- In a map that lies in the store, an update of an entry inside the map with a value of the map's
-- size succeeds, and a lookup of that entry then gives the value.
pub lookup-update :
    (m : BpfMapMetadata) (backing : List ℕ) (entry : ℕ) (value : List ℕ)
    → InStore m backing
    → HasEntry m entry
    → length value ≡ m.value_size
    → let (result, backing') = update m entry value backing in
      (result ≡ ok tt) × (lookup m entry backing' ≡ some value)
lookup-update m backing entry value inside h sized =
    let at = m.backing_offset + entry * m.value_size in
    let inside' = InStore-copy_at m backing value at inside in
    let written =
      take-drop-copy_at at value backing (omega (arith, inside.ends, h.inside, sized)) in
    rw (update-HasEntry m backing inside entry value h sized) (
      refl,
      lookup-HasEntry m (copy_at at value backing) inside' entry h
          ∙ ground (arith, written, inside'.ends, h.inside),
    )

-- An update that changes the store is one of an entry inside the map, by a value of its size.
update_cases :
    (m : BpfMapMetadata) (backing : List ℕ) (entry : ℕ) (value : List ℕ)
    → ((update m entry value backing).1 ≡ backing)
      ⊎ (HasEntry m entry × (length value ≡ m.value_size))
unfolding update
update_cases m backing entry value = elim (Option-cases (value_range m entry)) [
  | inl missing ↦ inl (ground (arith, missing))
  | inr (range, found) ↦ elim (ℕ_discrete (length value) m.value_size) [
    | yes sized ↦ inr ((HasEntry-value_range m entry found).0, sized)
    | no different ↦ inl (ground (arith, different))
  ]
]

-- In a map that lies in the store, a lookup of another entry inside the map gives after an update
-- what it gave before, whether the update succeeds or not.
update_isolated :
    (m : BpfMapMetadata) (backing : List ℕ) (entry other : ℕ) (value : List ℕ)
    → InStore m backing
    → HasEntry m other
    → entry ≢ other
    → let (result, backing') = update m entry value backing in
      lookup m other backing' ≡ lookup m other backing
update_isolated m backing entry other value inside h distinct =
    elim (update_cases m backing entry value) [
      | inl unchanged ↦ ap (λ b. lookup m other b) unchanged
      | inr (here, sized) ↦
          let at = m.backing_offset + entry * m.value_size in
          let inside' = InStore-copy_at m backing value at inside in
          let gap : (entry * m.value_size + m.value_size ≤ other * m.value_size)
              ⊎ (other * m.value_size + m.value_size ≤ entry * m.value_size) =
            elim (dec_lt entry other) [
              | yes below ↦ inl (apart m.value_size entry other below)
              | no above ↦ inr (apart m.value_size other entry (omega (arith, distinct)))
            ] in
          rw (update-HasEntry m backing inside entry value here sized) (
            lookup-HasEntry m (copy_at at value backing) inside' other h
            ∙ slice?-copy_at_apart at m.value_size (m.backing_offset + other * m.value_size) value
                backing (ground (arith, gap, sized))
            ∙ sym (lookup-HasEntry m backing inside other h))
    ]
