-- ===== src/Firmware/MapHelpers.antt =====
-- firmware/optibridge/src/map_helpers.rs: the entries of an array map in the backing store.
-- `usize` has 32 bits; the sums of the slice bounds wrap.
pub mod Entries
use opti_bridge.Prelude.{
  ℕ, ◌+◌, ◌^◌, Option, none, some, List, length, slice?, copy_at, u32, Result, ok, err, ltb, ◌==◌,
  if◌then◌else◌, not, checked_add, checked_mul,
}
use opti_bridge.Loader.{BpfMapMetadata}

unfoldable pub value_range : BpfMapMetadata → ℕ → Option (ℕ × ℕ)
value_range m entry =
    if not (m.key_size == 4) then none else elim (checked_mul (2 ^ 32) entry m.value_size) [
      | none ↦ none
      | some offset ↦ elim (checked_add (2 ^ 32) offset m.value_size) [
        | none ↦ none
        | some end ↦ if ltb m.backing_len end then none else some (offset, end)
      ]
    ]

unfoldable pub lookup : BpfMapMetadata → ℕ → List ℕ → Option (List ℕ)
lookup m entry backing = elim (value_range m entry) [
  | none ↦ none
  | some (from, to) ↦ slice? backing (u32 (m.backing_offset + from)) (u32 (m.backing_offset + to))
]

-- The result beside the new backing store. The source copies `value` over a slice of its length.
unfoldable pub update : BpfMapMetadata → ℕ → List ℕ → List ℕ → Result (Unit {0}) (Unit {0}) × List ℕ
update m entry value backing =
    if not (length value == m.value_size) then (err tt, backing) else elim (value_range m entry) [
      | none ↦ (err tt, backing)
      | some (from, to) ↦
          elim (slice? backing (u32 (m.backing_offset + from)) (u32 (m.backing_offset + to))) [
            | none ↦ (err tt, backing)
            | some destination ↦ (ok tt, copy_at (u32 (m.backing_offset + from)) value backing)
          ]
    ]
