-- ===== src/Tests/Suite/Entries.antt =====
-- The unit tests of firmware/optibridge/src/map_helpers.rs. A
-- definition with the name of a test is what it asserts of a run.
use opti_bridge.Prelude.{
  ℕ, ◌≡◌, refl, Option, none, some, List, [], ◌∷◌, take, replicate, map, Result, ok, err,
}
use opti_bridge.Loader.{BpfMapMetadata}
use opti_bridge.Firmware.MapHelpers.{value_range, lookup, update}

abbrev metadata : BpfMapMetadata
metadata = record { backing_offset = 4; backing_len = 8; key_size = 4; value_size = 4 }

abbrev array_entries_are_fixed_size_and_bounded_run : List (Option (ℕ × ℕ))
array_entries_are_fixed_size_and_bounded_run = map (value_range metadata) (0 ∷ 1 ∷ 2 ∷ [])

abbrev ArrayEntriesAreFixedSizeAndBounded : Type 0
ArrayEntriesAreFixedSizeAndBounded =
    array_entries_are_fixed_size_and_bounded_run ≡ some (0, 4) ∷ some (4, 8) ∷ none ∷ []

array_entries_are_fixed_size_and_bounded : ArrayEntriesAreFixedSizeAndBounded
unfolding value_range
array_entries_are_fixed_size_and_bounded = refl

abbrev lookup_and_update_use_value_ranges_run :
    Option (List ℕ)
    × Result (Unit {0}) (Unit {0})
    × Option (List ℕ)
    × List ℕ
    × Result (Unit {0}) (Unit {0})
lookup_and_update_use_value_ranges_run =
    let backing = replicate 12 0 in
    let (updated, backing') = update metadata 1 (1 ∷ 2 ∷ 3 ∷ 4 ∷ []) backing in
    (
      lookup metadata 0 backing,
      updated,
      lookup metadata 1 backing',
      take 4 backing',
      (update metadata 0 (1 ∷ 2 ∷ []) backing').0,
    )

abbrev LookupAndUpdateUseValueRanges : Type 0
LookupAndUpdateUseValueRanges =
    lookup_and_update_use_value_ranges_run
    ≡ (some (replicate 4 0), ok tt, some (1 ∷ 2 ∷ 3 ∷ 4 ∷ []), replicate 4 0, err tt)

lookup_and_update_use_value_ranges : LookupAndUpdateUseValueRanges
unfolding lookup update value_range
lookup_and_update_use_value_ranges = refl
