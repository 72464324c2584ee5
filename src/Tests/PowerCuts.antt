-- ===== src/Tests/PowerCuts.antt =====
-- Power cuts on the flash of Tests/Storage.
use opti_bridge.Prelude.{
  ℕ, ◌+◌, ◌-◌, ◌≡◌, refl, inl, inr, arith, some, List, ok, length, get_or, if◌then◌else◌, min,
  window,
}
use opti_bridge.Loader.{BpfLoader, image_len, begin_op, new}
use opti_bridge.Loader.Accept.{accepts_load, operation, begin_request}
use opti_bridge.Loader.Image.{
  execute_pending, validate_committed, validate_header, validate_image, scan, map_layouts,
  layouts_from, layout_of,
}
use opti_bridge.Crc.{crc32_update, crc32_finish}
use opti_bridge.Loader.Image.Nor.Sessions.{Session, boots, accepts}
use opti_bridge.Loader.Image.Nor.PowerCuts.{IsTear, power_cut}
use opti_bridge.Loader.Image.Nor.Recovery.{Recovers, power_cut-Recovers}
use opti_bridge.Tests.Loads.{load_request}
use opti_bridge.Tests.Storage.{
  within, cells_flash, cells_flash-IsNor, cells_flash-Works, stored, booted, stored_state,
}

-- The power goes after the first byte of a write.
abbrev tear : (ℕ → ℕ) → ℕ → List ℕ → ℕ → ℕ
tear s offset bytes i =
    if within offset (offset + min 1 (length bytes)) i then get_or bytes (i - offset) 0 else s i

tear-IsTear : IsTear tear (λ s. s)
tear-IsTear = record {
  outside = λ s offset bytes i out. ground (arith, out);
  unprogrammed = λ s offset bytes i same erased.
      let e : offset + i - offset ≡ i = omega arith in ground (arith, same, erased, e);
}

-- A Begin that would replace the program that boot has found.
abbrev replacing : BpfLoader
replacing = record (booted.0) { pending = some (begin_op 8 0 5) }

replacing_accepted : accepts_load (booted.0) load_request ≡ some (replacing, ok tt)
unfolding accepts_load operation begin_request image_len validate_committed validate_header
    validate_image scan map_layouts layouts_from layout_of window crc32_update crc32_finish
replacing_accepted = refl

replacing-Session : Session cells_flash replacing (booted.1)
replacing-Session = accepts load_request (boots stored) (omega arith) replacing_accepted

power_cut-Recovers_example :
    let (l', (s', left)) =
      execute_pending (power_cut cells_flash tear) replacing (booted.1, some 1) in
    Recovers replacing (validate_committed cells_flash new s').0
power_cut-Recovers_example =
    power_cut-Recovers cells_flash-IsNor tear-IsTear {l = replacing} {s = booted.1} 1
      replacing-Session cells_flash-Works (inr (1696784233, inl stored_state))
