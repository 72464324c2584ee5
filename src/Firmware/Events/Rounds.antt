-- ===== src/Firmware/Events/Rounds.antt =====
-- A round of the main loop of firmware/optibridge/src/main.rs with no packet in between, as steps of
-- the interleaving. The status register of the I2C slave is the parameter `star2`, whose reads change
-- a state of its own.
pub mod Worked
use opti_bridge.Prelude.{
  ℕ, zero, suc, ◌-◌, ◌≤◌, ◌≡◌, refl, ap, subst, inl, inr, Bool, true, false, Option, none, some,
  bit_and, ok, ◌==◌, ==_iff, sym, ◌∙◌, ◌⊎◌, if◌then◌else◌, Option-cases, Bool-cases, Result-cases,
  arith,
}
use opti_bridge.Loader.{
  BpfFlash, BpfProgramMetadata, is_pending, has_pending, event_execution_metadata,
}
use opti_bridge.Firmware.Timer.{TimerEvent, take_ready_timer}
use opti_bridge.Firmware.Events.{
  Firmware, Interpreter, Phase, outside, leaving, taken, unclaimed, claimed, current, loaded,
  execute_timer_event, flash_work, poll, take_timer, timer_context, execute_loaded_bpf,
}
use opti_bridge.Loader.Image.{execute_pending}
use opti_bridge.Firmware.Events.Settled.{execute_pending-pending, event-loader}
use opti_bridge.Firmware.Events.Steps.{
  works, polls, takes, advances, Reached, after, Reached-InOrder,
}

abbrev i2c_bus_idle_spins : ℕ
i2c_bus_idle_spins = 48000

module _ {κ} {B : Type κ} (star2 : B → B × ℕ) where
  -- The loop of `wait_for_i2c_bus_idle`, with the spins left.
  pub wait_spins : ℕ → B → B × Bool
  wait_spins zero b = (b, false)
  wait_spins (suc spins) b =
      let (b', status) = star2 b in
      let rest = wait_spins spins b' in if bit_and status 2 == 0 then (b', true) else rest

  unfoldable pub wait_for_i2c_bus_idle : B → B × Bool
  wait_for_i2c_bus_idle b = wait_spins i2c_bus_idle_spins b

module _ (interpret : Interpreter) where
  -- `execute_timer_event` with no interrupt, for so many critical sections at most.
  unfoldable pub run_event : ℕ → Phase → Firmware → Phase × Firmware
  run_event zero p f = (p, f)
  run_event (suc sections) p f =
      let (p', f') = execute_timer_event interpret p f in run_event sections p' f'

  abbrev run_taken : Option TimerEvent → Firmware → Firmware
  run_taken none f = f
  run_taken (some event) f = (run_event 5 (taken event) f).1

  -- The critical sections that are left of an event at most.
  abbrev rank : Phase → ℕ
  rank outside = 0
  rank leaving = 1
  rank (unclaimed event) = 1
  rank (loaded event metadata) = 2
  rank (current event) = 3
  rank (claimed event) = 4
  rank (taken event) = 5

  rank_drops :
      (p : Phase) (f : Firmware) → rank ((execute_timer_event interpret p f).0) ≤ rank p - 1
  unfolding execute_timer_event
  rank_drops outside f = omega arith
  rank_drops leaving f = omega arith
  rank_drops (unclaimed event) f = omega arith
  rank_drops (loaded event metadata) f = omega arith
  rank_drops (current event) f = elim (Result-cases (event_execution_metadata f.device.loader)) [
    | inl (metadata, e) ↦ rw (e, execute_timer_event) (omega arith)
    | inr (status, e) ↦ rw (e, execute_timer_event) (omega arith)
  ]
  rank_drops (claimed event) f = elim (Bool-cases (f.timer.generation == event.generation)) [
    | inl same ↦ rw (same, execute_timer_event) (omega arith)
    | inr stale ↦ rw (stale, execute_timer_event) (omega arith)
  ]
  rank_drops (taken event) f = elim (Bool-cases f.active) [
    | inl held ↦ rw (held, execute_timer_event) (omega arith)
    | inr free ↦ rw (free, execute_timer_event) (omega arith)
  ]

  rank_zero : (p : Phase) → rank p ≡ 0 → p ≡ outside
  rank_zero outside h = refl
  rank_zero leaving h = absurd (omega arith)
  rank_zero (unclaimed event) h = absurd (omega arith)
  rank_zero (loaded event metadata) h = absurd (omega arith)
  rank_zero (current event) h = absurd (omega arith)
  rank_zero (claimed event) h = absurd (omega arith)
  rank_zero (taken event) h = absurd (omega arith)

  run_event_ends :
      (sections : ℕ) (p : Phase) (f : Firmware)
      → rank p ≤ sections
      → (run_event sections p f).0 ≡ outside
  unfolding run_event
  run_event_ends zero p f h = rank_zero p (omega (arith, h))
  run_event_ends (suc sections) p f h =
      let (p', f') = execute_timer_event interpret p f in
      run_event_ends sections p' f' (omega (arith, h, rank_drops p f))

  run_event-loader :
      (sections : ℕ) (p : Phase) (f : Firmware)
      → ((run_event sections p f).1).device.loader ≡ f.device.loader
  unfolding run_event
  run_event-loader zero p f = refl
  run_event-loader (suc sections) p f =
      let (p', f') = execute_timer_event interpret p f in
      run_event-loader sections p' f' ∙ event-loader interpret p f

  run_taken-loader :
      (event : Option TimerEvent) (f : Firmware)
      → (run_taken event f).device.loader ≡ f.device.loader
  run_taken-loader none f = refl
  run_taken-loader (some event) f = run_event-loader 5 (taken event) f

  -- What a run of the program for an event leaves.
  abbrev pub ran : BpfProgramMetadata → TimerEvent → Firmware → Firmware
  ran metadata event f =
      let (result, backing', timer') =
        interpret metadata (timer_context event) true f.device.map_backing f.timer in
      record f {
        device = record (f.device) { map_backing = backing' };
        timer = timer';
        active = false;
      }

  run_taken-ran :
      (event : TimerEvent) (f : Firmware) {metadata : BpfProgramMetadata}
      → f.active ≡ false
      → f.timer.generation ≡ event.generation
      → event_execution_metadata f.device.loader ≡ ok metadata
      → run_taken (some event) f ≡ ran metadata event f
  unfolding run_event execute_timer_event execute_loaded_bpf
  run_taken-ran event f free same e =
      let tested : (f.timer.generation == event.generation) ≡ true =
        (==_iff f.timer.generation event.generation).1 same in
      ground (arith, free, tested, e)

  module _ {ℓ} {S : Type ℓ} (flash : BpfFlash S) where
    -- The flash work, the poll and the timer event.
    unfoldable pub main_work : ℕ → Firmware → S → Firmware × S
    main_work now f s =
        let (f₁, s') = flash_work flash f s in
        let (event, f₂) = take_timer (poll now f₁) in (run_taken event f₂, s')

  module _ {ℓ κ} {S : Type ℓ} {B : Type κ} (flash : BpfFlash S) (star2 : B → B × ℕ) where
    -- `none` is `system_reset`.
    unfoldable pub main_round : ℕ → Firmware → S → B → Option (Firmware × S × B)
    main_round now f s b =
        if f.reset_pending
        then none
        else if has_pending f.device.loader
        then (let (b', quiet) = wait_for_i2c_bus_idle star2 b in
            let (f', s') = main_work flash now f s in
            some (if quiet then (f', s', b') else (f, s, b')))
        else let (f', s') = main_work flash now f s in some (f', s', b)
