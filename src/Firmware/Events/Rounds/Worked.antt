-- ===== src/Firmware/Events/Rounds/Worked.antt =====
-- What a round of the main loop of firmware/optibridge/src/main.rs leaves, in the interleaving of the
-- loop with packets.
use opti_bridge.Prelude.{
  ℕ, zero, suc, ◌≡◌, refl, ap, subst, inl, inr, true, false, none, some, ok, sym, ◌∙◌, ◌⊎◌,
  Option-cases, Bool-cases, arith,
}
use opti_bridge.Loader.{
  BpfFlash, BpfProgramMetadata, is_pending, has_pending, event_execution_metadata,
}
use opti_bridge.Firmware.Timer.{TimerEvent, take_ready_timer}
use opti_bridge.Firmware.Events.{
  Firmware, Interpreter, Phase, outside, taken, execute_timer_event, flash_work, poll, take_timer,
}
use opti_bridge.Loader.Image.{execute_pending}
use opti_bridge.Firmware.Events.Settled.{execute_pending-pending}
use opti_bridge.Firmware.Events.Steps.{
  works, polls, takes, advances, Reached, after, Reached-InOrder,
}
use opti_bridge.Firmware.Events.Rounds.{
  wait_for_i2c_bus_idle, run_event, run_taken, run_event_ends, run_taken-loader, ran, run_taken-ran,
  main_work, main_round,
}

no_event : (f : Firmware) → (take_timer f).0 ≡ none → f ≡ (take_timer f).1
unfolding take_ready_timer
no_event f none_due = ap (λ r. record f { timer = record (f.timer) { ready = r } }) none_due

-- A round from a state that steps reach.
module _ {ℓ} {S : Type ℓ} {K : Type 0} (interpret : K → Interpreter) (flash : BpfFlash S)
    (f₀ : Firmware) (s₀ : S) where
  run_event-Reached :
      (k : K) (sections : ℕ) (p : Phase) (f : Firmware) (s : S)
      → Reached interpret flash f₀ s₀ p f s
      → let (q, g) = run_event (interpret k) sections p f in Reached interpret flash f₀ s₀ q g s
  unfolding run_event
  run_event-Reached k zero p f s h = h
  run_event-Reached k (suc sections) p f s h =
      let (p', f') = execute_timer_event (interpret k) p f in
      run_event-Reached k sections p' f' s (after h (advances k))

  run_taken-Reached :
      (k : K) (f : Firmware) (s : S)
      → Reached interpret flash f₀ s₀ outside f s
      → let (event, g) = take_timer f in
        Reached interpret flash f₀ s₀ outside (run_taken (interpret k) event g) s
  run_taken-Reached k f s h = elim (Option-cases (take_timer f).0) [
    | inl none_due ↦
        rw none_due (subst (λ g. Reached interpret flash f₀ s₀ outside g s) (no_event f none_due) h)
    | inr (event, due) ↦
        let (q, g) = run_event (interpret k) 5 (taken event) (take_timer f).1 in
        let ends : q ≡ outside =
          run_event_ends (interpret k) 5 (taken event) (take_timer f).1 (omega arith) in
        rw due (
          subst (λ q. Reached interpret flash f₀ s₀ q g s) ends
            (run_event-Reached k 5 (taken event) (take_timer f).1 s (after h (takes due))))
  ]

  main_work-Reached :
      (k : K) (now : ℕ) (f : Firmware) (s : S)
      → Reached interpret flash f₀ s₀ outside f s
      → let (g, s') = main_work (interpret k) flash now f s in
        Reached interpret flash f₀ s₀ outside g s'
  unfolding main_work
  main_work-Reached k now f s h = run_taken-Reached k _ _ (after (after h works) (polls now))

  -- What the work of a round leaves: a state that steps reach, with the flag free; the loader that
  -- the flash work gives, with nothing pending; and for a due event of the current generation, when
  -- the loader has a program, what one run of it gives.
  pub record IsWorked (k : K) (now : ℕ) (f : Firmware) (s : S) (g : Firmware) (s' : S)
      : Type ℓ where
    pub reached : Reached interpret flash f₀ s₀ outside g s'
    pub flag : g.active ≡ false
    pub flash_done : s' ≡ (execute_pending flash f.device.loader s).1
    pub loader_done : g.device.loader ≡ (execute_pending flash f.device.loader s).0
    pub nothing_pending : has_pending g.device.loader ≡ false
    pub no_run :
        (take_timer (poll now (flash_work flash f s).0)).0 ≡ none
        → g ≡ poll now (flash_work flash f s).0
    pub one_run :
        (event : TimerEvent) (metadata : BpfProgramMetadata)
        → let (due, f') = take_timer (poll now (flash_work flash f s).0) in
          due ≡ some event
          → f'.timer.generation ≡ event.generation
          → event_execution_metadata f'.device.loader ≡ ok metadata
          → g ≡ ran (interpret k) metadata event f'

  main_work-IsWorked :
      (k : K) (now : ℕ) (f : Firmware) (s : S)
      → f₀.active ≡ false
      → Reached interpret flash f₀ s₀ outside f s
      → let (g, s') = main_work (interpret k) flash now f s in IsWorked k now f s g s'
  unfolding main_work
  main_work-IsWorked k now f s free h =
      let f₁ = poll now (flash_work flash f s).0 in
      let (event, f₂) = take_timer f₁ in
      let worked = main_work-Reached k now f s h in
      let kept = run_taken-loader (interpret k) event f₂ in
      let before = (Reached-InOrder interpret flash free h).flag in
      record {
        reached = worked;
        flag = (Reached-InOrder interpret flash free worked).flag;
        flash_done = refl;
        loader_done = kept;
        nothing_pending =
            ap is_pending
              (ap (λ l. l.pending) kept ∙ execute_pending-pending flash f.device.loader s);
        no_run = λ none_due. rw none_due (sym (no_event f₁ none_due));
        one_run =
            λ ev metadata due same e. rw due (run_taken-ran (interpret k) ev f₂ before same e);
      }

  -- A round of the main loop, with no packet within it, from a state that steps reach from one where
  -- the flag is free, unless the device is reset. It changes nothing when an operation is pending and
  -- the bus did not become idle. Else the flash and the loader are what `execute_pending` makes of
  -- them, with nothing pending; the program runs once for a due event of the current generation if
  -- the loader then has a program, and not at all if no event is due; and the round ends between two
  -- events in a state that steps reach, with the flag free. Runs of the program are assumed to
  -- return.
  pub main_round-IsWorked {κ} :
      {B : Type κ} (star2 : B → B × ℕ) (k : K) (now : ℕ) (f : Firmware) (s : S) (b : B)
      → f₀.active ≡ false
      → Reached interpret flash f₀ s₀ outside f s
      → f.reset_pending ≡ false
      → let (b', quiet) = wait_for_i2c_bus_idle star2 b in
        let round = main_round (interpret k) flash star2 now f s b in
        ((has_pending f.device.loader ≡ true) × (quiet ≡ false) × (round ≡ some (f, s, b')))
        ⊎ (((has_pending f.device.loader ≡ false) ⊎ (quiet ≡ true))
            × ((g : Firmware) × (s' : S) × (bus : B) × (round ≡ some (g, s', bus))
                × IsWorked k now f s g s'))
  unfolding main_round
  main_round-IsWorked star2 k now f s b free h stays =
      let (g, s') = main_work (interpret k) flash now f s in
      let worked = main_work-IsWorked k now f s free h in
      let (b', quiet) = wait_for_i2c_bus_idle star2 b in
      elim (Bool-cases (has_pending f.device.loader)) [
        | inr nothing ↦ inr (inl nothing, (g, s', b, rw (stays, nothing, main_round) refl, worked))
        | inl pending ↦ elim (Bool-cases quiet) [
          | inl idle ↦
              inr (inr idle, (g, s', b', rw (stays, pending, idle, main_round) refl, worked))
          | inr busy ↦ inl (pending, busy, rw (stays, pending, busy, main_round) refl)
        ]
      ]
