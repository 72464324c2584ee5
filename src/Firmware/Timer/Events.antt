-- ===== src/Firmware/Timer/Events.antt =====
-- The states of the timer, and sequences of the operations on it.
use opti_bridge.Prelude.{
  inl, inr, ℕ, ◌+◌, ◌^◌, ◌≤◌, ◌<◌, ◌≡◌, ◌≢◌, sym, ap, ◌∙◌, none, some, arith, ltb, leb,
  if◌then◌else◌, Bool-cases, if_rule, List, [], ◌∷◌,
}
use opti_bridge.Firmware.Timer.{
  TimerRequest, TimerEvent, TimerState, new, following, bpf_cancel_timer, poll_timer,
  take_ready_timer, restore_ready_timer, bpf_schedule_timer, wait_for_timer_or_work,
}

-- The request or event that the state holds, if any, is of the current generation; only one of the
-- two is held; and generation 0 is that of the new state alone.
pub data IsTimer : TimerState → Type 0 where
  idle : {g : ℕ} → g < 2 ^ 32 → IsTimer (record { generation = g; pending = none; ready = none })
  waiting :
      {g : ℕ} (deadline cookie : ℕ)
      → g < 2 ^ 32
      → 0 < g
      → IsTimer (record {
        generation = g;
        pending = some (record { generation = g; deadline = deadline; cookie = cookie });
        ready = none;
      })
  due :
      {g : ℕ} (cookie : ℕ)
      → g < 2 ^ 32
      → 0 < g
      → IsTimer (record {
        generation = g;
        pending = none;
        ready = some (record { generation = g; cookie = cookie });
      })

new-IsTimer : IsTimer new
new-IsTimer = idle (omega arith)

following-lt : (g : ℕ) → following g < 2 ^ 32
following-lt g = ground arith

following-pos : (g : ℕ) → 0 < following g
following-pos g = ground arith

-- A new generation differs from the one before.
following_fresh : (g : ℕ) → g < 2 ^ 32 → following g ≢ g
following_fresh g h = ground arith

-- The operations between which the state is unlocked; a timer that is taken is not put back here.
pub data TimerOperation : Type 0 where
  schedule : (now delay_ms cookie : ℕ) → TimerOperation
  cancel take : TimerOperation
  poll : (now : ℕ) → TimerOperation

cancel-IsTimer : (s : TimerState) → IsTimer ((bpf_cancel_timer s).1)
unfolding bpf_cancel_timer
cancel-IsTimer s = idle (following-lt s.generation)

poll-IsTimer : (now : ℕ) (s : TimerState) → IsTimer s → IsTimer (poll_timer now s)
unfolding poll_timer
poll-IsTimer now _ (idle small) = idle small
poll-IsTimer now _ (waiting deadline cookie small positive) =
    if_rule IsTimer (leb deadline now) (λ _. due cookie small positive)
      (λ _. waiting deadline cookie small positive)
poll-IsTimer now _ (due cookie small positive) = due cookie small positive

take-IsTimer : (s : TimerState) → IsTimer s → IsTimer ((take_ready_timer s).1)
unfolding take_ready_timer
take-IsTimer _ (idle small) = idle small
take-IsTimer _ (waiting deadline cookie small positive) = waiting deadline cookie small positive
take-IsTimer _ (due cookie small positive) = idle small

-- An event of an earlier generation is not put back once a program has scheduled or cancelled.
pub restore_stale :
    (event : TimerEvent) (s : TimerState)
    → s.generation ≢ event.generation
    → restore_ready_timer event s ≡ s
unfolding restore_ready_timer
restore_stale event s stale = ground arith

-- From such a state, an event that is taken and put back at once leaves the state as it was.
restore-take :
    (s : TimerState) (event : TimerEvent)
    → IsTimer s
    → s.ready ≡ some event
    → restore_ready_timer event ((take_ready_timer s).1) ≡ s
unfolding take_ready_timer restore_ready_timer
restore-take _ event (due {g} cookie small positive) e =
    let own : (ev : TimerEvent)
        → ev.generation ≡ g
        → restore_ready_timer ev (record { generation = g; pending = none; ready = none })
          ≡ record { generation = g; pending = none; ready = some ev } =
      λ ev same. ground (arith, same) in
    own event (ground (arith, e))
    ∙ ap (λ o. record { generation = g; pending = none; ready = o }) (sym e)
restore-take _ event (idle small) e = ground arith
restore-take _ event (waiting d c small positive) e = ground arith

module _ (from_millis : ℕ → ℕ) where
  schedule-IsTimer :
      (now delay_ms cookie : ℕ) (s : TimerState)
      → IsTimer s
      → IsTimer ((bpf_schedule_timer from_millis now delay_ms cookie s).1)
  unfolding bpf_schedule_timer
  schedule-IsTimer now delay_ms cookie s h =
      if_rule {A = ℕ × TimerState} (λ answer. IsTimer (answer.1)) (ltb 0xffff_ffff delay_ms)
        (λ _. h)
        (λ _.
          waiting (now + from_millis delay_ms) cookie (following-lt s.generation)
            (following-pos s.generation))

  pub run : TimerOperation → TimerState → TimerState
  run (schedule now delay_ms cookie) s = (bpf_schedule_timer from_millis now delay_ms cookie s).1
  run cancel s = (bpf_cancel_timer s).1
  run take s = (take_ready_timer s).1
  run (poll now) s = poll_timer now s

  run-IsTimer : (o : TimerOperation) (s : TimerState) → IsTimer s → IsTimer (run o s)
  unfolding run
  run-IsTimer (schedule now delay_ms cookie) s h = schedule-IsTimer now delay_ms cookie s h
  run-IsTimer cancel s h = cancel-IsTimer s
  run-IsTimer take s h = take-IsTimer s h
  run-IsTimer (poll now) s h = poll-IsTimer now s h

  pub run_all : List TimerOperation → TimerState → TimerState
  run_all [] s = s
  run_all (o ∷ os) s = run_all os (run o s)

  -- From a timer state in which at most one of a pending request and a ready event exists, of the
  -- current generation, which is then not 0, every sequence of schedules, cancellations, polls and
  -- takes leads to such a state.
  pub run_all-IsTimer :
      (os : List TimerOperation) (s : TimerState) → IsTimer s → IsTimer (run_all os s)
  unfolding run_all
  run_all-IsTimer [] s h = h
  run_all-IsTimer (o ∷ os) s h = run_all-IsTimer os (run o s) (run-IsTimer o s h)

  -- A timer scheduled by at most 2 ^ 32 - 1 milliseconds, from a state whose generation is a 32-bit
  -- word, is accepted; a poll makes its event ready exactly from the deadline on, with its cookie and
  -- a generation that is a nonzero 32-bit word other than the one before; and the event is taken
  -- once.
  pub schedule_fires :
      (now later delay_ms cookie : ℕ) (s : TimerState)
      → s.generation < 2 ^ 32
      → delay_ms < 2 ^ 32
      → let (result, s') = bpf_schedule_timer from_millis now delay_ms cookie s in
        let (event, s'') = take_ready_timer (poll_timer later s') in
        (result ≡ 0)
        × ((generation : ℕ) × (0 < generation)
            × (generation < 2 ^ 32)
            × (generation ≢ s.generation)
            × (event ≡ (
                if leb (now + from_millis delay_ms) later
                then some (record { generation = generation; cookie = cookie })
                else none)))
        × ((take_ready_timer (poll_timer later s'')).0 ≡ none)
  unfolding bpf_schedule_timer poll_timer take_ready_timer
  schedule_fires now later delay_ms cookie s word small =
      let generation = following s.generation in
      let positive = following-pos s.generation in
      let bound = following-lt s.generation in
      let fresh = following_fresh s.generation word in
      elim (Bool-cases (leb (now + from_millis delay_ms) later)) [
        | inl late ↦ (
          ground (arith, late),
          (generation, positive, bound, fresh, ground (arith, late)),
          ground (arith, late),
        )
        | inr early ↦ (
          ground (arith, early),
          (generation, positive, bound, fresh, ground (arith, early)),
          ground (arith, early),
        )
      ]

  -- When no milliseconds are no ticks, the wait between two rounds of the main loop is at most a
  -- millisecond and does not pass the deadline of a pending request that is still ahead.
  wait_bounded :
      (now : ℕ) (s : TimerState)
      → from_millis 0 ≡ 0
      → (wait_for_timer_or_work from_millis now s ≤ from_millis 1)
        × ((request : TimerRequest)
            → s.pending ≡ some request
            → now ≤ request.deadline
            → now + wait_for_timer_or_work from_millis now s ≤ request.deadline)
  unfolding wait_for_timer_or_work
  wait_bounded now s zero_ms = ground arith
