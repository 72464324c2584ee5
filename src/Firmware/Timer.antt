-- ===== src/Firmware/Timer.antt =====
-- The one-shot timer of firmware/optibridge/src/main.rs: `TimerState` and the functions on it, each
-- of which runs in one critical section. `Instant::now()` is the argument `now`, an instant as the
-- tick count of the time driver; `Duration::from_millis` is the parameter `from_millis`.
pub mod Events
use opti_bridge.Prelude.{
  ℕ, ◌+◌, ◌-◌, ◌%◌, ◌^◌, Bool, Option, none, some, u32, ltb, leb, ◌==◌, ◌&&◌, if◌then◌else◌, true,
  false, min,
}

pub record TimerRequest : Type 0 where
  pub generation : ℕ
  pub deadline : ℕ
  pub cookie : ℕ

pub record TimerEvent : Type 0 where
  pub generation : ℕ
  pub cookie : ℕ

pub record TimerState : Type 0 where
  pub generation : ℕ
  pub pending : Option TimerRequest
  pub ready : Option TimerEvent

abbrev pub new : TimerState
new = record { generation = 0; pending = none; ready = none }

-- `HELPER_ERROR` is `u64::MAX`.
abbrev pub helper_error : ℕ
helper_error = 0xffff_ffff_ffff_ffff

-- `state.generation.wrapping_add(1)`, with 0 left out.
abbrev pub following : ℕ → ℕ
following generation = let next = u32 (generation + 1) in if next == 0 then 1 else next

abbrev pub next_timer_generation : TimerState → TimerState × ℕ
next_timer_generation s =
    let generation = following s.generation in (record s { generation = generation }, generation)

unfoldable pub bpf_cancel_timer : TimerState → ℕ × TimerState
bpf_cancel_timer s =
    let (s', generation) = next_timer_generation s in
    (0, record s' { pending = none; ready = none })

abbrev expire : ℕ → TimerRequest → TimerState → TimerState
expire now request s =
    if leb request.deadline now
    then record s {
      pending = none;
      ready = some (record { generation = request.generation; cookie = request.cookie });
    }
    else s

unfoldable pub poll_timer : ℕ → TimerState → TimerState
poll_timer now s = elim s.pending [ none ↦ s | some request ↦ expire now request s ]

unfoldable pub take_ready_timer : TimerState → Option TimerEvent × TimerState
take_ready_timer s = (s.ready, record s { ready = none })

abbrev is_none {ℓ} : {A : Type ℓ} → Option A → Bool
is_none none = true
is_none (some a) = false

unfoldable pub restore_ready_timer : TimerEvent → TimerState → TimerState
restore_ready_timer event s =
    if s.generation == event.generation && is_none s.ready
    then record s { ready = some event }
    else s

module _ (from_millis : ℕ → ℕ) where
  unfoldable pub bpf_schedule_timer : ℕ → ℕ → ℕ → TimerState → ℕ × TimerState
  bpf_schedule_timer now delay_ms cookie s =
      if ltb 0xffff_ffff delay_ms
      then (helper_error, s)
      else let (s', generation) = next_timer_generation s in
        let request : TimerRequest = record {
          generation = generation;
          deadline = now + from_millis delay_ms;
          cookie = cookie;
        } in
        (0, record s' { pending = some request; ready = none })

  unfoldable pub wait_for_timer_or_work : ℕ → TimerState → ℕ
  wait_for_timer_or_work now s = elim s.pending [
    | none ↦ from_millis 1
    | some request ↦
        if leb request.deadline now
        then from_millis 0
        else min (request.deadline - now) (from_millis 1)
  ]
