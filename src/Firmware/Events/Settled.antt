-- ===== src/Firmware/Events/Settled.antt =====
-- What a round of the main loop of firmware/optibridge/src/main.rs leaves of the loader: the flash work
-- clears the pending operation, and `execute_timer_event` does not change the loader.
use opti_bridge.Prelude.{
  ◌≡◌, refl, inl, inr, none, ◌==◌, arith, Bool-cases, Option-cases, Result-cases,
}
use opti_bridge.Loader.{
  BpfLoader, BpfFlash, LoadOperation, begin_op, data_op, finalize_op, event_execution_metadata,
}
use opti_bridge.Loader.Image.{begin, program, finalize, perform, execute_pending}
use opti_bridge.Firmware.Events.{
  Firmware, Interpreter, Phase, outside, leaving, taken, unclaimed, claimed, current, loaded,
  execute_loaded_bpf, execute_timer_event,
}

module _ {ℓ} {S : Type ℓ} (flash : BpfFlash S) where
  perform-pending :
      (operation : LoadOperation) (l : BpfLoader) (s : S)
      → ((perform flash operation l s).0).pending ≡ l.pending
  unfolding begin program finalize
  perform-pending (begin_op bytecode_len map_count expected_crc) l s = ground arith
  perform-pending (data_op offset bytes len) l s = ground arith
  perform-pending finalize_op l s = ground arith

  pub execute_pending-pending :
      (l : BpfLoader) (s : S) → ((execute_pending flash l s).0).pending ≡ none
  unfolding execute_pending
  execute_pending-pending l s = elim (Option-cases l.pending) [
    | inl e ↦ rw (e, execute_pending) e
    | inr (operation, e) ↦
        rw (e, execute_pending) (perform-pending operation (record l { pending = none }) s)
  ]

pub event-loader :
    (interpret : Interpreter) (p : Phase) (f : Firmware)
    → ((execute_timer_event interpret p f).1).device.loader ≡ f.device.loader
unfolding execute_timer_event execute_loaded_bpf
event-loader interpret outside f = refl
event-loader interpret (taken event) f = elim (Bool-cases f.active) [
  | inl held ↦ rw (held, execute_timer_event) refl
  | inr free ↦ rw (free, execute_timer_event) refl
]
event-loader interpret (unclaimed event) f = refl
event-loader interpret (claimed event) f =
    elim (Bool-cases (f.timer.generation == event.generation)) [
      | inl same ↦ rw (same, execute_timer_event) refl
      | inr stale ↦ rw (stale, execute_timer_event) refl
    ]
event-loader interpret (current event) f =
    elim (Result-cases (event_execution_metadata f.device.loader)) [
      | inl (metadata, e) ↦ rw (e, execute_timer_event) refl
      | inr (status, e) ↦ rw (e, execute_timer_event) refl
    ]
event-loader interpret (loaded event metadata) f = refl
event-loader interpret leaving f = refl
