-- ===== src/Firmware/Events.antt =====
-- Packets and timer events of firmware/optibridge/src/main.rs: `on_i2c_packet`, which runs in an
-- interrupt, and the work of the main loop, cut into the critical sections between which an
-- interrupt may fall. The interpreter of the crate sonde_bpf, for the bytes of the program that are
-- then in flash and the clock of the run, is the parameter `interpret`, of which every run may have
-- another: it is given the metadata, the context, whether that is read-only, the backing store and
-- the timer, which its helpers change. It stands for runs that return; a run that does not is one
-- after which the loop takes no further step.
pub mod Interleaving
pub mod Steps
pub mod Settled
pub mod Rounds
pub mod Boots
use opti_bridge.Prelude.{
  ℕ, ◌/◌, ◌%◌, ◌^◌, Bool, true, false, not, ◌&&◌, Option, none, some, List, [], ◌∷◌, ◌++◌, take,
  replicate, Result, ok, err, ◌==◌, if◌then◌else◌, to_le32, min,
}
use opti_bridge.Protocol.{cmd_reset, status_busy, status_bad_command}
use opti_bridge.Frame.{Request, parse_packet}
use opti_bridge.Loader.{BpfLoader, BpfProgramMetadata, BpfFlash, event_execution_metadata}
use opti_bridge.Loader.Image.{execute_pending}
use opti_bridge.Dispatch.{
  Device, PacketOutcome, response, empty, reset, status_response, dispatch_with_bpf_and_executor,
}
use opti_bridge.Firmware.Timer.{
  TimerState, TimerEvent, poll_timer, take_ready_timer, restore_ready_timer,
}

-- `PROTOCOL_STATE` and `MAP_BACKING_STORE`, `BPF_EXECUTION_ACTIVE`, `TIMER_STATE`, `RESET_PENDING`.
pub record Firmware : Type 0 where
  pub device : Device
  pub active : Bool
  pub timer : TimerState
  pub reset_pending : Bool

-- The critical sections on `BPF_EXECUTION_ACTIVE`: whether it was claimed, and the flag then.
abbrev pub try_claim_bpf_execution : Bool → Bool × Bool
try_claim_bpf_execution active = if active then (false, active) else (true, true)

abbrev pub release_bpf_execution : Bool → Bool
release_bpf_execution active = false

abbrev pub Interpreter : Type 0
Interpreter =
    BpfProgramMetadata → List ℕ → Bool → List ℕ → TimerState → Option ℕ × List ℕ × TimerState

abbrev or_bad_command : Option ℕ → Result ℕ ℕ
or_bad_command none = err status_bad_command
or_bad_command (some value) = ok value

-- The packet queued for transmission, if any.
unfoldable pub transmit : PacketOutcome × Firmware → Firmware × Option (List ℕ)
transmit (response n, f) = (f, some (take n f.device.output))
transmit (empty, f) = (f, some [])
transmit (reset, f) = (record f { reset_pending = true }, none)

-- `to_le_bytes` of a 64-bit word.
abbrev to_le64 : ℕ → List ℕ
to_le64 n = to_le32 (n % 2 ^ 32) ++ to_le32 (n / 2 ^ 32 % 2 ^ 32)

abbrev pub timer_context : TimerEvent → List ℕ
timer_context event = to_le32 1 ++ to_le32 1 ++ to_le64 event.cookie ++ replicate 16 0

-- Where `execute_timer_event` stands, or `outside` of it. The flag is held from `claimed` on.
pub data Phase : Type 0 where
  outside leaving : Phase
  taken unclaimed claimed current : TimerEvent → Phase
  loaded : TimerEvent → BpfProgramMetadata → Phase

abbrev busy_answer : Request → Firmware → PacketOutcome × Firmware
busy_answer request f =
    let (outcome, output') = status_response status_busy request.sequence f.device.output in
    (outcome, record f { device = record (f.device) { output = output' } })

module _ (interpret : Interpreter) where
  unfoldable pub execute_loaded_bpf :
      BpfProgramMetadata → List ℕ → Bool → List ℕ → TimerState → Result ℕ ℕ × List ℕ × TimerState
  execute_loaded_bpf metadata context read_only backing timer =
      let (result, backing', timer') = interpret metadata context read_only backing timer in
      (or_bad_command result, backing', timer')

  -- The closure that Start is given, on the execution flag and the timer.
  unfoldable pub executor :
      BpfProgramMetadata → List ℕ → Bool × TimerState → Result ℕ ℕ × List ℕ × (Bool × TimerState)
  executor metadata backing (active, timer) =
      let (is_claimed, active') = try_claim_bpf_execution active in
      let (result, backing', timer') = execute_loaded_bpf metadata [] false backing timer in
      if is_claimed
      then (result, backing', (release_bpf_execution active', timer'))
      else (err status_busy, backing, (active', timer))

  abbrev dispatched :
      Firmware
      → Option (PacketOutcome × Device × (Bool × TimerState))
      → Option (PacketOutcome × Firmware)
  dispatched f none = none
  dispatched f (some (outcome, d, (active, timer))) =
      some (outcome, record f { device = d; active = active; timer = timer })

  -- `none` is a panic.
  unfoldable pub respond_to : Option Request → Firmware → Option (PacketOutcome × Firmware)
  respond_to none f = some (empty, f)
  respond_to (some request) f =
      if f.active && not (request.command == cmd_reset)
      then some (busy_answer request f)
      else dispatched f
          (dispatch_with_bpf_and_executor executor request f.device (f.active, f.timer))

  unfoldable pub on_i2c_packet : List ℕ → Bool → Firmware → Option (Firmware × Option (List ℕ))
  on_i2c_packet packet truncated f = elim (respond_to (parse_packet packet truncated) f) [
    | none ↦ none
    | some answered ↦ some (transmit answered)
  ]

  -- The next critical section of `execute_timer_event`, or the run of the program.
  unfoldable pub execute_timer_event : Phase → Firmware → Phase × Firmware
  execute_timer_event outside f = (outside, f)
  execute_timer_event (taken event) f =
      let (is_claimed, active') = try_claim_bpf_execution f.active in
      if is_claimed then (claimed event, record f { active = active' }) else (unclaimed event, f)
  execute_timer_event (unclaimed event) f =
      (outside, record f { timer = restore_ready_timer event f.timer })
  execute_timer_event (claimed event) f =
      if f.timer.generation == event.generation then (current event, f) else (leaving, f)
  execute_timer_event (current event) f = elim (event_execution_metadata f.device.loader) [
    | err status ↦ (leaving, f)
    | ok metadata ↦ (loaded event metadata, f)
  ]
  execute_timer_event (loaded event metadata) f =
      let (result, backing', timer') =
        execute_loaded_bpf metadata (timer_context event) true f.device.map_backing f.timer in
      (leaving, record f { device = record (f.device) { map_backing = backing' }; timer = timer' })
  execute_timer_event leaving f = (outside, record f { active = release_bpf_execution f.active })

-- One round of the main loop's other work.
module _ {ℓ} {S : Type ℓ} (flash : BpfFlash S) where
  abbrev pub flash_work : Firmware → S → Firmware × S
  flash_work f s =
      let (loader', s') = execute_pending flash f.device.loader s in
      (record f { device = record (f.device) { loader = loader' } }, s')

abbrev pub poll : ℕ → Firmware → Firmware
poll now f = record f { timer = poll_timer now f.timer }

abbrev pub take_timer : Firmware → Option TimerEvent × Firmware
take_timer f =
    let (event, timer') = take_ready_timer f.timer in (event, record f { timer = timer' })
