-- ===== src/Firmware/Events/Boots.antt =====
-- The target of firmware/optibridge/src/main.rs from power-on: `main` up to the loop, and what then
-- holds through every interleaving of packets with the loop.
use opti_bridge.Prelude.{
  ℕ, ◌≡◌, refl, sym, subst, inl, inr, Bool, true, false, not, ◌&&◌, Option, none, some, List, [],
  length, length-replicate, replicate, ◌==◌, Option-cases, Bool-cases, Result-cases, arith,
}
use opti_bridge.Protocol.{bpf_max_map_bytes, max_frame, cmd_reset, status_busy}
use opti_bridge.Frame.{Request, IsRequest, parse_packet}
use opti_bridge.Frame.Packet.Grammar.{parse_packet-IsRequest}
use opti_bridge.Loader.{BpfFlash, BpfLoader, BpfProgramMetadata, event_execution_metadata}
use opti_bridge.Loader.Image.{validate_committed}
use opti_bridge.Loader.Image.Invariant.Storage.{
  execute_pending-IsLoader, validate_committed-IsLoader,
}
use opti_bridge.Dispatch.{
  PacketOutcome, response, empty, reset, ready, status_response, dispatch_with_bpf_and_executor,
}
use opti_bridge.Dispatch.Safety.{IsDevice, respond-Reply}
use opti_bridge.Dispatch.Safety.Serving.{Served, dispatch-Served}
use opti_bridge.Firmware.Timer.{TimerState, TimerEvent}
use opti_bridge.Firmware.Events.{
  Firmware, Interpreter, Phase, outside, leaving, taken, unclaimed, claimed, current, loaded,
  execute_loaded_bpf, executor, respond_to, transmit, on_i2c_packet, execute_timer_event,
  timer_context,
}
use opti_bridge.Firmware.Events.Steps.{Step, packet, works, polls, takes, advances}

-- The state in which `main` enters its loop. The output buffer is zeros.
unfoldable pub boot {ℓ} : {S : Type ℓ} → BpfFlash S → S → Firmware × S
boot flash s =
    let (loader, s') = validate_committed flash opti_bridge.Loader.new s in
    (
      record {
        device = record {
          status_queue = ready;
          loader = loader;
          map_backing = replicate bpf_max_map_bytes 0;
          output = replicate max_frame 0;
        };
        active = false;
        timer = opti_bridge.Firmware.Timer.new;
        reset_pending = false;
      },
      s',
    )

-- A run of a program keeps the size of the backing store, which it is lent as a slice.
abbrev pub KeepsSize : Interpreter → Type 0
KeepsSize interpret =
    (metadata : BpfProgramMetadata) (context : List ℕ) (read_only : Bool) (backing : List ℕ)
    (timer : TimerState)
    → length backing ≡ bpf_max_map_bytes
    → length (interpret metadata context read_only backing timer).1 ≡ bpf_max_map_bytes

module _ {ℓ} {S : Type ℓ} {K : Type 0} (interpret : K → Interpreter) (flash : BpfFlash S)
    (keeps : (k : K) → KeepsSize (interpret k)) where
  boot-IsDevice : (s : S) → IsDevice ((boot flash s).0).device
  unfolding boot
  boot-IsDevice s = record {
    queue = record { newest_full = refl; newest_bound = omega arith };
    loader = validate_committed-IsLoader flash opti_bridge.Loader.new s refl;
    backing_full = length-replicate {A = ℕ} bpf_max_map_bytes 0;
    output_full = refl;
  }

  executor_full :
      (k : K) (metadata : BpfProgramMetadata) (backing : List ℕ) (env : Bool × TimerState)
      → length backing ≡ bpf_max_map_bytes
      → length (executor (interpret k) metadata backing env).1 ≡ bpf_max_map_bytes
  unfolding executor execute_loaded_bpf
  executor_full k metadata backing (true, timer) h = h
  executor_full k metadata backing (false, timer) h = keeps k metadata [] false backing timer h

  abbrev IsServed : Option (PacketOutcome × Firmware) → Type 0
  IsServed none = ⊥
  IsServed (some (outcome, f)) = IsDevice (f.device)

  respond_to-IsServed :
      (k : K) (request : Option Request) (f : Firmware)
      → ((r : Request) → request ≡ some r → IsRequest r)
      → IsDevice (f.device)
      → IsServed (respond_to (interpret k) request f)
  unfolding respond_to status_response
  respond_to-IsServed k none f shaped v = v
  respond_to-IsServed k (some request) f shaped v =
      elim (Bool-cases (f.active && not (request.command == cmd_reset))) [
        | inl busy ↦
            let kept =
              (respond-Reply status_busy request.sequence [] (f.device.output) (omega arith)
                v.output_full).1 in
            rw (busy, respond_to)
              record {
                queue = v.queue;
                loader = v.loader;
                backing_full = v.backing_full;
                output_full = kept;
              }
        | inr free ↦
            let served =
              dispatch-Served (executor (interpret k)) (executor_full k) request f.device
                (f.active, f.timer) (shaped request refl) v in
            elim (Option-cases (
              dispatch_with_bpf_and_executor (executor (interpret k)) request f.device
                (f.active, f.timer))) [
                  | inl e ↦ absurd (subst (Served request) e served)
                  | inr ((outcome, d, env), e) ↦
                      rw (free, e, respond_to) (subst (Served request) e served).1
                ]
      ]

  transmit-device :
      (outcome : PacketOutcome) (f : Firmware) → ((transmit (outcome, f)).0).device ≡ f.device
  unfolding transmit
  transmit-device (response n) f = refl
  transmit-device empty f = refl
  transmit-device reset f = refl

  -- A packet of any bytes is served on a device in order, without a panic.
  packet-IsDevice :
      (k : K) (bytes : List ℕ) (truncated : Bool) (f : Firmware)
      → IsDevice (f.device)
      → (g : Firmware) × (sent : Option (List ℕ)) × (on_i2c_packet (interpret k) bytes truncated f
          ≡ some (g, sent))
        × IsDevice (g.device)
  unfolding on_i2c_packet
  packet-IsDevice k bytes truncated f v =
      let request = parse_packet bytes truncated in
      let served =
        respond_to-IsServed k request f (λ r e. parse_packet-IsRequest bytes truncated e) v in
      elim (Option-cases (respond_to (interpret k) request f)) [
        | inl e ↦ absurd (subst IsServed e served)
        | inr ((outcome, f'), e) ↦
            let kept : IsDevice (f'.device) = subst IsServed e served in
            (
              (transmit (outcome, f')).0,
              (transmit (outcome, f')).1,
              rw (e, on_i2c_packet) refl,
              subst IsDevice (sym (transmit-device outcome f')) kept,
            )
      ]

  advance-IsDevice :
      (k : K) (p : Phase) (f : Firmware)
      → IsDevice (f.device)
      → IsDevice ((execute_timer_event (interpret k) p f).1).device
  unfolding execute_timer_event execute_loaded_bpf
  advance-IsDevice k outside f v = v
  advance-IsDevice k (taken event) f v = elim (Bool-cases f.active) [
    | inl held ↦ rw (held, execute_timer_event) v
    | inr free ↦ rw (free, execute_timer_event) v
  ]
  advance-IsDevice k (unclaimed event) f v = v
  advance-IsDevice k (claimed event) f v =
      elim (Bool-cases (f.timer.generation == event.generation)) [
        | inl same ↦ rw (same, execute_timer_event) v
        | inr stale ↦ rw (stale, execute_timer_event) v
      ]
  advance-IsDevice k (current event) f v =
      elim (Result-cases (event_execution_metadata f.device.loader)) [
        | inl (metadata, e) ↦ rw (e, execute_timer_event) v
        | inr (status, e) ↦ rw (e, execute_timer_event) v
      ]
  advance-IsDevice k (loaded event metadata) f v = record {
    queue = v.queue;
    loader = v.loader;
    backing_full =
        keeps k metadata (timer_context event) true f.device.map_backing f.timer v.backing_full;
    output_full = v.output_full;
  }
  advance-IsDevice k leaving f v = v

  Step-IsDevice :
      {p : Phase} {f : Firmware} {s : S} {q : Phase} {g : Firmware} {t : S}
      → Step interpret flash p f s q g t
      → IsDevice (f.device)
      → IsDevice (g.device)
  Step-IsDevice (packet {p} {f} {g} k bytes truncated h) v =
      let (g', sent, e, kept) = packet-IsDevice k bytes truncated f v in
      let same : g' ≡ g = cc (e, h) in subst (λ x. IsDevice (x.device)) same kept
  Step-IsDevice (works {f} {s}) v = record {
    queue = v.queue;
    loader = execute_pending-IsLoader flash f.device.loader s v.loader;
    backing_full = v.backing_full;
    output_full = v.output_full;
  }
  Step-IsDevice (polls now) v = v
  Step-IsDevice (takes e) v = v
  Step-IsDevice (advances {p} {f} k) v = advance-IsDevice k p f v

  -- What comes after power-on with a flash: packets, and the steps of the main loop.
  pub data PoweredOn (s₀ : S) : Phase → Firmware → S → Type ℓ where
    enters : PoweredOn s₀ outside (boot flash s₀).0 (boot flash s₀).1
    goes :
        {p : Phase} {f : Firmware} {s : S} {q : Phase} {g : Firmware} {t : S}
        → PoweredOn s₀ p f s
        → Step interpret flash p f s q g t
        → PoweredOn s₀ q g t

  PoweredOn-IsDevice :
      {s₀ : S} {p : Phase} {f : Firmware} {s : S} → PoweredOn s₀ p f s → IsDevice (f.device)
  PoweredOn-IsDevice {s₀} enters = boot-IsDevice s₀
  PoweredOn-IsDevice (goes before step) = Step-IsDevice step (PoweredOn-IsDevice before)

  -- From power-on with any content of the flash, through any packets and steps of the main loop, the
  -- device stays in order; and a packet of any bytes, at any point, is handled without a panic and
  -- leaves it in order. Runs of a program are assumed to keep the size of the backing store.
  pub PoweredOn-serves :
      {s₀ : S} {p : Phase} {f : Firmware} {s : S} (k : K) (bytes : List ℕ) (truncated : Bool)
      → PoweredOn s₀ p f s
      → IsDevice (f.device)
        × ((g : Firmware) × (sent : Option (List ℕ)) × (on_i2c_packet
                (interpret k)
                bytes
                truncated
                f
              ≡ some (g, sent))
            × IsDevice (g.device))
  PoweredOn-serves {f} k bytes truncated h =
      let v = PoweredOn-IsDevice h in (v, packet-IsDevice k bytes truncated f v)
