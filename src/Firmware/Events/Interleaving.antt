-- ===== src/Firmware/Events/Interleaving.antt =====
-- `on_i2c_packet` while the execution flag is set, and while it is not.
use opti_bridge.Prelude.{
  ◌≢◌, ℕ, ◌≡◌, refl, sym, ap, subst, ◌∙◌, inl, inr, Bool, true, false, Option, none, some, List,
  arith, Option-cases,
}
use native.Mathlib.Decide.{ℕ_discrete}
use opti_bridge.Protocol.{cmd_reset}
use opti_bridge.Frame.{Request, parse_packet}
use opti_bridge.Dispatch.{
  Device, PacketOutcome, response, empty, reset, dispatch, dispatch_with_bpf_and_executor, on_load,
  on_write_map, on_start, on_other, unexecuted?,
}
use opti_bridge.Dispatch.Rule.{dispatch_rule}
use opti_bridge.Firmware.Timer.{TimerState}
use opti_bridge.Firmware.Events.{
  Firmware, Interpreter, transmit, executor, respond_to, on_i2c_packet,
}

-- What a program that runs depends on.
pub record Same (f g : Firmware) : Type 0 where
  pub active : f.active ≡ g.active
  pub loader : f.device.loader ≡ g.device.loader
  pub backing : f.device.map_backing ≡ g.device.map_backing
  pub timer : f.timer ≡ g.timer

module _ (interpret : Interpreter) where
  transmit-Same :
      (outcome : PacketOutcome) (f g : Firmware) → Same f g → Same (transmit (outcome, f)).0 g
  unfolding transmit
  transmit-Same (response n) f g h = h
  transmit-Same empty f g h = h
  transmit-Same reset f g h = record {
    active = h.active;
    loader = h.loader;
    backing = h.backing;
    timer = h.timer;
  }

  -- A reset command, whatever its flags and length, touches nothing but the output.
  reset_quiet :
      (request : Request) (f : Firmware) {outcome : PacketOutcome} {g : Firmware}
      → request.command ≡ cmd_reset
      → respond_to interpret (some request) f ≡ some (outcome, g)
      → Same g f
  unfolding respond_to dispatch_with_bpf_and_executor on_other dispatch
  reset_quiet request f e h = record {
    active = ground (arith, e, h);
    loader = ground (arith, e, h);
    backing = ground (arith, e, h);
    timer = ground (arith, e, h);
  }

  -- Any other packet is answered while the flag is held with a status, and touches nothing but the
  -- output.
  locked_quiet :
      (request : Option Request) (f : Firmware) {outcome : PacketOutcome} {g : Firmware}
      → f.active ≡ true
      → respond_to interpret request f ≡ some (outcome, g)
      → Same g f
  unfolding respond_to
  locked_quiet none f held h = record {
    active = ground (arith, h);
    loader = ground (arith, h);
    backing = ground (arith, h);
    timer = ground (arith, h);
  }
  locked_quiet (some request) f held h = elim (ℕ_discrete request.command cmd_reset) [
    | yes e ↦ reset_quiet request f e h
    | no e ↦ record {
      active = ground (arith, e, held, h);
      loader = ground (arith, e, held, h);
      backing = ground (arith, e, held, h);
      timer = ground (arith, e, held, h);
    }
  ]

  -- The flag is free in what the dispatcher gives back.
  abbrev Free : Option (PacketOutcome × Device × (Bool × TimerState)) → Type 0
  Free none = Unit
  Free (some (outcome, d, env)) = env.0 ≡ false

  unexecuted?-Free :
      (env : Bool × TimerState) (o : Option (PacketOutcome × Device))
      → env.0 ≡ false
      → Free (unexecuted? env o)
  unexecuted?-Free env none h = tt
  unexecuted?-Free env (some step) h = h

  on_start-Free :
      (request : Request) (d : Device) (timer : TimerState)
      → Free (some (on_start (executor interpret) request d (false, timer)))
  unfolding on_start executor
  on_start-Free request d timer = ground arith

  dispatch-Free :
      (request : Request) (d : Device) (timer : TimerState)
      → Free (dispatch_with_bpf_and_executor (executor interpret) request d (false, timer))
  dispatch-Free request d timer =
      let env : Bool × TimerState = (false, timer) in
      dispatch_rule (executor interpret) Free request d env (λ status. refl)
        (unexecuted?-Free env (on_load request d) refl) refl
        (λ long. unexecuted?-Free env (on_write_map request d) refl) (on_start-Free request d timer)
        refl refl

  -- Without the flag held before a packet, it is not held after: an execution that the packet
  -- started has ended.
  unlocked :
      (request : Option Request) (f : Firmware) {outcome : PacketOutcome} {g : Firmware}
      → f.active ≡ false
      → respond_to interpret request f ≡ some (outcome, g)
      → g.active ≡ false
  unfolding respond_to
  unlocked none f free h = ground (arith, free, h)
  unlocked (some request) f free h =
      let lent : ◌≡◌ {A = Bool × TimerState} (f.active, f.timer) (false, f.timer) =
        ap (λ b. (b, f.timer)) free in
      let settled : Free (
          dispatch_with_bpf_and_executor (executor interpret) request f.device
            (f.active, f.timer)) =
        subst
          (λ env. Free (dispatch_with_bpf_and_executor (executor interpret) request f.device env))
          (sym lent) (dispatch-Free request f.device f.timer) in
      elim (Option-cases (
        dispatch_with_bpf_and_executor (executor interpret) request f.device (f.active, f.timer))) [
          | inl e ↦ ground (arith, e, free, h)
          | inr ((outcome', d, env), e) ↦
              let kept : env.0 ≡ false = subst Free e settled in ground (arith, e, free, h, kept)
        ]

  transmit-active :
      (outcome : PacketOutcome) (f : Firmware) → ((transmit (outcome, f)).0).active ≡ f.active
  unfolding transmit
  transmit-active (response n) f = refl
  transmit-active empty f = refl
  transmit-active reset f = refl

  answered :
      (bytes : List ℕ) (truncated : Bool) (f : Firmware) {g : Firmware} {sent : Option (List ℕ)}
      → on_i2c_packet interpret bytes truncated f ≡ some (g, sent)
      → (outcome : PacketOutcome) × (f' : Firmware) × (respond_to interpret
            (parse_packet bytes truncated)
            f
          ≡ some (outcome, f'))
        × (transmit (outcome, f') ≡ (g, sent))
  unfolding on_i2c_packet
  answered bytes truncated f h =
      elim (Option-cases (respond_to interpret (parse_packet bytes truncated) f)) [
        | inl e ↦ ground (arith, e, h)
        | inr ((outcome, f'), e) ↦ (outcome, f', e, ground (arith, e, h))
      ]

  respond_returns :
      (request : Option Request) (f : Firmware)
      → f.active ≡ true
      → respond_to interpret request f ≢ none
  unfolding respond_to dispatch_with_bpf_and_executor
  respond_returns none f held h = ground (arith, h)
  respond_returns (some request) f held h = elim (ℕ_discrete request.command cmd_reset) [
    | yes e ↦ ground (arith, e, held, h)
    | no e ↦ ground (arith, e, held, h)
  ]

  on_i2c_packet_returns :
      (bytes : List ℕ) (truncated : Bool) (f : Firmware)
      → f.active ≡ true
      → (r : Firmware × Option (List ℕ)) × (on_i2c_packet interpret bytes truncated f ≡ some r)
  unfolding on_i2c_packet
  on_i2c_packet_returns bytes truncated f held =
      elim (Option-cases (respond_to interpret (parse_packet bytes truncated) f)) [
        | inl e ↦ absurd (respond_returns (parse_packet bytes truncated) f held e)
        | inr (a, e) ↦ (transmit a, rw (e, on_i2c_packet) refl)
      ]

  pub packet_locked :
      (bytes : List ℕ) (truncated : Bool) (f : Firmware) {g : Firmware} {sent : Option (List ℕ)}
      → f.active ≡ true
      → on_i2c_packet interpret bytes truncated f ≡ some (g, sent)
      → Same g f
  packet_locked bytes truncated f held h =
      let (outcome, f', e, same) = answered bytes truncated f h in
      let kept =
        transmit-Same outcome f' f (locked_quiet (parse_packet bytes truncated) f held e) in
      subst (λ r. Same (r.0) f) same kept

  pub packet_unlocked :
      (bytes : List ℕ) (truncated : Bool) (f : Firmware) {g : Firmware} {sent : Option (List ℕ)}
      → f.active ≡ false
      → on_i2c_packet interpret bytes truncated f ≡ some (g, sent)
      → g.active ≡ false
  packet_unlocked bytes truncated f free h =
      let (outcome, f', e, same) = answered bytes truncated f h in
      let kept = transmit-active outcome f' ∙ unlocked (parse_packet bytes truncated) f free e in
      subst (λ r. (r.0).active ≡ false) same kept

  -- While the execution flag is set, a packet of any bytes, truncated or not, is handled without a
  -- panic and leaves the flag, the loader, the backing store and the timer as they are.
  pub on_i2c_packet-Same :
      (bytes : List ℕ) (truncated : Bool) (f : Firmware)
      → f.active ≡ true
      → (g : Firmware) × (sent : Option (List ℕ)) × (on_i2c_packet interpret bytes truncated f
          ≡ some (g, sent))
        × Same g f
  on_i2c_packet-Same bytes truncated f held =
      let (r, e) = on_i2c_packet_returns bytes truncated f held in
      (r.0, r.1, e, packet_locked bytes truncated f held e)
