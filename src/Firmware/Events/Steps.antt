-- ===== src/Firmware/Events/Steps.antt =====
-- The main loop and the interrupt handler as one step relation.
use opti_bridge.Prelude.{
  ℕ, ◌≡◌, refl, sym, ap, ◌∙◌, inl, inr, Bool, true, false, Option, some, List, ok, ◌==◌, if_rule,
  arith, Bool-cases, Result-cases, ==_iff,
}
use opti_bridge.Loader.{BpfFlash, event_execution_metadata}
use opti_bridge.Firmware.Timer.{TimerEvent}
use opti_bridge.Firmware.Events.{
  Firmware, Interpreter, Phase, outside, leaving, taken, unclaimed, claimed, current, loaded,
  on_i2c_packet, execute_timer_event, flash_work, poll, take_timer,
}
use opti_bridge.Firmware.Events.Interleaving.{Same, packet_locked, packet_unlocked}

-- The phases in which the main loop holds the execution flag.
abbrev pub holds : Phase → Bool
holds (claimed event) = true
holds (current event) = true
holds (loaded event metadata) = true
holds leaving = true
holds _ = false

abbrev pub Prepared : Phase → Firmware → Type 0
Prepared (current event) f = f.timer.generation ≡ event.generation
Prepared (loaded event metadata) f =
    (f.timer.generation ≡ event.generation)
    × (event_execution_metadata f.device.loader ≡ ok metadata)
Prepared _ f = Unit

-- The flag is set exactly while the main loop holds it. From the test of the generation on the event
-- is of the timer's current generation; and the program about to run is the one that the loader then
-- holds, with no load operation pending.
pub record InOrder (p : Phase) (f : Firmware) : Type 0 where
  pub flag : f.active ≡ holds p
  pub prepared : Prepared p f

-- A run of the program also depends on the bytes that are then in flash and on the clock: the
-- interpreter is a family, of which each step has a member of its own.
module _ {ℓ} {S : Type ℓ} {K : Type 0} (interpret : K → Interpreter) (flash : BpfFlash S) where
  -- A packet may come at any time. The loop polls, works on the flash and takes an event outside of
  -- `execute_timer_event`; the program's own run is one step, since a packet during it only adds to
  -- the output.
  pub data Step : Phase → Firmware → S → Phase → Firmware → S → Type ℓ where
    packet :
        {p : Phase} {f g : Firmware} {s : S} {sent : Option (List ℕ)} (k : K) (bytes : List ℕ)
        (truncated : Bool)
        → on_i2c_packet (interpret k) bytes truncated f ≡ some (g, sent)
        → Step p f s p g s
    works :
        {f : Firmware} {s : S}
        → Step outside f s outside (flash_work flash f s).0 (flash_work flash f s).1
    polls : {f : Firmware} {s : S} (now : ℕ) → Step outside f s outside (poll now f) s
    takes :
        {f : Firmware} {s : S} {event : TimerEvent}
        → (take_timer f).0 ≡ some event
        → Step outside f s (taken event) (take_timer f).1 s
    advances :
        {p : Phase} {f : Firmware} {s : S} (k : K)
        → Step p f s
            (execute_timer_event (interpret k) p f).0
            (execute_timer_event (interpret k) p f).1
            s

  Prepared-Same : (p : Phase) (f g : Firmware) → Same g f → Prepared p f → Prepared p g
  Prepared-Same (current event) f g h v = ap (λ t. t.generation) h.timer ∙ v
  Prepared-Same (loaded event metadata) f g h v =
      (ap (λ t. t.generation) h.timer ∙ v.0, ap event_execution_metadata h.loader ∙ v.1)
  Prepared-Same outside f g h v = tt
  Prepared-Same leaving f g h v = tt
  Prepared-Same (taken event) f g h v = tt
  Prepared-Same (unclaimed event) f g h v = tt
  Prepared-Same (claimed event) f g h v = tt

  Prepared-free : (p : Phase) (f : Firmware) → holds p ≡ false → Prepared p f
  Prepared-free outside f e = tt
  Prepared-free (taken event) f e = tt
  Prepared-free (unclaimed event) f e = tt
  Prepared-free (current event) f e = ground (arith, e)
  Prepared-free (claimed event) f e = tt
  Prepared-free (loaded event metadata) f e = ground (arith, e)
  Prepared-free leaving f e = tt

  packet-InOrder :
      (k : K) (p : Phase) (f g : Firmware) (bytes : List ℕ) (truncated : Bool)
      {sent : Option (List ℕ)}
      → on_i2c_packet (interpret k) bytes truncated f ≡ some (g, sent)
      → InOrder p f
      → InOrder p g
  unfolding on_i2c_packet
  packet-InOrder k p f g bytes truncated h v = elim (Bool-cases f.active) [
    | inl held ↦
        let same = packet_locked (interpret k) bytes truncated f held h in
        record { flag = same.active ∙ v.flag; prepared = Prepared-Same p f g same v.prepared }
    | inr free ↦ record {
      flag = packet_unlocked (interpret k) bytes truncated f free h ∙ (sym free ∙ v.flag);
      prepared = Prepared-free p g (sym v.flag ∙ free);
    }
  ]

  advance-InOrder :
      (k : K) (p : Phase) (f : Firmware)
      → InOrder p f
      → let (p', f') = execute_timer_event (interpret k) p f in InOrder p' f'
  unfolding execute_timer_event
  advance-InOrder k outside f v = v
  advance-InOrder k (taken event) f v =
      rw (v.flag, execute_timer_event) (record { flag = refl; prepared = tt })
  advance-InOrder k (unclaimed event) f v = record { flag = v.flag; prepared = tt }
  advance-InOrder k (claimed event) f v =
      if_rule {A = Phase × Firmware} (λ r. InOrder r.0 r.1) (f.timer.generation == event.generation)
        (λ e. record { flag = v.flag; prepared = (==_iff f.timer.generation event.generation).0 e })
        (λ e. record { flag = v.flag; prepared = tt })
  advance-InOrder k (current event) f v =
      elim (Result-cases (event_execution_metadata f.device.loader)) [
        | inl (metadata, e) ↦
            rw (e, execute_timer_event) (record { flag = v.flag; prepared = (v.prepared, e) })
        | inr (status, e) ↦ rw (e, execute_timer_event) (record { flag = v.flag; prepared = tt })
      ]
  advance-InOrder k (loaded event metadata) f v = record { flag = v.flag; prepared = tt }
  advance-InOrder k leaving f v = record { flag = refl; prepared = tt }

  Step-InOrder :
      {p : Phase} {f : Firmware} {s : S} {q : Phase} {g : Firmware} {t : S}
      → Step p f s q g t
      → InOrder p f
      → InOrder q g
  Step-InOrder (packet {p} {f} {g} k bytes truncated h) v =
      packet-InOrder k p f g bytes truncated h v
  Step-InOrder works v = record { flag = v.flag; prepared = tt }
  Step-InOrder (polls now) v = record { flag = v.flag; prepared = tt }
  Step-InOrder (takes e) v = record { flag = v.flag; prepared = tt }
  Step-InOrder (advances {p} {f} k) v = advance-InOrder k p f v

  -- What steps reach from a state of the device and the flash in which the main loop starts a round.
  pub data Reached (f₀ : Firmware) (s₀ : S) : Phase → Firmware → S → Type ℓ where
    start : Reached f₀ s₀ outside f₀ s₀
    after :
        {p : Phase} {f : Firmware} {s : S} {q : Phase} {g : Firmware} {t : S}
        → Reached f₀ s₀ p f s
        → Step p f s q g t
        → Reached f₀ s₀ q g t

  -- In every state that is reached from one in which the execution flag is free, with any device,
  -- timer and flash there and whatever packets arrive between the steps: the execution flag is
  -- set exactly while the main loop holds it; once an event passed the test, it is of the timer's
  -- current generation; and the program about to run for it is the one that the loader then holds,
  -- with nothing pending.
  pub Reached-InOrder :
      {f₀ : Firmware} {s₀ : S} {p : Phase} {f : Firmware} {s : S}
      → f₀.active ≡ false
      → Reached f₀ s₀ p f s
      → InOrder p f
  Reached-InOrder free start = record { flag = free; prepared = tt }
  Reached-InOrder free (after before step) = Step-InOrder step (Reached-InOrder free before)
