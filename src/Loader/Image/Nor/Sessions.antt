-- ===== src/Loader/Image/Nor/Sessions.antt =====
-- The life of the loader between power cycles, on NOR flash: `validate_committed` at boot, then Load
-- BPF requests, `execute_pending` and Start in any order.
use opti_bridge.Prelude.{ℕ, ◌≡◌, refl, ap, ◌∙◌, subst, ◌⊎◌, inl, inr, none, some, Result, false}
use opti_bridge.Crc.Detect.{IsBytes}
use opti_bridge.Frame.{Request}
use opti_bridge.Loader.{
  BpfFlash, BpfLoader, receiving, committed, running, mark_running, clear_map_layouts, new,
  committed_metadata,
}
use opti_bridge.Loader.Accept.{accepts_load}
use opti_bridge.Loader.Maps.{has_program}
use opti_bridge.Loader.Image.{is_foreign, execute_pending, validate_committed}
use opti_bridge.Loader.Image.Invariant.{IsLoader}
use opti_bridge.Loader.Image.Invariant.Requests.{accepts_load-IsLoader, mark_running-IsLoader}
use opti_bridge.Loader.Image.Invariant.Storage.{
  execute_pending-IsLoader, validate_committed-IsLoader,
}
use opti_bridge.Loader.Image.Nor.{IsNor, Answers}
use opti_bridge.Loader.Image.Nor.Agrees.{Stored, Agrees, Receives, HoldsOwn}
use opti_bridge.Loader.Image.Nor.Boot.{
  found_image, validate_committed-Holds, validate_committed-uncommitted,
}
use opti_bridge.Loader.Image.Nor.Steps.{
  boot-Agrees, accepts_load-Agrees, mark_running-Agrees, execute_pending-Agrees, foreign_header,
}

-- What a loader and the flash come to after a boot with any content of the flash.
pub data Session {ℓ} {S : Type ℓ} (flash : BpfFlash S) : BpfLoader → S → Type ℓ where
  boots :
      (s : S) → Session flash (validate_committed flash new s).0 (validate_committed flash new s).1
  accepts :
      {l l' : BpfLoader} {s : S} {r : Result (Unit {0}) ℕ} (request : Request)
      → Session flash l s
      → IsBytes request.payload
      → accepts_load l request ≡ some (l', r)
      → Session flash l' s
  executes :
      {l : BpfLoader} {s : S}
      → Session flash l s
      → Session flash (execute_pending flash l s).0 (execute_pending flash l s).1
  starts :
      {l : BpfLoader} {s : S}
      → Session flash l s
      → l.pending ≡ none
      → Session flash (mark_running l).0 s

module _ {ℓ} {S : Type ℓ} {flash : BpfFlash S} {peek : S → ℕ → ℕ} (nor : IsNor flash peek) where
  -- On NOR flash, at every point between two boots, whatever requests of bytes arrived and whatever
  -- the flash answered: the loader satisfies its invariant and agrees with the cells of the flash.
  pub Session-Agrees : {l : BpfLoader} {s : S} → Session flash l s → IsLoader l × Agrees l (peek s)
  Session-Agrees (boots s) = (validate_committed-IsLoader flash new s refl, boot-Agrees nor s)
  Session-Agrees (accepts request before fine h) =
      let (v, a) = Session-Agrees before in
      (accepts_load-IsLoader request v h, accepts_load-Agrees _ request _ fine h a)
  Session-Agrees (executes before) =
      let (v, a) = Session-Agrees before in
      (execute_pending-IsLoader flash _ _ v, execute_pending-Agrees nor _ _ v a)
  Session-Agrees (starts before quiet) =
      let (v, a) = Session-Agrees before in
      (mark_running-IsLoader v quiet, mark_running-Agrees _ _ a)

  metadata_same :
      (fresh l : BpfLoader) (c : ℕ)
      → l.committed_map_count ≡ l.map_count
      → committed_metadata (found_image fresh l.bytecode_len l.map_count c l.map_layouts)
        ≡ committed_metadata l
  unfolding committed_metadata
  metadata_same fresh l c e = rw e refl

  -- A loader's own program in the cells is found at boot.
  pub HoldsOwn-found :
      (l : BpfLoader) (s : S) (crc : ℕ)
      → Answers flash
      → HoldsOwn l crc (peek s)
      → let booted = (validate_committed flash new s).0 in
        (booted.state ≡ committed crc)
        × (booted.map_layouts ≡ l.map_layouts)
        × (committed_metadata booted ≡ committed_metadata l)
  HoldsOwn-found l s crc answers (held, count) =
      let found = validate_committed-Holds flash nor new s answers held in
      rw found (refl, refl, metadata_same (clear_map_layouts new) l crc count)

  -- On NOR flash, a program that is committed or running survives a power cut between operations:
  -- if no read fails, the next boot finds it committed, with the same CRC, map layouts and program
  -- metadata.
  pub reboot_finds :
      {l : BpfLoader} {s : S} (crc : ℕ)
      → Session flash l s
      → Answers flash
      → (l.state ≡ committed crc) ⊎ (l.state ≡ running crc)
      → let booted = (validate_committed flash new s).0 in
        (booted.state ≡ committed crc)
        × (booted.map_layouts ≡ l.map_layouts)
        × (committed_metadata booted ≡ committed_metadata l)
  reboot_finds {l} {s} crc before answers state =
      let a = (Session-Agrees before).1 in
      let own : HoldsOwn l crc (peek s) = elim state [
        | inl e ↦ subst (λ state. Stored state l (peek s)) e a.stored
        | inr e ↦ subst (λ state. Stored state l (peek s)) e a.stored
      ] in
      HoldsOwn-found l s crc answers own

  -- On NOR flash, a power cut between operations of a load that is not committed yet leaves no
  -- program behind: the next boot finds none, whether or not reads fail then.
  pub reboot_forgets :
      {l : BpfLoader} {s : S}
      → Session flash l s
      → l.state ≡ receiving
      → has_program ((validate_committed flash new s).0).state ≡ false
  reboot_forgets {l} {s} before e =
      let a = (Session-Agrees before).1 in
      let r : Receives l (peek s) = subst (λ state. Stored state l (peek s)) e a.stored in
      validate_committed-uncommitted flash nor new s
        (ap is_foreign r.header ∙ foreign_header l.bytecode_len l.map_count l.expected_crc)
