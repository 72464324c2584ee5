-- ===== src/Loader/Image/Nor/Recovery.antt =====
-- What boot finds after a power cut within `execute_pending`.
use opti_bridge.Prelude.{
  ℕ, ◌≡◌, refl, ap, sym, ◌∙◌, subst, ◌⊎◌, inl, inr, none, some, List, false, Option-cases,
}
use opti_bridge.Loader.{
  BpfFlash, BpfLoader, LoadOperation, finalize_op, receiving, committed, running, new,
  committed_metadata,
}
use opti_bridge.Loader.Maps.{has_program}
use opti_bridge.Loader.Image.{execute_pending, perform, validate_committed}
use opti_bridge.Loader.Image.Invariant.{taken-IsLoader}
use opti_bridge.Loader.Image.Invariant.Requests.{Suits-pending}
use opti_bridge.Loader.Image.Nor.{IsNor}
use opti_bridge.Loader.Image.Nor.Agrees.{HoldsOwn, Stored}
use opti_bridge.Loader.Image.Nor.Loads.{Works}
use opti_bridge.Loader.Image.Nor.Boot.{validate_committed-Holds, validate_committed-uncommitted}
use opti_bridge.Loader.Image.Nor.Steps.{Stored-pending}
use opti_bridge.Loader.Image.Nor.Sessions.{Session, Session-Agrees, HoldsOwn-found}
use opti_bridge.Loader.Image.Nor.PowerCuts.{IsTear, power_cut}
use opti_bridge.Loader.Image.Nor.CutOperations.{
  After, not_begun, uncommitted, finished, perform-After, Receives-foreign,
}

-- What a loader and the loader booted after the power cut have to do with each other.
pub data Recovers (l booted : BpfLoader) : Type 0 where
  forgets : has_program booted.state ≡ false → Recovers l booted
  keeps :
      (crc : ℕ)
      → (l.state ≡ committed crc) ⊎ (l.state ≡ running crc)
      → booted.state ≡ committed crc
      → booted.map_layouts ≡ l.map_layouts
      → committed_metadata booted ≡ committed_metadata l
      → Recovers l booted
  completes :
      l.pending ≡ some finalize_op
      → booted.state ≡ committed l.expected_crc
      → booted.bytecode_len ≡ l.bytecode_len
      → booted.committed_map_count ≡ l.map_count
      → Recovers l booted

-- A load in progress, or a program.
abbrev pub IsLoad : BpfLoader → Type 0
IsLoad l =
    (l.state ≡ receiving) ⊎ ((crc : ℕ) × ((l.state ≡ committed crc) ⊎ (l.state ≡ running crc)))

module _ {ℓ} {S : Type ℓ} (flash : BpfFlash S) where
  executed_none : (l : BpfLoader) (s : S) → l.pending ≡ none → (execute_pending flash l s).1 ≡ s
  unfolding execute_pending
  executed_none l s e = rw (execute_pending, e) refl

  executed_some :
      (l : BpfLoader) (s : S) (op : LoadOperation)
      → l.pending ≡ some op
      → (execute_pending flash l s).1 ≡ (perform flash op (record l { pending = none }) s).1
  unfolding execute_pending
  executed_some l s op e = rw (execute_pending, e) refl

module _ {ℓ} {S : Type ℓ} {flash : BpfFlash S} {tear : S → ℕ → List ℕ → S} {peek : S → ℕ → ℕ}
    (nor : IsNor flash peek) (tears : IsTear tear peek) where
  -- The cells are still those that agree with the loader.
  unchanged-Recovers :
      (l : BpfLoader) (s : S)
      → Works flash
      → IsLoad l
      → Stored l.state l (peek s)
      → Recovers l (validate_committed flash new s).0
  unchanged-Recovers l s works (inl e) stored = forgets (
      validate_committed-uncommitted flash nor new s
        (Receives-foreign nor tears l (peek s) (subst (λ state. Stored state l (peek s)) e stored)))
  unchanged-Recovers l s works (inr (crc, state)) stored =
      let own : HoldsOwn l crc (peek s) = elim state [
        | inl e ↦ subst (λ state. Stored state l (peek s)) e stored
        | inr e ↦ subst (λ state. Stored state l (peek s)) e stored
      ] in
      let (found, layouts, metadata) = HoldsOwn-found nor l s crc works.answers own in
      keeps crc state found layouts metadata

  After-Recovers :
      (l taken : BpfLoader) (op : LoadOperation) (s s' : S)
      → Works flash
      → taken ≡ record l { pending = none }
      → l.pending ≡ some op
      → IsLoad l
      → Stored l.state l (peek s)
      → After taken (peek s) (peek s') op
      → Recovers l (validate_committed flash new s').0
  After-Recovers l taken op s s' works same pending load stored (not_begun e) =
      unchanged-Recovers l s' works load (subst (Stored l.state l) (sym e) stored)
  After-Recovers l taken op s s' works same pending load stored (uncommitted foreign) =
      forgets (validate_committed-uncommitted flash nor new s' foreign)
  After-Recovers l taken op s s' works same pending load stored (finished layouts held) =
      let found = validate_committed-Holds flash nor new s' works.answers held in
      completes pending (ap (λ b. b.state) found ∙ ap (λ b. committed b.expected_crc) same)
        (ap (λ b. b.bytecode_len) found ∙ ap (λ b. b.bytecode_len) same)
        (ap (λ b. b.committed_map_count) found ∙ ap (λ b. b.map_count) same)

  -- Power may be cut at any call of the flash within the pending operation of a load in progress or
  -- of a program: on NOR flash whose calls work while there is power and whose writes, but not
  -- erases, may be torn, the next boot finds no program, or the one before with its map layouts and
  -- metadata, or, if the operation was Finalize, the one whose load it ends.
  pub power_cut-Recovers :
      {l : BpfLoader} {s : S} (calls : ℕ)
      → Session flash l s
      → Works flash
      → IsLoad l
      → let (l', (s', left)) = execute_pending (power_cut flash tear) l (s, some calls) in
        Recovers l (validate_committed flash new s').0
  power_cut-Recovers {l} {s} calls before works load =
      let (v, a) = Session-Agrees nor before in
      elim (Option-cases l.pending) [
        | inl e ↦
            subst (λ s'. Recovers l (validate_committed flash new s').0)
              (sym (ap (λ p. p.0) (executed_none (power_cut flash tear) l (s, some calls) e)))
              (unchanged-Recovers l s works load a.stored)
        | inr (op, e) ↦
            let taken : BpfLoader = record l { pending = none } in
            After-Recovers l taken op s _ works refl e load a.stored (
              subst (λ p. After taken (peek s) (peek p.0) op)
                (sym (executed_some (power_cut flash tear) l (s, some calls) op e))
                (perform-After nor tears op taken s calls works (taken-IsLoader l v)
                  (Suits-pending l none op (v.suits op e))
                  (Stored-pending l none l.state (peek s) a.stored)))
      ]
