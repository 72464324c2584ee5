-- ===== src/Loader/Image/Nor/Steps.antt =====
-- The loader beside the cells of the flash through every operation of `BpfLoader`, and what a reboot
-- finds.
use opti_bridge.Prelude.{
  ℕ, ◌≡◌, refl, subst, inl, inr, Option, none, some, Option-cases, Result, arith, true,
}
use opti_bridge.Crc.Detect.{IsBytes}
use opti_bridge.Frame.{Request}
use opti_bridge.Loader.{
  BpfFlash, BpfLoader, LoadOperation, begin_op, data_op, finalize_op, LoaderState, empty, receiving,
  committed, running, failed, mark_running, mark_from, new,
}
use opti_bridge.Loader.Accept.{accepts_load}
use opti_bridge.Loader.Image.{
  image_header, is_foreign, begin, program, finalize, perform, execute_pending, validate_committed,
  validate_header, validate_image,
}
use opti_bridge.Loader.Image.Invariant.{IsLoader, taken-IsLoader}
use opti_bridge.Loader.Image.Invariant.Requests.{
  Suits-pending, Accepts, refuses, keeps, accepts_load-Accepts,
}
use opti_bridge.Loader.Image.Nor.{IsNor}
use opti_bridge.Loader.Image.Nor.Bytes.{accepts_load-FromBytes}
use opti_bridge.Loader.Image.Nor.Agrees.{Stored, Agrees}
use opti_bridge.Loader.Image.Nor.Operations.{perform-Stored}
use opti_bridge.Loader.Image.Nor.Boot.{validate_committed-Stored}

-- Agreement does not depend on what is pending, but for how it is spelled.
pub Stored-pending :
    (l : BpfLoader) (o : Option LoadOperation) (state : LoaderState) (cells : ℕ → ℕ)
    → Stored state l cells
    → Stored state (record l { pending = o }) cells
Stored-pending l o receiving cells h = record {
  header = h.header;
  word = h.word;
  sum = h.sum;
  erased = h.erased;
}
Stored-pending l o (committed crc) cells h = h
Stored-pending l o (running crc) cells h = h
Stored-pending l o empty cells h = tt
Stored-pending l o (failed status) cells h = tt

Accepts-Stored :
    {l l' : BpfLoader} {r : Result (Unit {0}) ℕ} (cells : ℕ → ℕ)
    → Accepts l l' r
    → Stored l.state l cells
    → Stored l'.state l' cells
Accepts-Stored cells (refuses status) h = h
Accepts-Stored {l} cells (keeps op quiet still fits) h = Stored-pending l (some op) l.state cells h

pub accepts_load-Agrees :
    (l : BpfLoader) (request : Request) {l' : BpfLoader} {r : Result (Unit {0}) ℕ} (cells : ℕ → ℕ)
    → IsBytes request.payload
    → accepts_load l request ≡ some (l', r)
    → Agrees l cells
    → Agrees l' cells
accepts_load-Agrees l request {l'} {r} cells fine h a = record {
  stored = Accepts-Stored cells (accepts_load-Accepts l request l' r h) a.stored;
  spelled = accepts_load-FromBytes l request fine a.spelled h;
}

mark_from-Agrees :
    (state : LoaderState) (l : BpfLoader) (cells : ℕ → ℕ)
    → l.state ≡ state
    → Agrees l cells
    → Agrees (mark_from state l).0 cells
mark_from-Agrees (committed crc) l cells e a = record {
  stored = subst (λ state. Stored state l cells) e a.stored;
  spelled = a.spelled;
}
mark_from-Agrees (running crc) l cells e a = a
mark_from-Agrees (failed status) l cells e a = a
mark_from-Agrees empty l cells e a = a
mark_from-Agrees receiving l cells e a = a

pub mark_running-Agrees :
    (l : BpfLoader) (cells : ℕ → ℕ) → Agrees l cells → Agrees (mark_running l).0 cells
unfolding mark_running
mark_running-Agrees l cells a = mark_from-Agrees l.state l cells refl a

pub foreign_header : (b m c : ℕ) → is_foreign (image_header b m c) ≡ true
foreign_header b m c = refl

module _ {ℓ} {S : Type ℓ} {flash : BpfFlash S} {peek : S → ℕ → ℕ} (nor : IsNor flash peek) where
  perform-pending :
      (op : LoadOperation) (l : BpfLoader) (s : S) → ((perform flash op l s).0).pending ≡ l.pending
  unfolding begin program finalize
  perform-pending (begin_op b m c) l s = ground arith
  perform-pending (data_op offset bytes len) l s = ground arith
  perform-pending finalize_op l s = ground arith

  pub execute_pending-Agrees :
      (l : BpfLoader) (s : S)
      → IsLoader l
      → Agrees l (peek s)
      → let (l', s') = execute_pending flash l s in Agrees l' (peek s')
  unfolding execute_pending
  execute_pending-Agrees l s v a = elim (Option-cases l.pending) [
    | inl e ↦ rw (e, execute_pending) a
    | inr (op, e) ↦
        let taken : BpfLoader = record l { pending = none } in
        rw (e, execute_pending)
          record {
            stored =
                perform-Stored nor op taken s (taken-IsLoader l v)
                  (Suits-pending l none op (v.suits op e)) (a.spelled op e)
                  (Stored-pending l none l.state (peek s) a.stored);
            spelled = λ other e'. absurd (cc (perform-pending op taken s, e'));
          }
  ]

  pub validate_committed-pending :
      (l : BpfLoader) (s : S) → ((validate_committed flash l s).0).pending ≡ l.pending
  unfolding validate_committed validate_header validate_image
  validate_committed-pending l s = ground arith

  pub boot-Agrees : (s : S) → let (l', s') = validate_committed flash new s in Agrees l' (peek s')
  boot-Agrees s = record {
    stored = validate_committed-Stored nor new s;
    spelled = λ op e. absurd (cc (validate_committed-pending new s));
  }
