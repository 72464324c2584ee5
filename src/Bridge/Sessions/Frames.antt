-- ===== src/Bridge/Sessions/Frames.antt =====
-- What a terminal gets for a stream of whole frames: one exchange and one response for each, in turn,
-- whatever the parser's buffer holds from before.
use opti_bridge.Prelude.{
  ℕ, ◌≤◌, ◌≡◌, refl, ap, subst, sym, none, some, List, [], ◌∷◌, ◌++◌, length, take, ok, err, All,
  Result-cases, arith, inl, inr,
}
use opti_bridge.Protocol.{max_payload}
use opti_bridge.Frame.{Request, Parser, push, IsParser}
use opti_bridge.Frame.Stream.{held, length-held, push-IsParser, push-receive}
use opti_bridge.Frame.Packet.{wire, request_for}
use opti_bridge.Frame.Packet.Completion.{Completes, last, waits, wire-Completes}
use opti_bridge.Bridge.{I2c, Handled, responded, restarted, panicked, handle_request}
use opti_bridge.Bridge.Sessions.{
  Cdc, Ended, listens, resets, panics, answer, serve, serve_byte, then_next, serve_bytes,
}

-- A frame that a terminal sends.
pub record Sent : Type 0 where
  pub command : ℕ
  pub sequence : ℕ
  pub flags : ℕ
  pub body : List ℕ

abbrev pub wires : List Sent → List ℕ
wires [] = []
wires (f ∷ frames) = wire f.command f.sequence f.flags f.body ++ wires frames

abbrev pub requests : List Sent → List Request
requests [] = []
requests (f ∷ frames) = request_for f.command f.sequence f.flags f.body ∷ requests frames

abbrev pub IsSent : Sent → Type 0
IsSent f = length f.body ≤ max_payload

-- The end of a part of the loop without the parser.
pub data Outcome : Type 0 where
  goes_on : List ℕ → Outcome
  restarts fails : Outcome

abbrev pub outcome_of {ℓ} : {S : Type ℓ} → Ended × S → Outcome × S
outcome_of (listens p output, s) = (goes_on output, s)
outcome_of (resets, s) = (restarts, s)
outcome_of (panics, s) = (fails, s)

abbrev pub IsBetweenFrames : Ended → Type 0
IsBetweenFrames (listens p output) = p.length ≡ 0
IsBetweenFrames resets = Unit
IsBetweenFrames panics = Unit

module _ {ℓ} {S : Type ℓ} (i2c : I2c S) (cdc : Cdc S) where
  -- The specification: each request is handled and its response written, until a write fails or the
  -- bridge resets.
  abbrev pub respond_all : List Request → List ℕ → S → Outcome × S
  respond_all [] output s = (goes_on output, s)
  respond_all (r ∷ rs) output s =
      let (handled, output', s') = handle_request i2c r output s in
      elim handled [
        | responded n ↦
            let (s'', written) = cdc.write_packet s' (take n output') in
            elim written [ ok done ↦ respond_all rs output' s'' | err e ↦ (restarts, s'') ]
        | restarted ↦ (restarts, s')
        | panicked ↦ (fails, s')
      ]

  serve_bytes-Completes :
      {q bs : List ℕ} {r : Request} (p : Parser) (rest output : List ℕ) (s : S)
      → Completes q bs r
      → IsParser p
      → held p ≡ q
      → (p' : Parser) × IsParser p'
        × (held p' ≡ [])
        × (serve_bytes i2c cdc (bs ++ rest) p output s
            ≡ then_next (serve_bytes i2c cdc rest) (serve i2c cdc p' r output s))
  unfolding serve_bytes serve_byte
  serve_bytes-Completes {r = r} p rest output s (last {b = b} e) v same =
      let (kept, told) = push-receive p b v in
      let found : (push p b).1 ≡ ok (some r) = cc (told, same, e) in
      (
        (push p b).0,
        push-IsParser p b v,
        cc (kept, same, e),
        rw (serve_bytes, serve_byte, found) refl,
      )
  serve_bytes-Completes p rest output s (waits {b = b} {bs = bs} e more) v same =
      let (kept, told) = push-receive p b v in
      let quiet : (push p b).1 ≡ ok none = cc (told, same, e) in
      let (p', v', idle, served) =
        serve_bytes-Completes (push p b).0 rest output s more (push-IsParser p b v)
          (cc (kept, same, e)) in
      (p', v', idle, rw (serve_bytes, serve_byte, quiet) served)

  -- What is written for one request and what follows.
  abbrev Agrees : Ended × S → Outcome × S → Type ℓ
  Agrees x y = (outcome_of x ≡ y) × IsBetweenFrames x.0

  answer-Agrees :
      (next : Parser → List ℕ → S → Ended × S) (rs : List Request) (p : Parser) (handled : Handled)
      (output : List ℕ) (s : S)
      → ((output : List ℕ) (s : S) → Agrees (next p output s) (respond_all rs output s))
      → Agrees (then_next next (answer i2c cdc p handled output s)) (elim handled [
        | responded n ↦
            let (s', written) = cdc.write_packet s (take n output) in
            elim written [ ok done ↦ respond_all rs output s' | err e ↦ (restarts, s') ]
        | restarted ↦ (restarts, s)
        | panicked ↦ (fails, s)
      ])
  unfolding answer
  answer-Agrees next rs p restarted output s more = (refl, tt)
  answer-Agrees next rs p panicked output s more = (refl, tt)
  answer-Agrees next rs p (responded n) output s more =
      let written = cdc.write_packet s (take n output) in
      elim (Result-cases written.1) [
        | inl (u, e) ↦ rw (answer, e) (more output written.0)
        | inr (u, e) ↦ rw (answer, e) (refl, tt)
      ]

  -- A stream of whole frames, from a parser between two frames, is answered as the specification
  -- has it, one response for each frame, and leaves the parser between two frames.
  pub serve_bytes-respond_all :
      (frames : List Sent) (p : Parser) (output : List ℕ) (s : S)
      → All IsSent frames
      → IsParser p
      → p.length ≡ 0
      → (outcome_of (serve_bytes i2c cdc (wires frames) p output s)
          ≡ respond_all (requests frames) output s)
        × IsBetweenFrames (serve_bytes i2c cdc (wires frames) p output s).0
  unfolding serve_bytes serve
  serve_bytes-respond_all [] p output s sent v idle = (refl, idle)
  serve_bytes-respond_all (f ∷ frames) p output s (short, sent) v idle =
      let (p', v', none_held, served) =
        serve_bytes-Completes p (wires frames) output s
          (wire-Completes f.command f.sequence f.flags f.body short) v
          (ap (λ n. take n p.frame) idle) in
      let idle' : p'.length ≡ 0 = omega (arith, length-held p' v', ap length none_held) in
      let (handled, output', s') =
        handle_request i2c (request_for f.command f.sequence f.flags f.body) output s in
      subst (λ x. Agrees x (respond_all (requests (f ∷ frames)) output s)) (sym served)
        (answer-Agrees (serve_bytes i2c cdc (wires frames)) (requests frames) p' handled output' s'
          (λ output s. serve_bytes-respond_all frames p' output s sent v' idle'))
