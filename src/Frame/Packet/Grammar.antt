-- ===== src/Frame/Packet/Grammar.antt =====
-- The loop of `parse_packet` beside the grammar of captures.
use opti_bridge.Prelude.{
  ℕ, ◌+◌, ◌≤◌, ◌<◌, ◌≡◌, refl, sym, ap, ◌∙◌, ◌↔◌, Bool, false, Option, none, some, List, [], ◌∷◌,
  ◌++◌, length, get_or, drop, Result, ok, err, arith, length-append, not, ◌&&◌, ltb, leb, ◌==◌,
  replicate, length-copy_at, get_or-append_left, append_assoc, Bool-cases, inl, inr, true,
}
use opti_bridge.Protocol.{magic, header_len, max_payload}
use opti_bridge.Frame.{Request, IsRequest, ParseError, bad_magic, bad_length, parse_packet, latest}
use opti_bridge.Frame.Stream.{receive, settle, spelled}
use opti_bridge.Frame.Packet.{
  wire, request_for, Captures, frame, done, stream, verdict, parse_packet-stream,
}
use opti_bridge.Frame.Packet.Completion.{wire-Completes, Completes-stream}

-- Bytes of a frame that is not complete, as far as the checks already made say.
record IsPartial (q : List ℕ) : Type 0 where
  starts : 0 < length q → get_or q 0 0 ≡ magic
  fits : header_len ≤ length q → get_or q 2 0 ≤ max_payload

-- A list that settles as a request is the wire form of that request.
settle-wire :
    (q : List ℕ)
    → IsPartial q
    → header_len ≤ length q
    → length q ≡ header_len + get_or q 2 0
    → (q ≡ wire (get_or q 1 0) (get_or q 3 0) (get_or q 4 0) (drop header_len q))
      × (spelled q ≡ request_for (get_or q 1 0) (get_or q 3 0) (get_or q 4 0) (drop header_len q))
      × (length (drop header_len q) ≤ max_payload)
settle-wire [] v lo e = absurd (omega arith)
settle-wire (a ∷ []) v lo e = absurd (omega arith)
settle-wire (a ∷ b ∷ []) v lo e = absurd (omega arith)
settle-wire (a ∷ b ∷ c ∷ []) v lo e = absurd (omega arith)
settle-wire (a ∷ b ∷ c ∷ d ∷ []) v lo e = absurd (omega arith)
settle-wire (a ∷ b ∷ c ∷ d ∷ f ∷ t) v lo e = ground arith

-- The three ways in which one more byte is answered.
data Answer (q : List ℕ) (b : ℕ) : List ℕ × Result (Option Request) ParseError → Type 0 where
  refused : (e : ParseError) → Answer q b ([], err e)
  waits : IsPartial (q ++ b ∷ []) → Answer q b (q ++ b ∷ [], ok none)
  ends :
      (command sequence flags : ℕ) (body : List ℕ)
      → length body ≤ max_payload
      → q ++ b ∷ [] ≡ wire command sequence flags body
      → Answer q b ([], ok (some (request_for command sequence flags body)))

-- What the checks of `receive` and the bytes before give of the bytes after.
record Grown (q : List ℕ) (b : ℕ) : Type 0 where
  grown : length (q ++ b ∷ []) ≡ length q + 1
  start : get_or (q ++ b ∷ []) 0 0 ≡ magic
  before_fits : header_len ≤ length q → get_or (q ++ b ∷ []) 2 0 ≤ max_payload

grow : (q : List ℕ) (b : ℕ) → IsPartial q → (length q ≡ 0 → b ≡ magic) → Grown q b
grow [] b v first = ground (arith, first refl)
grow (x ∷ q) b v first = record {
  grown = omega (arith, length-append (x ∷ q) (b ∷ []));
  start = v.starts (omega arith);
  before_fits = λ h. omega (arith, v.fits h, get_or-append_left (x ∷ q) (b ∷ []) 2 0 (omega arith));
}

settle-Answer : (q : List ℕ) (b : ℕ) → Grown q b → Answer q b (settle (q ++ b ∷ []))
settle-Answer q b g = elim (Bool-cases (length r == header_len && ltb max_payload (get_or r 2 0))) [
  | inl long ↦ rw long (refused bad_length)
  | inr fits ↦
      rw fits
        (elim (Bool-cases (leb header_len (length r) && length r == header_len + get_or r 2 0)) [
          | inl complete ↦
              let v : IsPartial r = ground (arith, g.before_fits) in
              let w = settle-wire r v (ground arith) (ground arith) in
              rw (complete, w.1)
                (ends (get_or r 1 0) (get_or r 3 0) (get_or r 4 0) (drop header_len r) w.2 w.0)
          | inr partial ↦ rw partial (waits (ground (arith, g.before_fits)))
        ])
]
  where
    r : List ℕ
    r = q ++ b ∷ []

receive-Answer : (q : List ℕ) (b : ℕ) → IsPartial q → Answer q b (receive q b)
unfolding receive
receive-Answer q b v = elim (Bool-cases (length q == 0 && not (b == magic))) [
  | inl wrong ↦ rw wrong (refused bad_magic)
  | inr right ↦ rw right (settle-Answer q b (grow q b v (λ e. ground arith)))
]

-- The last request of the loop's result, once no byte of a frame is held.
step-Captures :
    {q : List ℕ} {b : ℕ} {x : List ℕ × Result (Option Request) ParseError}
    (before s : Option Request) (bs : List ℕ)
    → Answer q b x
    → ((q' : List ℕ) (r : Option Request)
        → IsPartial q'
        → stream q' r bs ≡ some ([], s)
        → Captures (q' ++ bs) r s)
    → elim x.1 [ err e ↦ none | ok found ↦ stream x.0 (latest found before) bs ] ≡ some ([], s)
    → Captures (q ++ b ∷ bs) before s
step-Captures before s bs (refused e) rest h = cc
step-Captures {q} {b} before s bs (waits v) rest h =
    rw append_assoc at (rest (q ++ b ∷ []) before v h)
step-Captures {q} {b} before s bs (ends c n f body short e) rest h =
    frame c n f body bs short (sym (append_assoc q (b ∷ []) bs) ∙ ap (λ t. t ++ bs) e) (
      rest [] _ (record { starts = λ p. absurd (omega arith); fits = λ p. absurd (omega arith) }) h)

stream-Captures :
    (q : List ℕ) (before s : Option Request) (bs : List ℕ)
    → IsPartial q
    → stream q before bs ≡ some ([], s)
    → Captures (q ++ bs) before s
unfolding stream
stream-Captures [] before s [] v h = let e : before ≡ s = cc in rw e done
stream-Captures (x ∷ q) before s [] v h = absurd (cc)
stream-Captures q before s (b ∷ bs) v h =
    step-Captures before s bs (receive-Answer q b v) (λ q' r v' h'. stream-Captures q' r s bs v' h')
      h

Captures-stream :
    {packet : List ℕ} {before s : Option Request}
    → Captures packet before s
    → stream [] before packet ≡ some ([], s)
unfolding stream
Captures-stream done = refl
Captures-stream {before} (frame c n f body rest short e more) =
    rw e (Completes-stream before rest (wire-Completes c n f body short) ∙ Captures-stream more)

verdict-some :
    (o : Option (List ℕ × Option Request)) (r : Request)
    → verdict o ≡ some r
    → o ≡ some ([], some r)
verdict-some none r h = cc
verdict-some (some ([], s)) r h = ground arith
verdict-some (some (x ∷ q, s)) r h = absurd (ground arith)

-- A capture that was not truncated parses to a request exactly when it is a sequence of whole
-- frames, at least one, with nothing behind them, and the request is that of the last frame.
pub parse_packet-Captures_iff :
    (packet : List ℕ) (r : Request)
    → (parse_packet packet false ≡ some r) ↔ Captures packet none (some r)
parse_packet-Captures_iff packet r = (
  λ h.
      stream-Captures [] none (some r) packet
        (record { starts = λ p. absurd (omega arith); fits = λ p. absurd (omega arith) })
        (verdict-some (stream [] none packet) r (sym (parse_packet-stream packet) ∙ h)),
  λ c. parse_packet-stream packet ∙ ap verdict (Captures-stream c),
)

Captures-IsRequest :
    {packet : List ℕ} {before : Option Request} {r : Request}
    → Captures packet before (some r)
    → ((s : Request) → before ≡ some s → IsRequest s)
    → IsRequest r
Captures-IsRequest {r} done h = h r refl
Captures-IsRequest (frame c n f body rest short e more) h =
    Captures-IsRequest more
      λ s same. ground (arith, length-copy_at 0 body (replicate max_payload 0))

-- Every request that a capture parses to has a 16-byte payload array of which at most 16 bytes
-- count.
pub parse_packet-IsRequest :
    (packet : List ℕ) (truncated : Bool) {r : Request}
    → parse_packet packet truncated ≡ some r
    → IsRequest r
parse_packet-IsRequest packet false {r} h =
    Captures-IsRequest ((parse_packet-Captures_iff packet r).0 h) (λ s e. absurd (cc))
parse_packet-IsRequest packet true h = absurd (unfold parse_packet in cc)
