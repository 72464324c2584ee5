-- ===== src/Frame/Packet.antt =====
-- `parse_packet`: the grammar of captures, and the loop over the specification of the parser.
pub mod Completion
pub mod Grammar
use opti_bridge.Prelude.{
  ℕ, zero, suc, ◌+◌, ◌-◌, ◌≤◌, ◌<◌, ◌≡◌, ◌≢◌, refl, sym, ap, subst₂, ◌∙◌, ◌↔◌, Bool, false, Option,
  none, some, List, [], ◌∷◌, ◌++◌, length, get_or, take, drop, Result, ok, err, arith,
  length-append, not, ◌&&◌, ltb, leb, ◌==◌, if◌then◌else◌, replicate, copy_at, u8,
  get_or-append_left, append_assoc, append-nil,
}
use opti_bridge.Protocol.{magic, header_len, max_payload}
use opti_bridge.Frame.{
  Request, ParseError, Parser, push, IsParser, new, packet_loop, parse_packet, latest,
}
use opti_bridge.Frame.Stream.{
  receive, settle, spelled, held, push-receive, push-IsParser, new-IsParser, length-held,
}

-- The bytes of a frame with a command, sequence, flags and payload, and the request they ask for.
abbrev pub wire : ℕ → ℕ → ℕ → List ℕ → List ℕ
wire command sequence flags body = magic ∷ command ∷ length body ∷ sequence ∷ flags ∷ body

abbrev pub request_for : ℕ → ℕ → ℕ → List ℕ → Request
request_for command sequence flags body = record {
  command = command;
  sequence = sequence;
  flags = flags;
  payload = copy_at 0 body (replicate max_payload 0);
  payload_len = length body;
}

-- `Captures packet before after`: the packet is a sequence of frames with at most 16 bytes of
-- payload each, and `after` is the request of the last one, or `before` if there is none.
pub data Captures : List ℕ → Option Request → Option Request → Type 0 where
  done : {r : Option Request} → Captures [] r r
  frame :
      {packet : List ℕ} {r s : Option Request} (command sequence flags : ℕ) (body rest : List ℕ)
      → length body ≤ max_payload
      → packet ≡ wire command sequence flags body ++ rest
      → Captures rest (some (request_for command sequence flags body)) s
      → Captures packet r s

-- The loop over the specification `receive`.
pub stream : List ℕ → Option Request → List ℕ → Option (List ℕ × Option Request)
stream q before [] = some (q, before)
stream q before (b ∷ bs) =
    let (q', result) = receive q b in
    elim result [ err e ↦ none | ok found ↦ stream q' (latest found before) bs ]

abbrev view : Option (Parser × Option Request) → Option (List ℕ × Option Request)
view none = none
view (some (p, r)) = some (held p, r)

-- One answer of the parser and what follows it, once the rest is known to agree.
answer-stream :
    (result : Result (Option Request) ParseError) (p : Parser) (before : Option Request)
    (bs : List ℕ)
    → ((r : Option Request) → view (packet_loop p r bs) ≡ stream (held p) r bs)
    → view (elim result [ err e ↦ none | ok found ↦ packet_loop p (latest found before) bs ])
      ≡ elim result [ err e ↦ none | ok found ↦ stream (held p) (latest found before) bs ]
answer-stream (ok found) p before bs rest = rest (latest found before)
answer-stream (err e) p before bs rest = refl

packet_loop-stream :
    (p : Parser) (before : Option Request) (bs : List ℕ)
    → IsParser p
    → view (packet_loop p before bs) ≡ stream (held p) before bs
unfolding packet_loop stream
packet_loop-stream p before [] v = refl
packet_loop-stream p before (b ∷ bs) v =
    subst₂
      (λ q result.
        view (packet_loop p before (b ∷ bs))
        ≡ elim result [ err e ↦ none | ok found ↦ stream q (latest found before) bs ])
      (push-receive p b v).0 (push-receive p b v).1
      (answer-stream (push p b).1 (push p b).0 before bs
        (λ r. packet_loop-stream (push p b).0 r bs (push-IsParser p b v)))

-- What the specification's loop makes of a packet.
abbrev pub verdict : Option (List ℕ × Option Request) → Option Request
verdict none = none
verdict (some (q, r)) = if length q == 0 then r else none

abbrev EndsValid : Option (Parser × Option Request) → Type 0
EndsValid none = Unit
EndsValid (some (p, r)) = IsParser p

answer-EndsValid :
    (result : Result (Option Request) ParseError) (p : Parser) (before : Option Request)
    (bs : List ℕ)
    → ((r : Option Request) → EndsValid (packet_loop p r bs))
    → EndsValid (elim result [ err e ↦ none | ok found ↦ packet_loop p (latest found before) bs ])
answer-EndsValid (ok found) p before bs rest = rest (latest found before)
answer-EndsValid (err e) p before bs rest = tt

packet_loop-IsParser :
    (p : Parser) (before : Option Request) (bs : List ℕ)
    → IsParser p
    → EndsValid (packet_loop p before bs)
unfolding packet_loop
packet_loop-IsParser p before [] v = v
packet_loop-IsParser p before (b ∷ bs) v =
    answer-EndsValid (push p b).1 (push p b).0 before bs
      (λ r. packet_loop-IsParser (push p b).0 r bs (push-IsParser p b v))

verdict-view :
    (o : Option (Parser × Option Request))
    → EndsValid o
    → elim o [ none ↦ none | some (p, r) ↦ if not (p.length == 0) then none else r ]
      ≡ verdict (view o)
verdict-view none v = refl
verdict-view (some (p, r)) v = ground (arith, length-held p v)

pub parse_packet-stream :
    (packet : List ℕ) → parse_packet packet false ≡ verdict (stream [] none packet)
unfolding parse_packet
parse_packet-stream packet =
    verdict-view (packet_loop new none packet) (packet_loop-IsParser new none packet new-IsParser)
    ∙ ap verdict (packet_loop-stream new none packet new-IsParser)
