-- ===== src/Frame.antt =====
-- Requests, the byte-wise frame parser, whole I2C captures and response frames of
-- crates/optibridge-protocol/src/lib.rs. A method that takes `&mut self` returns the new value
-- beside its result. The fields of `Parser` are private there: `IsParser` is the invariant of
-- their values.
pub mod Stream
pub mod Packet
pub mod Response
use opti_bridge.Prelude.{
  ℕ, ◌+◌, ◌-◌, ◌≤◌, ◌≡◌, Bool, true, false, not, ◌&&◌, Option, none, some, List, [], ◌∷◌, length,
  get_or, set, take, drop, replicate, copy_at, Result, ok, err, ltb, leb, ◌==◌, if◌then◌else◌, u8,
}
use opti_bridge.Protocol.{magic, header_len, max_payload, max_frame}

pub record Request : Type 0 where
  pub command : ℕ
  pub sequence : ℕ
  pub flags : ℕ
  pub payload : List ℕ
  pub payload_len : ℕ

pub data ParseError : Type 0 where
  bad_magic frame_too_long bad_length : ParseError

pub record Parser : Type 0 where
  pub frame : List ℕ
  pub length : ℕ

abbrev pub new : Parser
new = record { frame = replicate max_frame 0; length = 0 }

abbrev pub reset : Parser → Parser
reset p = record p { length = 0 }

-- The request that a complete frame holds, its payload padded with zeros.
abbrev pub request_of : List ℕ → ℕ → Request
request_of frame n = record {
  command = get_or frame 1 0;
  sequence = get_or frame 3 0;
  flags = get_or frame 4 0;
  payload = copy_at 0 (take (n - header_len) (drop header_len frame)) (replicate max_payload 0);
  payload_len = u8 (get_or frame 2 0);
}

-- `push` after its first two returns, on the parser that holds the byte.
abbrev pub accept : Parser → Parser × Result (Option Request) ParseError
accept p =
    if p.length == header_len && ltb max_payload (get_or p.frame 2 0)
    then (reset p, err bad_length)
    else if leb header_len p.length && p.length == header_len + get_or p.frame 2 0
    then (reset p, ok (some (request_of p.frame p.length)))
    else (p, ok none)

unfoldable pub push : Parser → ℕ → Parser × Result (Option Request) ParseError
push p byte =
    if p.length == 0 && not (byte == magic)
    then (p, err bad_magic)
    else if p.length == max_frame
    then (reset p, err frame_too_long)
    else accept (record { frame = set p.frame p.length byte; length = p.length + 1 })

-- The last request seen, after one more answer of the parser.
abbrev pub latest : Option Request → Option Request → Option Request
latest none request = request
latest (some value) request = some value

-- The loop of `parse_packet`: the parser and the last request, or `none` at the first error.
unfoldable pub packet_loop : Parser → Option Request → List ℕ → Option (Parser × Option Request)
packet_loop p request [] = some (p, request)
packet_loop p request (byte ∷ packet) =
    let (p', result) = push p byte in
    elim result [ err e ↦ none | ok found ↦ packet_loop p' (latest found request) packet ]

unfoldable pub parse_packet : List ℕ → Bool → Option Request
unfolding packet_loop
parse_packet packet truncated = if truncated then none else elim (packet_loop new none packet) [
  | none ↦ none
  | some (p, request) ↦ if not (p.length == 0) then none else request
]

-- The new `output` beside the result; `output` has `max_frame` bytes.
unfoldable pub encode_response : ℕ → ℕ → ℕ → List ℕ → List ℕ → List ℕ × Result ℕ ParseError
encode_response status sequence flags payload output =
    if ltb max_payload (length payload) then (output, err bad_length) else (
      copy_at header_len payload
          (copy_at 0 (magic ∷ status ∷ u8 (length payload) ∷ sequence ∷ flags ∷ []) output),
      ok (header_len + length payload),
    )

-- What `new` establishes and `push` keeps.
pub record IsParser (p : Parser) : Type 0 where
  pub frame_full : length p.frame ≡ max_frame
  pub length_bound : p.length ≤ 20
  pub payload_bound : header_len ≤ p.length → get_or p.frame 2 0 ≤ max_payload
  pub unfinished : header_len ≤ p.length → p.length + 1 ≤ header_len + get_or p.frame 2 0

-- What every request that comes out of a parser satisfies.
pub record IsRequest (r : Request) : Type 0 where
  pub payload_full : length r.payload ≡ max_payload
  pub payload_len_bound : r.payload_len ≤ max_payload
