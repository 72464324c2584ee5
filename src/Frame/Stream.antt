-- ===== src/Frame/Stream.antt =====
-- `push` against a specification without a buffer: the bytes received since the last frame ended.
use opti_bridge.Prelude.{
  ℕ, ◌+◌, ◌≤◌, ◌≡◌, ◌⊎◌, Option, none, some, List, [], ◌∷◌, ◌++◌, length, get_or, set, take, drop,
  Result, ok, err, arith, length-set, length-take, get_or-set_self, get_or-set_ne, get_or-take,
  take-suc-set, drop-take, not, ◌&&◌, ltb, leb, ◌==◌, if◌then◌else◌, replicate, copy_at, u8,
}
use opti_bridge.Protocol.{magic, header_len, max_payload}
use opti_bridge.Frame.{
  Request, ParseError, bad_magic, bad_length, Parser, push, IsParser, request_of, new, accept,
}

-- From any parser state that satisfies the invariant, a byte leads to one that satisfies it,
-- errors included.
pub push-IsParser : (p : Parser) (byte : ℕ) → IsParser p → IsParser (push p byte).0
unfolding push
push-IsParser p byte v = ground (
  arith,
  length-set p.frame p.length byte,
  get_or-set_self p.frame p.length byte 0,
  get_or-set_ne p.frame p.length 2 byte 0,
)

pub new-IsParser : IsParser new
new-IsParser = ground arith

-- The request that exactly the bytes of a frame spell.
abbrev pub spelled : List ℕ → Request
spelled q = record {
  command = get_or q 1 0;
  sequence = get_or q 3 0;
  flags = get_or q 4 0;
  payload = copy_at 0 (drop header_len q) (replicate max_payload 0);
  payload_len = u8 (get_or q 2 0);
}

-- What becomes of the bytes `q` of the frame that has just grown by one.
abbrev pub settle : List ℕ → List ℕ × Result (Option Request) ParseError
settle q =
    if length q == header_len && ltb max_payload (get_or q 2 0)
    then ([], err bad_length)
    else if leb header_len (length q) && length q == header_len + get_or q 2 0
    then ([], ok (some (spelled q)))
    else (q, ok none)

-- The specification: there is no limit on the bytes held, and no buffer.
unfoldable pub receive : List ℕ → ℕ → List ℕ × Result (Option Request) ParseError
receive q byte =
    if length q == 0 && not (byte == magic) then ([], err bad_magic) else settle (q ++ byte ∷ [])

-- The bytes that the buffer holds.
abbrev pub held : Parser → List ℕ
held p = take p.length p.frame

request_of-eq-spelled :
    (frame : List ℕ) (n : ℕ)
    → header_len ≤ n
    → n ≤ length frame
    → request_of frame n ≡ spelled (take n frame)
request_of-eq-spelled frame n lo hi = ground (
  arith,
  get_or-take n frame 1 0,
  get_or-take n frame 2 0,
  get_or-take n frame 3 0,
  get_or-take n frame 4 0,
  drop-take header_len n frame,
)

pub length-held : (p : Parser) → IsParser p → length (held p) ≡ p.length
length-held p v = omega (arith, length-take p.length p.frame, v)

-- The step after the byte has been stored, on the buffer and on the list.
accept-settle :
    (frame : List ℕ) (n : ℕ)
    → n ≤ length frame
    → let (p, result) = accept (record { frame = frame; length = n }) in
      (held p ≡ (settle (take n frame)).0) × (result ≡ (settle (take n frame)).1)
accept-settle frame n hi =
    ground (arith, length-take n frame, get_or-take n frame 2 0, request_of-eq-spelled frame n)

-- From any parser state that satisfies the invariant, one byte does to the buffer and answers what
-- the specification does to the list of held bytes.
pub push-receive :
    (p : Parser) (byte : ℕ)
    → IsParser p
    → (held (push p byte).0 ≡ (receive (held p) byte).0)
      × ((push p byte).1 ≡ (receive (held p) byte).1)
unfolding push receive
push-receive p byte v = ground (
  arith,
  length-held p v,
  length-set p.frame p.length byte,
  take-suc-set p.length p.frame byte,
  accept-settle (set p.frame p.length byte) (p.length + 1),
)

-- From any parser state that satisfies the invariant, an error of `push` is a bad first byte or a
-- bad length, never an overlong frame, and leaves the parser between two frames.
pub push_error :
    (p : Parser) (byte : ℕ) {e : ParseError}
    → IsParser p
    → (push p byte).1 ≡ err e
    → ((e ≡ bad_magic) ⊎ (e ≡ bad_length)) × ((push p byte).0.length ≡ 0)
unfolding push
push_error p byte v h = ground arith
