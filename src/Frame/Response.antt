-- ===== src/Frame/Response.antt =====
-- `encode_response`: its output, and the parser on it.
use opti_bridge.Prelude.{
  ℕ, ◌+◌, ◌≤◌, ◌<◌, ◌≡◌, sym, ap, ◌∙◌, false, some, List, [], ◌∷◌, length, take, ok, err, arith,
  copy_at, u8, take-copy_at-copy_at, append-nil, length-copy_at,
}
use opti_bridge.Protocol.{magic, header_len, max_payload, max_frame}
use opti_bridge.Frame.{encode_response, bad_length, parse_packet}
use opti_bridge.Frame.Packet.{wire, request_for, done, frame}
use opti_bridge.Frame.Packet.Grammar.{parse_packet-Captures_iff}

-- A payload of at most 16 bytes is encoded into an output of 21 bytes: the length returned is the
-- one of the frame, that many bytes of the output are the frame on the wire, and the output keeps
-- its size.
pub encode_response-wire :
    (status sequence flags : ℕ) (payload output : List ℕ)
    → length payload ≤ max_payload
    → length output ≡ max_frame
    → let (output', result) = encode_response status sequence flags payload output in
      (result ≡ ok (header_len + length payload))
      × (take (header_len + length payload) output' ≡ wire status sequence flags payload)
      × (length output' ≡ max_frame)
unfolding encode_response
encode_response-wire status sequence flags payload output short full =
    let head = magic ∷ status ∷ u8 (length payload) ∷ sequence ∷ flags ∷ [] in
    let body = take-copy_at-copy_at head payload output (omega arith) in
    ground (
      arith,
      body,
      length-copy_at header_len payload (copy_at 0 head output),
      length-copy_at 0 head output,
    )

-- A longer payload is refused and nothing is written.
pub encode_response_long :
    (status sequence flags : ℕ) (payload output : List ℕ)
    → max_payload < length payload
    → encode_response status sequence flags payload output ≡ (output, err bad_length)
unfolding encode_response
encode_response_long status sequence flags payload output long = ground arith

-- A response with at most 16 bytes of payload, encoded into an output of 21 bytes, parses back to
-- its status, sequence, flags and payload.
pub parse_packet-encode_response :
    (status sequence flags : ℕ) (payload output : List ℕ)
    → length payload ≤ max_payload
    → length output ≡ max_frame
    → parse_packet
        (take
          (header_len + length payload)
          (encode_response status sequence flags payload output).0)
        false
      ≡ some (request_for status sequence flags payload)
parse_packet-encode_response status sequence flags payload output short full =
    ap (λ t. parse_packet t false)
      (encode_response-wire status sequence flags payload output short full).1
    ∙ (parse_packet-Captures_iff (wire status sequence flags payload) _).1
        (frame status sequence flags payload [] short (sym (append-nil _)) done)
