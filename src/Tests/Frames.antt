-- ===== src/Tests/Frames.antt =====
-- Frames, captures and checksums: instances, and the CRC-32 test vector of the specification.
use opti_bridge.Prelude.{
  ℕ, ◌≡◌, ◌≢◌, refl, ◌↔◌, ◌⊎◌, false, none, some, List, [], ◌∷◌, replicate, take, err, arith,
}
use opti_bridge.Protocol.{magic, max_frame, status_ok}
use opti_bridge.Crc.{crc32_iso_hdlc}
use opti_bridge.Crc.Detect.{crc32_iso_hdlc_detects}
use opti_bridge.Frame.{Request, new, push, bad_magic, bad_length, parse_packet, encode_response}
use opti_bridge.Frame.Stream.{new-IsParser, push-receive, push_error, receive, held}
use opti_bridge.Frame.Packet.{Captures, request_for}
use opti_bridge.Frame.Packet.Grammar.{parse_packet-Captures_iff}
use opti_bridge.Frame.Response.{parse_packet-encode_response}

-- "123456789"
abbrev digits : List ℕ
digits = 0x31 ∷ 0x32 ∷ 0x33 ∷ 0x34 ∷ 0x35 ∷ 0x36 ∷ 0x37 ∷ 0x38 ∷ 0x39 ∷ []

digits_crc : crc32_iso_hdlc digits ≡ 0xcbf4_3926
unfolding crc32_iso_hdlc
digits_crc = refl

detects_example : crc32_iso_hdlc (1 ∷ 2 ∷ 3 ∷ []) ≢ crc32_iso_hdlc (1 ∷ 4 ∷ 3 ∷ [])
detects_example =
    crc32_iso_hdlc_detects (1 ∷ []) (3 ∷ []) 2 4 (omega arith, tt) (omega arith, tt) (omega arith)
      (omega arith) (omega arith)

-- A Reset frame, and a Load frame with one byte of payload behind it.
abbrev capture : List ℕ
capture = magic ∷ 1 ∷ 0 ∷ 7 ∷ 0 ∷ magic ∷ 2 ∷ 1 ∷ 8 ∷ 0 ∷ 2 ∷ []

abbrev captured : Request
captured = request_for 2 8 0 (2 ∷ [])

capture_parses : parse_packet capture false ≡ some captured
unfolding parse_packet push
capture_parses = refl

parse_packet-Captures_iff_example :
    (parse_packet capture false ≡ some captured) ↔ Captures capture none (some captured)
parse_packet-Captures_iff_example = parse_packet-Captures_iff capture captured

push-receive_example :
    (held (push new magic).0 ≡ (receive (held new) magic).0)
    × ((push new magic).1 ≡ (receive (held new) magic).1)
push-receive_example = push-receive new magic new-IsParser

bad_first : (push new 7).1 ≡ err bad_magic
unfolding push
bad_first = refl

push_error_example :
    ((bad_magic ≡ bad_magic) ⊎ (bad_magic ≡ bad_length)) × ((push new 7).0.length ≡ 0)
push_error_example = push_error new 7 new-IsParser bad_first

abbrev blank_output : List ℕ
blank_output = replicate max_frame 0

response_round_trip_example :
    parse_packet (take 7 (encode_response status_ok 9 0 (5 ∷ 6 ∷ []) blank_output).0) false
    ≡ some (request_for status_ok 9 0 (5 ∷ 6 ∷ []))
response_round_trip_example =
    parse_packet-encode_response status_ok 9 0 (5 ∷ 6 ∷ []) blank_output (omega arith) refl
