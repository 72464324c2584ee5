-- ===== src/Tests/Suite/Parsing.antt =====
-- The unit tests of the parser, of `validate_i2c_request` and of the CRC in
-- crates/optibridge-protocol/src/lib.rs. A definition with the name of a test is what it asserts of a run.
use opti_bridge.Prelude.{
  ℕ, ◌+◌, ◌≡◌, refl, Option, none, some, List, [], ◌∷◌, ◌++◌, take, replicate, map, Result, ok, err,
}
use opti_bridge.Protocol.{
  magic, header_len, max_payload, cmd_read_status, cmd_i2c_write, cmd_i2c_read, status_bad_flags,
  status_bad_command, status_bad_length,
}
use opti_bridge.Frame.{Request, ParseError, bad_magic, bad_length, new, push}
use opti_bridge.Frame.Packet.{request_for}
use opti_bridge.Crc.{crc32_iso_hdlc}
use opti_bridge.Bridge.{validate_i2c_request}
use opti_bridge.Tests.Suite.Runs.{request_bytes, push_all, empty_request}

abbrev parses_read_status_request_run : List (Result (Option Request) ParseError)
parses_read_status_request_run = push_all new (take header_len (request_bytes 7 []))

abbrev ParsesReadStatusRequest : Type 0
ParsesReadStatusRequest =
    parses_read_status_request_run
    ≡ replicate 4 (ok none)
      ++ ok (
          some record {
            command = cmd_read_status;
            sequence = 7;
            flags = 0;
            payload = replicate max_payload 0;
            payload_len = 0;
          })
        ∷ []

parses_read_status_request : ParsesReadStatusRequest
unfolding push_all push
parses_read_status_request = refl

abbrev rejects_bad_magic_and_recovers_run : List (Result (Option Request) ParseError)
rejects_bad_magic_and_recovers_run = push_all new (0 ∷ take header_len (request_bytes 1 []))

abbrev RejectsBadMagicAndRecovers : Type 0
RejectsBadMagicAndRecovers =
    rejects_bad_magic_and_recovers_run
    ≡ err bad_magic ∷ (replicate 4 (ok none) ++ ok (some (request_for cmd_read_status 1 0 [])) ∷ [])

rejects_bad_magic_and_recovers : RejectsBadMagicAndRecovers
unfolding push_all push
rejects_bad_magic_and_recovers = refl

abbrev parses_frame_fragmented_at_each_byte_boundary_run : List (Result (Option Request) ParseError)
parses_frame_fragmented_at_each_byte_boundary_run =
    push_all new (take (header_len + 3) (request_bytes 3 (1 ∷ 2 ∷ 3 ∷ [])))

abbrev ParsesFrameFragmentedAtEachByteBoundary : Type 0
ParsesFrameFragmentedAtEachByteBoundary =
    parses_frame_fragmented_at_each_byte_boundary_run
    ≡ replicate 7 (ok none)
      ++ ok (
          some record {
            command = cmd_read_status;
            sequence = 3;
            flags = 0;
            payload = 1 ∷ 2 ∷ 3 ∷ replicate 13 0;
            payload_len = 3;
          })
        ∷ []

parses_frame_fragmented_at_each_byte_boundary : ParsesFrameFragmentedAtEachByteBoundary
unfolding push_all push
parses_frame_fragmented_at_each_byte_boundary = refl

-- A frame of the greatest length, the one with an index.
abbrev indexed_frame : ℕ → List ℕ
indexed_frame index =
    magic ∷ cmd_read_status ∷ max_payload ∷ (index + 1) ∷ 0 ∷ replicate max_payload index

-- The sequences of the requests among the answers.
abbrev sequences : List (Result (Option Request) ParseError) → List ℕ
sequences [] = []
sequences (ok (some request) ∷ answers) = request.sequence ∷ sequences answers
sequences (ok none ∷ answers) = sequences answers
sequences (err e ∷ answers) = sequences answers

abbrev parses_coalesced_maximum_length_frames_in_order_run :
    List (Result (Option Request) ParseError)
parses_coalesced_maximum_length_frames_in_order_run =
    push_all new (indexed_frame 0 ++ indexed_frame 1 ++ indexed_frame 2)

abbrev ParsesCoalescedMaximumLengthFramesInOrder : Type 0
ParsesCoalescedMaximumLengthFramesInOrder =
    sequences parses_coalesced_maximum_length_frames_in_order_run ≡ 1 ∷ 2 ∷ 3 ∷ []

parses_coalesced_maximum_length_frames_in_order : ParsesCoalescedMaximumLengthFramesInOrder
unfolding push_all push
parses_coalesced_maximum_length_frames_in_order = refl

abbrev recovers_from_invalid_length_within_same_stream_run :
    List (Result (Option Request) ParseError)
recovers_from_invalid_length_within_same_stream_run = push_all new (
    (magic ∷ cmd_read_status ∷ (max_payload + 1) ∷ 9 ∷ 0 ∷ [])
    ++ take header_len (request_bytes 4 []))

abbrev RecoversFromInvalidLengthWithinSameStream : Type 0
RecoversFromInvalidLengthWithinSameStream =
    recovers_from_invalid_length_within_same_stream_run
    ≡ replicate 4 (ok none)
      ++ err bad_length
        ∷ (replicate 4 (ok none) ++ ok (some (request_for cmd_read_status 4 0 [])) ∷ [])

recovers_from_invalid_length_within_same_stream : RecoversFromInvalidLengthWithinSameStream
unfolding push_all push
recovers_from_invalid_length_within_same_stream = refl

abbrev validates_i2c_request_statuses_run : List (Result (Unit {0}) ℕ)
validates_i2c_request_statuses_run =
    let write = record empty_request {
      command = cmd_i2c_write;
      payload_len = 1;
      payload = 0x42 ∷ replicate 15 0;
    } in
    let read = record write { command = cmd_i2c_read } in
    map validate_i2c_request (
      write
      ∷ record write { flags = 1 }
      ∷ record write { command = cmd_read_status }
      ∷ record write { payload_len = 0 }
      ∷ record write { payload_len = max_payload + 1 }
      ∷ record write { payload = 0x80 ∷ replicate 15 0 }
      ∷ read
      ∷ record read { payload_len = 2; payload = 0x42 ∷ (max_payload + 1) ∷ replicate 14 0 }
      ∷ record read { payload_len = 2; payload = 0x42 ∷ max_payload ∷ replicate 14 0 }
      ∷ [])

abbrev ValidatesI2cRequestStatuses : Type 0
ValidatesI2cRequestStatuses =
    validates_i2c_request_statuses_run
    ≡ ok tt
      ∷ err status_bad_flags
      ∷ err status_bad_command
      ∷ err status_bad_length
      ∷ err status_bad_length
      ∷ err status_bad_command
      ∷ err status_bad_length
      ∷ err status_bad_length
      ∷ ok tt
      ∷ []

validates_i2c_request_statuses : ValidatesI2cRequestStatuses
unfolding validate_i2c_request
validates_i2c_request_statuses = refl

abbrev crc32_iso_hdlc_matches_known_vector_run : ℕ
crc32_iso_hdlc_matches_known_vector_run =
    crc32_iso_hdlc (b'1' ∷ b'2' ∷ b'3' ∷ b'4' ∷ b'5' ∷ b'6' ∷ b'7' ∷ b'8' ∷ b'9' ∷ [])

abbrev Crc32IsoHdlcMatchesKnownVector : Type 0
Crc32IsoHdlcMatchesKnownVector = crc32_iso_hdlc_matches_known_vector_run ≡ 0xcbf4_3926

crc32_iso_hdlc_matches_known_vector : Crc32IsoHdlcMatchesKnownVector
unfolding crc32_iso_hdlc
crc32_iso_hdlc_matches_known_vector = refl
