-- ===== src/Tests/Suite/Dispatching.antt =====
-- The unit tests of `dispatch` and `dispatch_packet` in crates/optibridge-protocol/src/lib.rs. A
-- definition with the name of a test is what it asserts of a run.
use opti_bridge.Prelude.{ℕ, ◌+◌, ◌≡◌, refl, true, false, List, [], ◌∷◌, ◌++◌, take}
use opti_bridge.Protocol.{
  magic, header_len, max_payload, cmd_reset, cmd_load_bpf, cmd_start_bpf, cmd_read_bpf_map,
  cmd_write_bpf_map, cmd_read_status, status_ok, status_bad_flags, status_bad_command,
  status_bad_length, status_not_implemented,
}
use opti_bridge.Frame.{Request, encode_response, parse_packet, push}
use opti_bridge.Dispatch.{ready, response, empty, reset, dispatch, dispatch_packet, respond}
use opti_bridge.Tests.Suite.Runs.{
  empty_request, request_bytes, blank_output, Seen, dispatch_all, dispatch_packets,
}

-- A response without a payload, and the one that has the first message.
abbrev pub bare : ℕ → ℕ → Seen
bare status sequence = (response 5, magic ∷ status ∷ 0 ∷ sequence ∷ 0 ∷ [])

abbrev pub readied : ℕ → Seen
readied sequence =
    (response 10, magic ∷ status_ok ∷ 5 ∷ sequence ∷ 0 ∷ b'r' ∷ b'e' ∷ b'a' ∷ b'd' ∷ b'y' ∷ [])

abbrev status_request : ℕ → Request
status_request sequence = record empty_request { command = cmd_read_status; sequence = sequence }

abbrev dispatches_read_status_response_run : List Seen
dispatches_read_status_response_run = dispatch_all (status_request 9 ∷ []) ready blank_output

abbrev DispatchesReadStatusResponse : Type 0
DispatchesReadStatusResponse = dispatches_read_status_response_run ≡ readied 9 ∷ []

dispatches_read_status_response : DispatchesReadStatusResponse
unfolding dispatch_all dispatch respond encode_response
dispatches_read_status_response = refl

abbrev dispatches_action_request_errors_run : List Seen
dispatches_action_request_errors_run =
    dispatch_all
      (record (status_request 1) { flags = 1 }
        ∷ record (status_request 1) { command = 7 }
        ∷ record (status_request 1) { payload_len = 1 }
        ∷ status_request 1
        ∷ [])
      ready blank_output

abbrev DispatchesActionRequestErrors : Type 0
DispatchesActionRequestErrors =
    dispatches_action_request_errors_run
    ≡ bare status_bad_flags 1
      ∷ bare status_bad_command 1
      ∷ bare status_bad_length 1
      ∷ readied 1
      ∷ []

dispatches_action_request_errors : DispatchesActionRequestErrors
unfolding dispatch_all dispatch respond encode_response
dispatches_action_request_errors = refl

-- A command as it is, with a payload, and with a flag.
abbrev stubs : ℕ → List Request
stubs command =
    let request = record empty_request { command = command; sequence = 7 } in
    request ∷ record request { payload_len = 1 } ∷ record request { flags = 1 } ∷ []

abbrev dispatches_action_stubs_as_not_implemented_run : List Seen
dispatches_action_stubs_as_not_implemented_run =
    dispatch_all
      (stubs cmd_load_bpf
        ++ stubs cmd_start_bpf
        ++ stubs cmd_read_bpf_map
        ++ stubs cmd_write_bpf_map)
      ready blank_output

abbrev stubbed : List Seen
stubbed = bare status_not_implemented 7 ∷ bare status_bad_length 7 ∷ bare status_bad_flags 7 ∷ []

abbrev DispatchesActionStubsAsNotImplemented : Type 0
DispatchesActionStubsAsNotImplemented =
    dispatches_action_stubs_as_not_implemented_run ≡ stubbed ++ stubbed ++ stubbed ++ stubbed

dispatches_action_stubs_as_not_implemented : DispatchesActionStubsAsNotImplemented
unfolding dispatch_all dispatch respond encode_response
dispatches_action_stubs_as_not_implemented = refl

abbrev dispatches_reset_outcomes_run : List Seen
dispatches_reset_outcomes_run =
    let request = record empty_request { command = cmd_reset } in
    dispatch_all (request ∷ record request { flags = 1 } ∷ record request { payload_len = 1 } ∷ [])
      ready blank_output

abbrev DispatchesResetOutcomes : Type 0
DispatchesResetOutcomes =
    dispatches_reset_outcomes_run
    ≡ (reset, []) ∷ bare status_bad_flags 0 ∷ bare status_bad_length 0 ∷ []

dispatches_reset_outcomes : DispatchesResetOutcomes
unfolding dispatch_all dispatch respond encode_response
dispatches_reset_outcomes = refl

abbrev read_status_pops_newest_message_run : List Seen
read_status_pops_newest_message_run =
    dispatch_all (status_request 1 ∷ status_request 2 ∷ []) ready blank_output

abbrev ReadStatusPopsNewestMessage : Type 0
ReadStatusPopsNewestMessage =
    read_status_pops_newest_message_run ≡ readied 1 ∷ bare status_ok 2 ∷ []

read_status_pops_newest_message : ReadStatusPopsNewestMessage
unfolding dispatch_all dispatch respond encode_response
read_status_pops_newest_message = refl

abbrev status_frame : ℕ → List ℕ
status_frame sequence = take header_len (request_bytes sequence [])

abbrev dispatch_packet_uses_only_the_final_complete_frame_run : List Seen
dispatch_packet_uses_only_the_final_complete_frame_run =
    dispatch_packets ((status_frame 1 ++ status_frame 2, false) ∷ []) ready blank_output

abbrev DispatchPacketUsesOnlyTheFinalCompleteFrame : Type 0
DispatchPacketUsesOnlyTheFinalCompleteFrame =
    dispatch_packet_uses_only_the_final_complete_frame_run ≡ readied 2 ∷ []

dispatch_packet_uses_only_the_final_complete_frame : DispatchPacketUsesOnlyTheFinalCompleteFrame
unfolding dispatch_packets dispatch_packet parse_packet push dispatch respond encode_response
dispatch_packet_uses_only_the_final_complete_frame = refl

abbrev dispatch_packet_rejects_incomplete_and_malformed_packets_run : List Seen
dispatch_packet_rejects_incomplete_and_malformed_packets_run =
    dispatch_packets
      ((magic ∷ cmd_read_status ∷ [], false)
        ∷ (magic ∷ cmd_read_status ∷ (max_payload + 1) ∷ 3 ∷ 0 ∷ [], false)
        ∷ (status_frame 4, false)
        ∷ [])
      ready blank_output

abbrev DispatchPacketRejectsIncompleteAndMalformedPackets : Type 0
DispatchPacketRejectsIncompleteAndMalformedPackets =
    dispatch_packet_rejects_incomplete_and_malformed_packets_run
    ≡ (empty, []) ∷ (empty, []) ∷ readied 4 ∷ []

dispatch_packet_rejects_incomplete_and_malformed_packets :
    DispatchPacketRejectsIncompleteAndMalformedPackets
unfolding dispatch_packets dispatch_packet parse_packet push dispatch respond encode_response
dispatch_packet_rejects_incomplete_and_malformed_packets = refl

abbrev dispatch_packet_rejects_trailing_partial_frames_run : List Seen
dispatch_packet_rejects_trailing_partial_frames_run =
    dispatch_packets
      ((status_frame 5 ++ magic ∷ cmd_read_status ∷ [], false) ∷ (status_frame 6, false) ∷ []) ready
      blank_output

abbrev DispatchPacketRejectsTrailingPartialFrames : Type 0
DispatchPacketRejectsTrailingPartialFrames =
    dispatch_packet_rejects_trailing_partial_frames_run ≡ (empty, []) ∷ readied 6 ∷ []

dispatch_packet_rejects_trailing_partial_frames : DispatchPacketRejectsTrailingPartialFrames
unfolding dispatch_packets dispatch_packet parse_packet push dispatch respond encode_response
dispatch_packet_rejects_trailing_partial_frames = refl

abbrev dispatch_packet_returns_reset_for_valid_reset_run : List Seen
dispatch_packet_returns_reset_for_valid_reset_run =
    dispatch_packets ((magic ∷ cmd_reset ∷ 0 ∷ 8 ∷ 0 ∷ [], false) ∷ []) ready blank_output

abbrev DispatchPacketReturnsResetForValidReset : Type 0
DispatchPacketReturnsResetForValidReset =
    dispatch_packet_returns_reset_for_valid_reset_run ≡ (reset, []) ∷ []

dispatch_packet_returns_reset_for_valid_reset : DispatchPacketReturnsResetForValidReset
unfolding dispatch_packets dispatch_packet parse_packet push dispatch respond encode_response
dispatch_packet_returns_reset_for_valid_reset = refl

abbrev dispatch_packet_rejects_truncated_valid_prefixes_run : List Seen
dispatch_packet_rejects_truncated_valid_prefixes_run =
    dispatch_packets ((status_frame 5, true) ∷ (status_frame 5, false) ∷ []) ready blank_output

abbrev DispatchPacketRejectsTruncatedValidPrefixes : Type 0
DispatchPacketRejectsTruncatedValidPrefixes =
    dispatch_packet_rejects_truncated_valid_prefixes_run ≡ (empty, []) ∷ readied 5 ∷ []

dispatch_packet_rejects_truncated_valid_prefixes : DispatchPacketRejectsTruncatedValidPrefixes
unfolding dispatch_packets dispatch_packet parse_packet push dispatch respond encode_response
dispatch_packet_rejects_truncated_valid_prefixes = refl

abbrev dispatch_packet_does_not_pop_status_for_invalid_requests_run : List Seen
dispatch_packet_does_not_pop_status_for_invalid_requests_run =
    dispatch_packets
      ((magic ∷ cmd_read_status ∷ 0 ∷ 6 ∷ 1 ∷ [], false) ∷ (status_frame 7, false) ∷ []) ready
      blank_output

abbrev DispatchPacketDoesNotPopStatusForInvalidRequests : Type 0
DispatchPacketDoesNotPopStatusForInvalidRequests =
    dispatch_packet_does_not_pop_status_for_invalid_requests_run
    ≡ bare status_bad_flags 6 ∷ readied 7 ∷ []

dispatch_packet_does_not_pop_status_for_invalid_requests :
    DispatchPacketDoesNotPopStatusForInvalidRequests
unfolding dispatch_packets dispatch_packet parse_packet push dispatch respond encode_response
dispatch_packet_does_not_pop_status_for_invalid_requests = refl
