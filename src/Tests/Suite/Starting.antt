-- ===== src/Tests/Suite/Starting.antt =====
-- The unit tests of Start BPF in crates/optibridge-protocol/src/lib.rs. A
-- definition with the name of a test is what it asserts of a run.
use opti_bridge.Prelude.{
  ℕ, ◌≡◌, refl, Bool, true, Option, none, some, List, [], ◌∷◌, ◌++◌, replicate, Result, ok, err,
  window,
}
use opti_bridge.Protocol.{
  cmd_start_bpf, cmd_query_bpf_crc, status_ok, status_bad_command, status_bad_length,
  status_bad_flags, status_busy, status_bad_state, status_no_program,
}
use opti_bridge.Crc.{crc32_iso_hdlc, crc32_update, crc32_finish}
use opti_bridge.Frame.{Request, encode_response}
use opti_bridge.Loader.{
  BpfLoader, new, query, image_len, has_pending, execution_metadata, committed_metadata, fill_maps,
  mark_running,
}
use opti_bridge.Loader.Accept.{
  accepts_load, operation, begin_request, data_request, finalize_request,
}
use opti_bridge.Loader.Image.{execute_pending, begin, program, finalize, map_layouts, layouts_from}
use opti_bridge.Dispatch.{
  Device, respond, dispatch_with_bpf, dispatch_with_bpf_and_executor, on_start, on_load, on_query,
}
use opti_bridge.Tests.Suite.Runs.{
  empty_request, Seen, device_of, blank_backing, bpf_dispatch_all, execute_all,
}
use opti_bridge.Tests.Suite.Dispatching.{bare}
use opti_bridge.Tests.Suite.Flash.{new_flash}
use opti_bridge.Tests.Suite.Loading.{load, play, loader_of, load_image, load_request, begin_payload}

abbrev start_request : ℕ → Request
start_request sequence = record empty_request { command = cmd_start_bpf; sequence = sequence }

abbrev bytecode : List ℕ
bytecode = replicate 8 0

-- A loader with a committed program without maps.
abbrev loaded_program : BpfLoader
loaded_program = loader_of (play (load_image 0 1 bytecode) new new_flash)

-- A query and a Begin after a Start, and a second Start.
abbrev start_again :
    Option (List Seen × Device × ℕ)
    → Option (List Seen × ℕ × Result ℕ ℕ × Result (Unit {0}) ℕ × List Seen × ℕ)
start_again none = none
start_again (some (first, d, calls)) =
    elim (accepts_load d.loader (load_request (begin_payload 8 0 0))) [
      | none ↦ none
      | some (l, refused) ↦
          elim (execute_all ((start_request 12, ok 0) ∷ []) (record d { loader = l }) calls) [
            | none ↦ none
            | some (second, d', calls') ↦
                some (first, calls, query d.loader, refused, second, calls')
          ]
    ]

abbrev start_bpf_executes_once_and_enters_running_state_run :
    Option (List Seen × ℕ × Result ℕ ℕ × Result (Unit {0}) ℕ × List Seen × ℕ)
start_bpf_executes_once_and_enters_running_state_run =
    start_again
      (execute_all ((start_request 12, ok 0) ∷ []) (device_of loaded_program blank_backing) 0)

abbrev StartBpfExecutesOnceAndEntersRunningState : Type 0
StartBpfExecutesOnceAndEntersRunningState =
    start_bpf_executes_once_and_enters_running_state_run
    ≡ some (
      bare status_ok 12 ∷ [],
      1,
      ok (crc32_iso_hdlc bytecode),
      err status_bad_state,
      bare status_bad_state 12 ∷ [],
      1,
    )

start_bpf_executes_once_and_enters_running_state : StartBpfExecutesOnceAndEntersRunningState
unfolding play accepts_load operation begin_request data_request finalize_request image_len query
    execute_pending begin program finalize map_layouts layouts_from window crc32_iso_hdlc
    crc32_update crc32_finish execute_all dispatch_with_bpf_and_executor on_start execution_metadata
    committed_metadata fill_maps mark_running respond encode_response
start_bpf_executes_once_and_enters_running_state = refl

-- Two Starts of a device whose loader then gets a program.
abbrev start_loaded : Option (List Seen × Device × ℕ) → Option (List Seen × ℕ × List Seen × ℕ)
start_loaded none = none
start_loaded (some (before, d, calls)) =
    let l = loader_of (play (load_image 0 1 bytecode) d.loader new_flash) in
    elim (execute_all ((start_request 14, ok 1) ∷ (start_request 15, err status_bad_command) ∷ [])
      (record d { loader = l }) calls) [
        | none ↦ none
        | some (after, d', calls') ↦ some (before, calls, after, calls')
      ]

abbrev start_bpf_rejects_invalid_requests_and_execution_failures_run :
    Option (List Seen × ℕ × List Seen × ℕ)
start_bpf_rejects_invalid_requests_and_execution_failures_run = start_loaded (
    execute_all
      ((start_request 13, ok 0)
        ∷ (record (start_request 13) { flags = 1 }, ok 0)
        ∷ (record (start_request 13) { payload_len = 1 }, ok 0)
        ∷ [])
      (device_of new blank_backing) 0)

abbrev StartBpfRejectsInvalidRequestsAndExecutionFailures : Type 0
StartBpfRejectsInvalidRequestsAndExecutionFailures =
    start_bpf_rejects_invalid_requests_and_execution_failures_run
    ≡ some (
      bare status_no_program 13 ∷ bare status_bad_flags 13 ∷ bare status_bad_length 13 ∷ [],
      0,
      bare status_bad_command 14 ∷ bare status_bad_command 15 ∷ [],
      2,
    )

start_bpf_rejects_invalid_requests_and_execution_failures :
    StartBpfRejectsInvalidRequestsAndExecutionFailures
unfolding play accepts_load operation begin_request data_request finalize_request image_len query
    execute_pending begin program finalize map_layouts layouts_from window crc32_iso_hdlc
    crc32_update crc32_finish execute_all dispatch_with_bpf_and_executor on_start execution_metadata
    committed_metadata fill_maps mark_running respond encode_response
start_bpf_rejects_invalid_requests_and_execution_failures = refl

-- What a device is asked after the Start.
abbrev pending_after : Option (List Seen × Device × ℕ) → Option (List Seen × ℕ × Bool × Result ℕ ℕ)
pending_after none = none
pending_after (some (answers, d, calls)) =
    some (answers, calls, has_pending d.loader, query d.loader)

abbrev start_bpf_rejects_pending_loads_without_executing_run :
    Option (List Seen × ℕ × Bool × Result ℕ ℕ)
start_bpf_rejects_pending_loads_without_executing_run =
    let reload = load (begin_payload 8 0 (crc32_iso_hdlc bytecode)) in
    let l = loader_of (play (load_image 0 1 bytecode ++ reload ∷ []) new new_flash) in
    pending_after (execute_all ((start_request 16, ok 0) ∷ []) (device_of l blank_backing) 0)

abbrev StartBpfRejectsPendingLoadsWithoutExecuting : Type 0
StartBpfRejectsPendingLoadsWithoutExecuting =
    start_bpf_rejects_pending_loads_without_executing_run
    ≡ some (bare status_busy 16 ∷ [], 0, true, err status_busy)

start_bpf_rejects_pending_loads_without_executing : StartBpfRejectsPendingLoadsWithoutExecuting
unfolding play accepts_load operation begin_request data_request finalize_request image_len query
    execute_pending begin program finalize map_layouts layouts_from window crc32_iso_hdlc
    crc32_update crc32_finish execute_all dispatch_with_bpf_and_executor on_start execution_metadata
    respond encode_response
start_bpf_rejects_pending_loads_without_executing = refl

-- The answers of a run on a device.
abbrev pub seen_of : Option (List Seen × Device) → Option (List Seen)
seen_of none = none
seen_of (some (answers, d)) = some answers

abbrev dispatches_bpf_operations_and_query_responses_run : Option (List Seen)
dispatches_bpf_operations_and_query_responses_run =
    let request = record (load_request (begin_payload 8 0 0)) { sequence = 3 } in
    seen_of (
      bpf_dispatch_all
        (request
          ∷ record request { command = cmd_query_bpf_crc; payload_len = 0; sequence = 4 }
          ∷ [])
        (device_of new blank_backing))

abbrev DispatchesBpfOperationsAndQueryResponses : Type 0
DispatchesBpfOperationsAndQueryResponses =
    dispatches_bpf_operations_and_query_responses_run
    ≡ some (bare status_ok 3 ∷ bare status_busy 4 ∷ [])

dispatches_bpf_operations_and_query_responses : DispatchesBpfOperationsAndQueryResponses
unfolding bpf_dispatch_all dispatch_with_bpf dispatch_with_bpf_and_executor on_load on_query query
    accepts_load operation begin_request image_len respond encode_response
dispatches_bpf_operations_and_query_responses = refl
