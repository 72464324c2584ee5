-- ===== src/Tests/Suite/Runs.antt =====
-- The helpers of the unit tests at the end of crates/optibridge-protocol/src/lib.rs, and runs that
-- collect what the tests look at.
use opti_bridge.Prelude.{
  ℕ, ◌+◌, Bool, Option, none, some, List, [], ◌∷◌, length, take, replicate, copy_at, Result,
}
use opti_bridge.Protocol.{magic, max_payload, max_frame, cmd_read_status, bpf_max_map_bytes}
use opti_bridge.Frame.{Request, ParseError, Parser, push}
use opti_bridge.Loader.{BpfLoader, BpfProgramMetadata}
use opti_bridge.Dispatch.{
  StatusQueue, ready, PacketOutcome, response, empty, reset, Device, dispatch, dispatch_packet,
  dispatch_with_bpf, dispatch_with_bpf_and_executor,
}

abbrev pub empty_request : Request
empty_request = record {
  command = 0;
  sequence = 0;
  flags = 0;
  payload = replicate max_payload 0;
  payload_len = 0;
}

abbrev pub request_bytes : ℕ → List ℕ → List ℕ
request_bytes sequence payload =
    copy_at 5 payload
      (magic ∷ cmd_read_status ∷ length payload ∷ sequence ∷ 0 ∷ replicate max_payload 0)

abbrev pub blank_output : List ℕ
blank_output = replicate max_frame 0

-- The answers of a parser to bytes.
unfoldable pub push_all : Parser → List ℕ → List (Result (Option Request) ParseError)
push_all p [] = []
push_all p (byte ∷ bytes) = let (p', result) = push p byte in result ∷ push_all p' bytes

-- What a test sees of a dispatch: the outcome, and the response in the output.
abbrev pub Seen : Type 0
Seen = PacketOutcome × List ℕ

abbrev pub seen : PacketOutcome → List ℕ → Seen
seen (response n) output = (response n, take n output)
seen empty output = (empty, [])
seen reset output = (reset, [])

unfoldable pub dispatch_all : List Request → StatusQueue → List ℕ → List Seen
dispatch_all [] queue output = []
dispatch_all (request ∷ requests) queue output =
    let (outcome, queue', output') = dispatch request queue output in
    seen outcome output' ∷ dispatch_all requests queue' output'

-- Captures, each with whether it was truncated.
unfoldable pub dispatch_packets : List (List ℕ × Bool) → StatusQueue → List ℕ → List Seen
dispatch_packets [] queue output = []
dispatch_packets ((packet, truncated) ∷ packets) queue output =
    let (outcome, queue', output') = dispatch_packet packet truncated queue output in
    seen outcome output' ∷ dispatch_packets packets queue' output'

-- A device with a loader, a fresh queue and output, and a backing store.
abbrev pub device_of : BpfLoader → List ℕ → Device
device_of loader backing = record {
  status_queue = ready;
  loader = loader;
  map_backing = backing;
  output = blank_output;
}

abbrev pub blank_backing : List ℕ
blank_backing = replicate bpf_max_map_bytes 0

-- The responses and the device at the end; none is a panic.
unfoldable pub bpf_dispatch_all : List Request → Device → Option (List Seen × Device)
bpf_dispatch_all [] d = some ([], d)
bpf_dispatch_all (request ∷ requests) d = elim (dispatch_with_bpf request d) [
  | none ↦ none
  | some (outcome, d', env) ↦ elim (bpf_dispatch_all requests d') [
    | none ↦ none
    | some (rest, d'') ↦ some (seen outcome d'.output ∷ rest, d'')
  ]
]

-- An executor that gives a result and counts its calls.
abbrev pub counting : Result ℕ ℕ → BpfProgramMetadata → List ℕ → ℕ → Result ℕ ℕ × List ℕ × ℕ
counting result metadata backing calls = (result, backing, calls + 1)

-- Each request with the result of its executor; the responses, and the calls of the executors.
unfoldable pub execute_all :
    List (Request × Result ℕ ℕ) → Device → ℕ → Option (List Seen × Device × ℕ)
execute_all [] d calls = some ([], d, calls)
execute_all ((request, result) ∷ requests) d calls =
    elim (dispatch_with_bpf_and_executor (counting result) request d calls) [
      | none ↦ none
      | some (outcome, d', calls') ↦ elim (execute_all requests d' calls') [
        | none ↦ none
        | some (rest, d'', calls'') ↦ some (seen outcome d'.output ∷ rest, d'', calls'')
      ]
    ]
