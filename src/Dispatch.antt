-- ===== src/Dispatch.antt =====
-- The command dispatcher of crates/optibridge-protocol/src/lib.rs: `StatusQueue`, `dispatch` and
-- `dispatch_with_bpf_and_executor`. The four `&mut` arguments of the latter are the fields of
-- `Device`; the closure `execute` is a parameter that takes and returns the backing store and
-- whatever else it changes, `E`.
pub mod Rule
pub mod Safety
pub mod Lifecycle
pub mod Starts
pub mod MapCommands
use opti_bridge.Prelude.{
  ℕ, ◌+◌, ◌/◌, ◌^◌, Bool, true, false, Option, none, some, List, [], ◌∷◌, length, get_or, take,
  slice?, u8, le16, to_le32, Result, ok, err, ltb, ◌==◌, if◌then◌else◌, not, bit_and, replicate,
}
use opti_bridge.Protocol.{
  header_len, max_payload, max_frame, cmd_reset, cmd_load_bpf, cmd_start_bpf, cmd_read_bpf_map,
  cmd_write_bpf_map, cmd_read_status, cmd_query_bpf_crc, status_ok, status_bad_command,
  status_bad_length, status_bad_flags, status_not_implemented, status_bad_state,
  map_write_location_size,
}
use opti_bridge.Frame.{Request, ParseError, encode_response, parse_packet}
use opti_bridge.Loader.{BpfLoader, BpfProgramMetadata, query, execution_metadata, mark_running}
use opti_bridge.Loader.Accept.{accepts_load}
use opti_bridge.Loader.Maps.{read_map, write_map}

pub record StatusQueue : Type 0 where
  pub newest : List ℕ
  pub newest_len : ℕ

abbrev pub ready : StatusQueue
ready = record { newest = b'r' ∷ b'e' ∷ b'a' ∷ b'd' ∷ b'y' ∷ replicate 11 0; newest_len = 5 }

-- Only `ready` and `pop` set `newest_len`, to 5 and to 0, so that the slice is within the 16 bytes.
abbrev pub pop : StatusQueue → StatusQueue × List ℕ
pop q = (record q { newest_len = 0 }, take q.newest_len q.newest)

pub data PacketOutcome : Type 0 where
  response : ℕ → PacketOutcome
  empty reset : PacketOutcome

-- `encode_response(..).unwrap_or(HEADER_LEN)`
abbrev pub length_or_header : Result ℕ ParseError → ℕ
length_or_header (ok n) = n
length_or_header (err e) = header_len

-- The source's `response`: the outcome and the new output.
unfoldable pub respond : ℕ → ℕ → List ℕ → List ℕ → PacketOutcome × List ℕ
respond status sequence payload output =
    let (output', result) = encode_response status sequence 0 payload output in
    (response (length_or_header result), output')

unfoldable pub status_response : ℕ → ℕ → List ℕ → PacketOutcome × List ℕ
status_response status sequence output = respond status sequence [] output

abbrev pub refuse : ℕ → Request → StatusQueue → List ℕ → PacketOutcome × StatusQueue × List ℕ
refuse status request queue output =
    let (outcome, output') = respond status request.sequence [] output in (outcome, queue, output')

abbrev pub read_status : Request → StatusQueue → List ℕ → PacketOutcome × StatusQueue × List ℕ
read_status request queue output =
    let (queue', message) = pop queue in
    let (outcome, output') = respond status_ok request.sequence message output in
    (outcome, queue', output')

-- `CMD_LOAD_BPF | CMD_START_BPF | CMD_READ_BPF_MAP | CMD_WRITE_BPF_MAP`
abbrev pub is_bpf_command : ℕ → Bool
is_bpf_command command =
    if command == cmd_load_bpf
    then true
    else if command == cmd_start_bpf
    then true
    else if command == cmd_read_bpf_map
    then true
    else command == cmd_write_bpf_map

unfoldable pub dispatch : Request → StatusQueue → List ℕ → PacketOutcome × StatusQueue × List ℕ
dispatch request queue output =
    if not (request.flags == 0)
    then refuse status_bad_flags request queue output
    else if request.command == cmd_reset
    then if request.payload_len == 0
      then (reset, queue, output)
      else refuse status_bad_length request queue output
    else if request.command == cmd_read_status
    then if request.payload_len == 0
      then read_status request queue output
      else refuse status_bad_length request queue output
    else if is_bpf_command request.command
    then refuse (if request.payload_len == 0 then status_not_implemented else status_bad_length)
        request queue output
    else refuse status_bad_command request queue output

pub record Device : Type 0 where
  pub status_queue : StatusQueue
  pub loader : BpfLoader
  pub map_backing : List ℕ
  pub output : List ℕ

-- `return response(..)` on a device whose other fields are up to date.
abbrev pub answer : ℕ → ℕ → List ℕ → Device → PacketOutcome × Device
answer status sequence payload d =
    let (outcome, output') = respond status sequence payload d.output in
    (outcome, record d { output = output' })

abbrev pub status_of : Result (Unit {0}) ℕ → ℕ
status_of (ok done) = status_ok
status_of (err status) = status

-- `none` is a panic.
unfoldable pub on_load : Request → Device → Option (PacketOutcome × Device)
on_load request d = elim (accepts_load d.loader request) [
  | none ↦ none
  | some (loader', result) ↦
      some (answer (status_of result) request.sequence [] (record d { loader = loader' }))
]

unfoldable pub on_read_map : Request → Device → PacketOutcome × Device
on_read_map request d =
    let byte_length = get_or request.payload 3 0 in
    let byte_offset = le16 (get_or request.payload 1 0) (get_or request.payload 2 0) in
    elim (read_map d.loader (get_or request.payload 0 0) byte_offset byte_length d.map_backing) [
      | ok bytes ↦ answer status_ok request.sequence bytes d
      | err status ↦ answer status request.sequence [] d
    ]

unfoldable pub on_write_map : Request → Device → Option (PacketOutcome × Device)
on_write_map request d =
    let map_location = le16 (get_or request.payload 0 0) (get_or request.payload 1 0) in
    if not (bit_and map_location 0xe000 == 0)
    then some (answer status_bad_length request.sequence [] d)
    else let map_id = u8 (bit_and (map_location / 2 ^ 10) 0x07) in
      let byte_offset = bit_and map_location 0x03ff in
      elim (slice? request.payload map_write_location_size request.payload_len) [
        | none ↦ none
        | some replacement ↦
            let (result, backing') =
              write_map d.loader map_id byte_offset replacement d.map_backing in
            some
              (answer (status_of result) request.sequence [] (record d { map_backing = backing' }))
      ]

unfoldable pub on_query : Request → Device → PacketOutcome × Device
on_query request d = elim (query d.loader) [
  | ok crc ↦ answer status_ok request.sequence (to_le32 crc) d
  | err status ↦ answer status request.sequence [] d
]

-- `dispatch`, on a device.
unfoldable pub on_other : Request → Device → PacketOutcome × Device
on_other request d =
    let (outcome, queue', output') = dispatch request d.status_queue d.output in
    (outcome, record d { status_queue = queue'; output = output' })

-- `loader.mark_running().map(|()| STATUS_OK).unwrap_or(STATUS_BAD_STATE)`
abbrev pub start_marked : BpfLoader × Result (Unit {0}) ℕ → ℕ × BpfLoader
start_marked (loader, ok done) = (status_ok, loader)
start_marked (loader, err status) = (status_bad_state, loader)

-- The status of an execution, and the loader after it.
abbrev pub settle_start : Result ℕ ℕ → BpfLoader → ℕ × BpfLoader
settle_start (ok value) loader =
    if value == 0 then start_marked (mark_running loader) else (status_bad_command, loader)
settle_start (err status) loader = (status, loader)

-- A step that leaves the environment of the executor alone.
module _ {ℓ} {E : Type ℓ} where
  abbrev pub unexecuted : E → PacketOutcome × Device → Option (PacketOutcome × Device × E)
  unexecuted env (outcome, d) = some (outcome, d, env)

  abbrev pub unexecuted? : E → Option (PacketOutcome × Device) → Option (PacketOutcome × Device × E)
  unexecuted? env none = none
  unexecuted? env (some step) = unexecuted env step

module _ {ℓ} {E : Type ℓ}
    (execute : BpfProgramMetadata → List ℕ → E → Result ℕ ℕ × List ℕ × E) where
  unfoldable pub on_start : Request → Device → E → PacketOutcome × Device × E
  on_start request d env = elim (execution_metadata d.loader) [
    | err status ↦ let (outcome, d') = answer status request.sequence [] d in (outcome, d', env)
    | ok metadata ↦
        let (result, backing', env') = execute metadata d.map_backing env in
        let (status, loader') = settle_start result d.loader in
        let (outcome, d') =
          answer status request.sequence []
            (record d { loader = loader'; map_backing = backing' }) in
        (outcome, d', env')
  ]

  unfoldable pub dispatch_with_bpf_and_executor :
      Request → Device → E → Option (PacketOutcome × Device × E)
  dispatch_with_bpf_and_executor request d env =
      if not (request.flags == 0)
      then unexecuted env (answer status_bad_flags request.sequence [] d)
      else if request.command == cmd_load_bpf
      then unexecuted? env (on_load request d)
      else if request.command == cmd_read_bpf_map
      then if not (request.payload_len == 4)
        then unexecuted env (answer status_bad_length request.sequence [] d)
        else unexecuted env (on_read_map request d)
      else if request.command == cmd_write_bpf_map
      then if ltb request.payload_len (map_write_location_size + 1)
        then unexecuted env (answer status_bad_length request.sequence [] d)
        else unexecuted? env (on_write_map request d)
      else if request.command == cmd_start_bpf
      then if not (request.payload_len == 0)
        then unexecuted env (answer status_bad_length request.sequence [] d)
        else some (on_start request d env)
      else if request.command == cmd_query_bpf_crc
      then if not (request.payload_len == 0)
        then unexecuted env (answer status_bad_length request.sequence [] d)
        else unexecuted env (on_query request d)
      else unexecuted env (on_other request d)

-- The closure of `dispatch_with_bpf`, which executes nothing.
abbrev pub no_executor : BpfProgramMetadata → List ℕ → Unit {0} → Result ℕ ℕ × List ℕ × Unit {0}
no_executor metadata backing env = (err status_not_implemented, backing, env)

unfoldable pub dispatch_with_bpf : Request → Device → Option (PacketOutcome × Device × Unit {0})
dispatch_with_bpf request d = dispatch_with_bpf_and_executor no_executor request d tt

unfoldable pub dispatch_packet :
    List ℕ → Bool → StatusQueue → List ℕ → PacketOutcome × StatusQueue × List ℕ
dispatch_packet packet truncated queue output = elim (parse_packet packet truncated) [
  | some request ↦ dispatch request queue output
  | none ↦ (empty, queue, output)
]

unfoldable pub dispatch_packet_with_bpf :
    List ℕ → Bool → Device → Option (PacketOutcome × Device × Unit {0})
dispatch_packet_with_bpf packet truncated d = elim (parse_packet packet truncated) [
  | some request ↦ dispatch_with_bpf request d
  | none ↦ some (empty, d, tt)
]
