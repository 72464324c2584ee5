-- ===== src/Dispatch/Safety.antt =====
-- Replies of the dispatcher, and a device whose parts satisfy their invariants.
pub mod Handlers
pub mod Serving
use opti_bridge.Prelude.{
  ℕ, if_rule, ◌+◌, ◌-◌, ◌/◌, ◌^◌, drop, ◌≤◌, ◌≡◌, refl, ap, ◌∙◌, Bool-cases, Option, none, some,
  Option-cases, List, [], length, take, get_or, slice?, inl, inr, Result, ok, err, Result-cases,
  ◌==◌, not, arith, length-take, to_le32, bit_and, le16, u8,
}
use opti_bridge.Protocol.{
  header_len, max_payload, max_frame, bpf_max_map_bytes, status_ok, status_bad_length,
  status_bad_flags, status_bad_command, cmd_reset, cmd_read_status, map_write_location_size,
}
use opti_bridge.Frame.{Request, IsRequest}
use opti_bridge.Frame.Packet.{wire}
use opti_bridge.Frame.Response.{encode_response-wire}
use opti_bridge.Loader.{BpfLoader, BpfProgramMetadata, query, execution_metadata, mark_running}
use opti_bridge.Loader.Accept.{accepts_load}
use opti_bridge.Loader.Maps.{read_map, write_map}
use opti_bridge.Loader.Maps.Access.{read_map_iff, write_map_err, write_map_frame, start_of}
use opti_bridge.Loader.Image.Invariant.{IsLoader}
use opti_bridge.Dispatch.Rule.{dispatch_rule}
use opti_bridge.Dispatch.{
  StatusQueue, PacketOutcome, response, reset, respond, refuse, dispatch, Device, answer, status_of,
  read_status, on_load, on_read_map, on_write_map, on_query, on_other, settle_start, start_marked,
  is_bpf_command, on_start, dispatch_with_bpf_and_executor, unexecuted?,
}

-- A reply on the wire with the request's sequence and zero flags, or the silence of a reset.
pub data Reply (sequence : ℕ) (output : List ℕ) : PacketOutcome → Type 0 where
  replied :
      (status n : ℕ) (payload : List ℕ)
      → length payload ≤ max_payload
      → n ≡ header_len + length payload
      → take n output ≡ wire status sequence 0 payload
      → Reply sequence output (response n)
  silent : Reply sequence output reset

pub record IsQueue (q : StatusQueue) : Type 0 where
  pub newest_full : length q.newest ≡ max_payload
  pub newest_bound : q.newest_len ≤ max_payload

pub record IsDevice (d : Device) : Type 0 where
  pub queue : IsQueue d.status_queue
  pub loader : IsLoader d.loader
  pub backing_full : length d.map_backing ≡ bpf_max_map_bytes
  pub output_full : length d.output ≡ max_frame

pub respond-Reply :
    (status sequence : ℕ) (payload output : List ℕ)
    → length payload ≤ max_payload
    → length output ≡ max_frame
    → Reply sequence
        (respond status sequence payload output).1
        (respond status sequence payload output).0
      × (length (respond status sequence payload output).1 ≡ max_frame)
unfolding respond
respond-Reply status sequence payload output short full =
    let (encoded, written, kept) =
      encode_response-wire status sequence 0 payload output short full in
    (
      rw (encoded, respond)
          (replied status (header_len + length payload) payload short refl written),
      kept,
    )

-- A step that replies and keeps the device's invariant; a panic is none.
abbrev pub Serves : Request → PacketOutcome × Device → Type 0
Serves request (outcome, d) = Reply request.sequence d.output outcome × IsDevice d

answer-Serves :
    (status : ℕ) (request : Request) (payload : List ℕ) (d : Device)
    → length payload ≤ max_payload
    → IsDevice d
    → Serves request (answer status request.sequence payload d)
answer-Serves status request payload d short v =
    let (reply, kept) =
      respond-Reply status request.sequence payload d.output short v.output_full in
    (
      reply,
      record {
        queue = v.queue;
        loader = v.loader;
        backing_full = v.backing_full;
        output_full = kept;
      },
    )

empty_short : length {A = ℕ} [] ≤ max_payload
empty_short = omega arith

-- The payload of a request that came from a parser can be sliced.
pub slice-IsRequest :
    (request : Request) (from : ℕ)
    → IsRequest request
    → from ≤ request.payload_len
    → (payload : List ℕ) × (slice? request.payload from request.payload_len ≡ some payload)
slice-IsRequest request from v h =
    (take (request.payload_len - from) (drop from request.payload), ground arith)

abbrev Serves? : Request → Option (PacketOutcome × Device) → Type 0
Serves? request none = ⊥
Serves? request (some step) = Serves request step
