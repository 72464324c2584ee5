-- ===== src/Dispatch/Safety/Handlers.antt =====
-- The handlers of the dispatcher one by one: their replies, and the device after them.
use opti_bridge.Prelude.{
  ℕ, if_rule, ◌/◌, ◌^◌, drop, ◌≤◌, ◌≡◌, ap, ◌∙◌, Bool-cases, some, Option-cases, List, [], length,
  take, get_or, inl, inr, Result, Result-cases, ◌==◌, not, arith, length-take, to_le32, bit_and,
  le16, u8,
}
use opti_bridge.Protocol.{
  max_frame, bpf_max_map_bytes, status_ok, status_bad_length, status_bad_flags, status_bad_command,
  cmd_reset, cmd_read_status, map_write_location_size,
}
use opti_bridge.Frame.{Request, IsRequest}
use opti_bridge.Loader.{BpfLoader, query}
use opti_bridge.Loader.Accept.{accepts_load}
use opti_bridge.Loader.Maps.{read_map, write_map}
use opti_bridge.Loader.Maps.Access.{read_map_iff, write_map_err, write_map_frame, start_of}
use opti_bridge.Loader.Image.Invariant.{IsLoader}
use opti_bridge.Dispatch.{
  StatusQueue, PacketOutcome, refuse, dispatch, Device, status_of, read_status, on_load,
  on_read_map, on_write_map, on_query, on_other, is_bpf_command,
}
use opti_bridge.Loader.Image.Invariant.Requests.{accepts_load-IsLoader}
use opti_bridge.Dispatch.Safety.{
  Reply, silent, IsQueue, IsDevice, Serves, Serves?, answer-Serves, respond-Reply, empty_short,
  slice-IsRequest,
}

accepts_load_total :
    (l : BpfLoader) (request : Request)
    → IsRequest request
    → (step : BpfLoader × Result (Unit {0}) ℕ) × (accepts_load l request ≡ some step)
unfolding accepts_load
accepts_load_total l request v = elim (Option-cases (accepts_load l request)) [
  | inl panic ↦ absurd (ground arith)
  | inr found ↦ found
]

pub on_load-Serves :
    (request : Request) (d : Device)
    → IsRequest request
    → IsDevice d
    → Serves? request (on_load request d)
unfolding on_load
on_load-Serves request d r v =
    let (step, e) = accepts_load_total d.loader request r in
    rw (e, on_load)
      (answer-Serves (status_of step.1) request [] (record d { loader = step.0 }) empty_short
        record {
          queue = v.queue;
          loader = accepts_load-IsLoader request v.loader e;
          backing_full = v.backing_full;
          output_full = v.output_full;
        })

pub on_read_map-Serves :
    (request : Request) (d : Device) → IsDevice d → Serves request (on_read_map request d)
unfolding on_read_map
on_read_map-Serves request d v = elim (Result-cases found) [
  | inr (status, e) ↦ rw (e, on_read_map) (answer-Serves status request [] d empty_short v)
  | inl (bytes, e) ↦
      let (inside, some_bytes, few, window) =
        (read_map_iff d.loader v.loader.laid map_id byte_offset n d.map_backing bytes
            v.backing_full).0
          e in
      rw (e, on_read_map)
        (answer-Serves status_ok request bytes d
          (omega (
            arith,
            ap length window,
            length-take n (drop (start_of d.loader map_id byte_offset) d.map_backing),
          ))
          v)
]
  where
    map_id : ℕ
    map_id = get_or request.payload 0 0

    n : ℕ
    n = get_or request.payload 3 0

    byte_offset : ℕ
    byte_offset = le16 (get_or request.payload 1 0) (get_or request.payload 2 0)

    found : Result (List ℕ) ℕ
    found = read_map d.loader map_id byte_offset n d.map_backing

length-write_map :
    (l : BpfLoader) (map_id byte_offset : ℕ) (replacement backing : List ℕ)
    → IsLoader l
    → length backing ≡ bpf_max_map_bytes
    → length (write_map l map_id byte_offset replacement backing).1 ≡ bpf_max_map_bytes
length-write_map l map_id byte_offset replacement backing v full = elim (Result-cases w.0) [
  | inr (status, e) ↦
      ap length (write_map_err l map_id byte_offset replacement backing w.1 (λ i. (e i, w.1)))
      ∙ full
  | inl (done, e) ↦
      (write_map_frame l v.laid map_id byte_offset replacement backing w.1 full (λ i. (e i, w.1))).0
]
  where
    w : Result (Unit {0}) ℕ × List ℕ
    w = write_map l map_id byte_offset replacement backing

pub on_write_map-Serves :
    (request : Request) (d : Device)
    → IsRequest request
    → map_write_location_size ≤ request.payload_len
    → IsDevice d
    → Serves? request (on_write_map request d)
unfolding on_write_map
on_write_map-Serves request d r long v =
    elim (Bool-cases (not (bit_and map_location 0xe000 == 0))) [
      | inl reserved ↦
          rw (reserved, on_write_map) (answer-Serves status_bad_length request [] d empty_short v)
      | inr fits ↦
          let (replacement, e) = slice-IsRequest request map_write_location_size r long in
          let w =
            write_map d.loader (u8 (bit_and (map_location / 2 ^ 10) 0x07))
              (bit_and map_location 0x03ff) replacement d.map_backing in
          rw (fits, e, on_write_map)
            (answer-Serves (status_of w.0) request [] (record d { map_backing = w.1 }) empty_short
              record {
                queue = v.queue;
                loader = v.loader;
                backing_full =
                    length-write_map d.loader _ _ replacement d.map_backing v.loader v.backing_full;
                output_full = v.output_full;
              })
    ]
  where
    map_location : ℕ
    map_location = le16 (get_or request.payload 0 0) (get_or request.payload 1 0)

pub on_query-Serves :
    (request : Request) (d : Device) → IsDevice d → Serves request (on_query request d)
unfolding on_query
on_query-Serves request d v = elim (Result-cases (query d.loader)) [
  | inl (crc, e) ↦
      rw (e, on_query) (answer-Serves status_ok request (to_le32 crc) d (omega arith) v)
  | inr (status, e) ↦ rw (e, on_query) (answer-Serves status request [] d empty_short v)
]

-- `dispatch` replies and keeps the status queue and the output well-formed.
abbrev Dispatched : Request → PacketOutcome × StatusQueue × List ℕ → Type 0
Dispatched request (outcome, queue, output) =
    Reply request.sequence output outcome × IsQueue queue × (length output ≡ max_frame)

refuse-Dispatched :
    (status : ℕ) (request : Request) (q : StatusQueue) (output : List ℕ)
    → IsQueue q
    → length output ≡ max_frame
    → Dispatched request (refuse status request q output)
refuse-Dispatched status request q output v full =
    let (reply, kept) = respond-Reply status request.sequence [] output empty_short full in
    (reply, v, kept)

read_status-Dispatched :
    (request : Request) (q : StatusQueue) (output : List ℕ)
    → IsQueue q
    → length output ≡ max_frame
    → Dispatched request (read_status request q output)
read_status-Dispatched request q output v full =
    let (reply, kept) =
      respond-Reply status_ok request.sequence (take q.newest_len q.newest) output
        (omega (arith, length-take q.newest_len q.newest, v.newest_bound)) full in
    (reply, record { newest_full = v.newest_full; newest_bound = omega arith }, kept)

dispatch-Dispatched :
    (request : Request) (q : StatusQueue) (output : List ℕ)
    → IsQueue q
    → length output ≡ max_frame
    → Dispatched request (dispatch request q output)
unfolding dispatch
dispatch-Dispatched request q output v full =
    if_rule P (not (request.flags == 0)) (λ _. refused status_bad_flags)
      λ _.
        if_rule P (request.command == cmd_reset)
          (λ _.
            if_rule P (request.payload_len == 0) (λ _. (silent, v, full))
              (λ _. refused status_bad_length))
          λ _.
            if_rule P (request.command == cmd_read_status)
              (λ _.
                if_rule P (request.payload_len == 0)
                  (λ _. read_status-Dispatched request q output v full)
                  (λ _. refused status_bad_length))
              λ _.
                if_rule P (is_bpf_command request.command) (λ _. refused _)
                  (λ _. refused status_bad_command)
  where
    P : PacketOutcome × StatusQueue × List ℕ → Type 0
    P = Dispatched request

    refused : (status : ℕ) → Dispatched request (refuse status request q output)
    refused status = refuse-Dispatched status request q output v full

pub on_other-Serves :
    (request : Request) (d : Device) → IsDevice d → Serves request (on_other request d)
unfolding on_other
on_other-Serves request d v =
    let (reply, queue, full) =
      dispatch-Dispatched request d.status_queue d.output v.queue v.output_full in
    (
      reply,
      record {
        queue = queue;
        loader = v.loader;
        backing_full = v.backing_full;
        output_full = full;
      },
    )
