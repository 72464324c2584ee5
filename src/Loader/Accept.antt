-- ===== src/Loader/Accept.antt =====
-- `accepts_load`: the I2C side of Load BPF, which validates a request and leaves it pending.
use opti_bridge.Prelude.{
  ℕ, ◌+◌, ◌-◌, ◌%◌, Bool, true, false, Option, none, some, List, length, get_or, get_elem?, drop,
  replicate, slice?, copy_at, Result, ok, err, ◌>>=◌, ◌>>◌, fail_if, ok_or, ltb, leb, ◌==◌,
  if◌then◌else◌, not, ◌&&◌, u8, le16, le32,
}
use opti_bridge.Protocol.{status_busy, status_bad_state, status_bad_length, status_bad_command}
use opti_bridge.Frame.{Request}
use opti_bridge.Loader.{
  BpfLoader, LoadOperation, begin_op, data_op, finalize_op, LoaderState, receiving, running,
  image_len, is_bad_image, is_pending,
}

abbrev pub is_running : LoaderState → Bool
is_running (running crc) = true
is_running _ = false

abbrev pub is_receiving : LoaderState → Bool
is_receiving receiving = true
is_receiving _ = false

unfoldable pub begin_request : List ℕ → Result LoadOperation ℕ
begin_request payload = do
  let bytecode_len = le16 (get_or payload 1 0) (get_or payload 2 0)
  let map_count = get_or payload 3 0
  let expected_crc =
      le32 (get_or payload 4 0) (get_or payload 5 0) (get_or payload 6 0) (get_or payload 7 0)
  image ← ok_or (image_len bytecode_len map_count) status_bad_length
  fail_if (is_bad_image bytecode_len map_count image) status_bad_length
  ok (begin_op bytecode_len map_count expected_crc)

unfoldable pub data_request : BpfLoader → List ℕ → Result LoadOperation ℕ
data_request l payload = do
  fail_if (not (is_receiving l.state)) status_bad_state
  let offset = le16 (get_or payload 1 0) (get_or payload 2 0)
  fail_if (not (offset == l.next_offset)) status_bad_state
  let len = length payload - 3
  fail_if (ltb l.image_len (offset + len)) status_bad_length
  ok (data_op offset (copy_at 0 (drop 3 payload) (replicate 12 0)) (u8 len))

unfoldable pub finalize_request : BpfLoader → Result LoadOperation ℕ
finalize_request l = do
  fail_if (not (is_receiving l.state)) status_bad_state
  fail_if (not (l.next_offset == l.image_len)) status_bad_state
  ok finalize_op

abbrev pub parse_operation : BpfLoader → List ℕ → ℕ → Result LoadOperation ℕ
parse_operation l payload tag =
    if tag == 0 && length payload == 8
    then begin_request payload
    else if tag == 1
        && (leb 5 (length payload) && leb (length payload) 15 && (length payload - 3) % 2 == 0)
    then data_request l payload
    else if tag == 2 && length payload == 1
    then finalize_request l
    else if leb tag 2
    then err status_bad_length
    else err status_bad_command

-- The operation that a payload asks for; an empty payload asks for none.
unfoldable pub operation : BpfLoader → List ℕ → Result LoadOperation ℕ
operation l payload = elim (get_elem? payload 0) [
  | none ↦ err status_bad_command
  | some tag ↦ parse_operation l payload tag
]

abbrev pub store : BpfLoader → Result LoadOperation ℕ → BpfLoader × Result (Unit {0}) ℕ
store l (ok found) = (record l { pending = some found }, ok tt)
store l (err status) = (l, err status)

-- `none` is the panic of slicing the payload beyond its 16 bytes, which a `Request` with public
-- fields allows.
unfoldable pub accepts_load : BpfLoader → Request → Option (BpfLoader × Result (Unit {0}) ℕ)
accepts_load l request =
    if is_pending l.pending
    then some (l, err status_busy)
    else if is_running l.state
    then some (l, err status_bad_state)
    else elim (slice? request.payload 0 request.payload_len) [
      | none ↦ none
      | some payload ↦ some (store l (operation l payload))
    ]
