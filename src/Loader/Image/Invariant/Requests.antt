-- ===== src/Loader/Image/Invariant/Requests.antt =====
-- The invariant through `accepts_load` and `mark_running`, the operations of the I2C side.
use opti_bridge.Prelude.{
  ℕ, ◌%◌, ◌-◌, ◌≤◌, ◌≡◌, refl, subst, false, Bool-cases, Option, none, some, List, length, inl, inr,
  Option-cases, Result, ok, err, arith, slice?, length-copy_at, drop, replicate, get_elem?,
}
use opti_bridge.Protocol.{status_busy, status_bad_state}
use opti_bridge.Frame.{Request}
use opti_bridge.Loader.{
  BpfLoader, LoadOperation, begin_op, data_op, finalize_op, LoaderState, empty, receiving,
  committed, running, failed, mark_running, mark_from, is_pending, image_len,
}
use opti_bridge.Loader.Accept.{
  operation, parse_operation, accepts_load, store, is_running, begin_request, data_request,
  finalize_request,
}
use opti_bridge.Loader.Image.Invariant.{Suits, IsLoader}

begin_request-Suits :
    (l : BpfLoader) (payload : List ℕ) {op : LoadOperation}
    → begin_request payload ≡ ok op
    → Suits l op
unfolding begin_request image_len
begin_request-Suits l payload {op = begin_op b m c} h = ground arith
begin_request-Suits l payload {op = data_op o bytes n} h = absurd (ground arith)
begin_request-Suits l payload {op = finalize_op} h = absurd (ground arith)

-- The three lengths of a Data request that the parser lets through.
abbrev IsDataLength : ℕ → Type 0
IsDataLength n = (5 ≤ n) × (n ≤ 15) × ((n - 3) % 2 ≡ 0)

data_request-Suits :
    (l : BpfLoader) (payload : List ℕ) {op : LoadOperation}
    → IsDataLength (length payload)
    → data_request l payload ≡ ok op
    → Suits l op
unfolding data_request
data_request-Suits l payload {op = begin_op b m c} size h = absurd (ground arith)
data_request-Suits l payload {op = data_op o bytes n} size h =
    ground (arith, length-copy_at 0 (drop 3 payload) (replicate 12 0))
data_request-Suits l payload {op = finalize_op} size h = absurd (ground arith)

finalize_request-Suits :
    (l : BpfLoader) {op : LoadOperation} → finalize_request l ≡ ok op → Suits l op
unfolding finalize_request
finalize_request-Suits l {op = begin_op b m c} h = absurd (ground arith)
finalize_request-Suits l {op = data_op o bytes n} h = absurd (ground arith)
finalize_request-Suits l {op = finalize_op} h = ground arith

parse_operation-Suits :
    (l : BpfLoader) (payload : List ℕ) (tag : ℕ) {op : LoadOperation}
    → parse_operation l payload tag ≡ ok op
    → Suits l op
parse_operation-Suits l payload tag {op} h = ground (
  arith,
  begin_request-Suits l payload {op = op},
  data_request-Suits l payload {op = op},
  finalize_request-Suits l {op = op},
)

operation-Suits :
    (l : BpfLoader) (payload : List ℕ) {op : LoadOperation}
    → operation l payload ≡ ok op
    → Suits l op
unfolding operation
operation-Suits l payload {op} h = elim (Option-cases (get_elem? payload 0)) [
  | inl e ↦ absurd (ground arith)
  | inr (tag, e) ↦ parse_operation-Suits l payload tag (ground arith)
]

-- What `accepts_load` may do: refuse and leave the loader alone, or leave one operation pending
-- that suits the loader's state.
pub data Accepts (l : BpfLoader) : BpfLoader → Result (Unit {0}) ℕ → Type 0 where
  refuses : (status : ℕ) → Accepts l l (err status)
  keeps :
      (op : LoadOperation)
      → l.pending ≡ none
      → is_running l.state ≡ false
      → Suits l op
      → Accepts l (record l { pending = some op }) (ok tt)

store-Accepts :
    (l : BpfLoader) (found : Result LoadOperation ℕ)
    → l.pending ≡ none
    → is_running l.state ≡ false
    → ((op : LoadOperation) → found ≡ ok op → Suits l op)
    → Accepts l (store l found).0 (store l found).1
store-Accepts l (ok op) quiet still fits = keeps op quiet still (fits op refl)
store-Accepts l (err status) quiet still fits = refuses status

is_pending-none : (o : Option LoadOperation) → is_pending o ≡ false → o ≡ none
is_pending-none none h = refl
is_pending-none (some op) h = cc

-- A Load BPF request that is handled without a panic is refused with the loader unchanged, or,
-- with nothing pending and no program running, leaves pending an operation that suits the
-- transfer.
pub accepts_load-Accepts :
    (l : BpfLoader) (request : Request) (l' : BpfLoader) (r : Result (Unit {0}) ℕ)
    → accepts_load l request ≡ some (l', r)
    → Accepts l l' r
unfolding accepts_load
accepts_load-Accepts l request l' r h = elim (Bool-cases (is_pending l.pending)) [
  | inl busy ↦
      let (same, answer) : (l ≡ l') × (err status_busy ≡ r) = ground arith in
      rw (← same, ← answer) (refuses status_busy)
  | inr quiet ↦ elim (Bool-cases (is_running l.state)) [
    | inl busy ↦
        let (same, answer) : (l ≡ l') × (err status_bad_state ≡ r) = ground arith in
        rw (← same, ← answer) (refuses status_bad_state)
    | inr still ↦ elim (Option-cases (slice? request.payload 0 request.payload_len)) [
      | inl outside ↦ absurd (ground arith)
      | inr (payload, inside) ↦
          let stored = store l (operation l payload) in
          let (same, answer) : (stored.0 ≡ l') × (stored.1 ≡ r) = ground arith in
          rw (← same, ← answer)
            (store-Accepts l (operation l payload) (is_pending-none l.pending quiet) still
              (λ op e. operation-Suits l payload e))
    ]
  ]
]

-- Suiting and a transfer depend on the transfer's fields alone, not on what is pending.
pub Suits-pending :
    (l : BpfLoader) (o : Option LoadOperation) (op : LoadOperation)
    → Suits l op
    → Suits (record l { pending = o }) op
Suits-pending l o (begin_op b m c) h = h
Suits-pending l o (data_op at_offset bytes n) h = h
Suits-pending l o finalize_op h = h

Accepts-IsLoader :
    {l l' : BpfLoader} {r : Result (Unit {0}) ℕ} → Accepts l l' r → IsLoader l → IsLoader l'
Accepts-IsLoader (refuses status) v = v
Accepts-IsLoader {l} (keeps op quiet still fits) v = record {
  laid = v.laid;
  hidden = v.hidden;
  transfer = λ h.
      let t = v.transfer h in
      record { image = t.image; sized = t.sized; received = t.received; even = t.even };
  suits = λ other e.
      let same : op ≡ other = cc in
      subst (Suits (record l { pending = some op })) same (Suits-pending l (some op) op fits);
  idle = λ h. absurd (cc);
}

-- From a loader that satisfies the invariant, a Load BPF request that is handled without a panic
-- leads to one that satisfies it, whatever the request holds.
pub accepts_load-IsLoader :
    {l : BpfLoader} (request : Request) {l' : BpfLoader} {r : Result (Unit {0}) ℕ}
    → IsLoader l
    → accepts_load l request ≡ some (l', r)
    → IsLoader l'
accepts_load-IsLoader {l} request {l'} {r} v h =
    Accepts-IsLoader (accepts_load-Accepts l request l' r h) v

mark_from-IsLoader :
    (state : LoaderState) {l : BpfLoader}
    → l.state ≡ state
    → IsLoader l
    → l.pending ≡ none
    → IsLoader (mark_from state l).0
mark_from-IsLoader (committed crc) e v quiet = record {
  laid = v.laid;
  hidden = λ h. absurd (cc);
  transfer = λ h. absurd (cc);
  suits = λ op h. absurd (cc);
  idle = λ h. quiet;
}
mark_from-IsLoader (running crc) e v quiet = v
mark_from-IsLoader (failed status) e v quiet = v
mark_from-IsLoader empty e v quiet = v
mark_from-IsLoader receiving e v quiet = v

-- Marking a program as running keeps the invariant when nothing is pending.
pub mark_running-IsLoader :
    {l : BpfLoader} → IsLoader l → l.pending ≡ none → IsLoader (mark_running l).0
unfolding mark_running
mark_running-IsLoader {l} v quiet = mark_from-IsLoader l.state refl v quiet
