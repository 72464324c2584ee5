-- ===== src/Loader/Image/Nor/Bytes.antt =====
-- Parts of a list of bytes, and the operation that a Load BPF request of bytes asks for.
use opti_bridge.Prelude.{
  ℕ, zero, suc, ◌-◌, ◌^◌, ◌<◌, ◌≡◌, sym, subst, ◌⊎◌, inl, inr, some, List, [], ◌∷◌, take, drop,
  get_or, copy_at, replicate, slice?, get_elem?, Result, ok, Option-cases, Result-cases, ◌∙◌,
  Bool-cases, arith,
}
use opti_bridge.Crc.Detect.{IsBytes}
use opti_bridge.Frame.{Request}
use opti_bridge.Loader.{BpfLoader, LoadOperation, begin_op, data_op, finalize_op, is_pending}
use opti_bridge.Loader.Accept.{
  operation, accepts_load, store, is_running, begin_request, data_request, finalize_request,
}

-- What the bytes of a request can spell.
abbrev pub FromBytes : LoadOperation → Type 0
FromBytes (begin_op bytecode_len map_count crc) = crc < 2 ^ 32
FromBytes (data_op offset bytes len) = IsBytes bytes
FromBytes finalize_op = Unit

pub take-IsBytes : (n : ℕ) (bytes : List ℕ) → IsBytes bytes → IsBytes (take n bytes)
take-IsBytes zero bytes h = tt
take-IsBytes (suc n) [] h = tt
take-IsBytes (suc n) (b ∷ bytes) h = (h.0, take-IsBytes n bytes h.1)

drop-IsBytes : (n : ℕ) (bytes : List ℕ) → IsBytes bytes → IsBytes (drop n bytes)
drop-IsBytes zero bytes h = h
drop-IsBytes (suc n) [] h = tt
drop-IsBytes (suc n) (b ∷ bytes) h = drop-IsBytes n bytes h.1

pub copy_at-IsBytes :
    (i : ℕ) (src bytes : List ℕ) → IsBytes src → IsBytes bytes → IsBytes (copy_at i src bytes)
copy_at-IsBytes i src [] g h = tt
copy_at-IsBytes zero [] (b ∷ bytes) g h = h
copy_at-IsBytes zero (s ∷ src) (b ∷ bytes) g h = (g.0, copy_at-IsBytes zero src bytes g.1 h.1)
copy_at-IsBytes (suc i) src (b ∷ bytes) g h = (h.0, copy_at-IsBytes i src bytes g h.1)

pub get_or-IsByte : (bytes : List ℕ) (i : ℕ) → IsBytes bytes → get_or bytes i 0 < 2 ^ 8
get_or-IsByte [] i h = omega arith
get_or-IsByte (b ∷ bytes) zero h = h.0
get_or-IsByte (b ∷ bytes) (suc i) h = get_or-IsByte bytes i h.1

begin_request-FromBytes :
    (payload : List ℕ) {op : LoadOperation}
    → IsBytes payload
    → begin_request payload ≡ ok op
    → FromBytes op
unfolding begin_request
begin_request-FromBytes payload {op = begin_op b m c} bytes h = ground (
  arith,
  get_or-IsByte payload 4 bytes,
  get_or-IsByte payload 5 bytes,
  get_or-IsByte payload 6 bytes,
  get_or-IsByte payload 7 bytes,
)
begin_request-FromBytes payload {op = data_op o bytes n} fine h = absurd (ground arith)
begin_request-FromBytes payload {op = finalize_op} fine h = tt

pub data_request-FromBytes :
    (l : BpfLoader) (payload : List ℕ) {op : LoadOperation}
    → IsBytes payload
    → data_request l payload ≡ ok op
    → FromBytes op
unfolding data_request
data_request-FromBytes l payload {op = begin_op b m c} fine h = absurd (ground arith)
data_request-FromBytes l payload {op = data_op o bytes n} fine h =
    let same : copy_at 0 (drop 3 payload) (replicate 12 0) ≡ bytes = ground arith in
    subst IsBytes same (
      copy_at-IsBytes 0 (drop 3 payload) (replicate 12 0) (drop-IsBytes 3 payload fine)
        (omega arith))
data_request-FromBytes l payload {op = finalize_op} fine h = tt

finalize_request-FromBytes :
    (l : BpfLoader) {op : LoadOperation} → finalize_request l ≡ ok op → FromBytes op
unfolding finalize_request
finalize_request-FromBytes l {op = begin_op b m c} h = absurd (ground arith)
finalize_request-FromBytes l {op = data_op o bytes n} h = absurd (ground arith)
finalize_request-FromBytes l {op = finalize_op} h = tt

operation-FromBytes :
    (l : BpfLoader) (payload : List ℕ) {op : LoadOperation}
    → IsBytes payload
    → operation l payload ≡ ok op
    → FromBytes op
unfolding operation
operation-FromBytes l payload {op} fine h = elim (Option-cases (get_elem? payload 0)) [
  | inl e ↦ absurd (ground arith)
  | inr (tag, e) ↦ ground (
    arith,
    begin_request-FromBytes payload {op = op} fine,
    data_request-FromBytes l payload {op = op} fine,
    finalize_request-FromBytes l {op = op},
  )
]

pub slice?-IsBytes :
    (bytes : List ℕ) (from to : ℕ) {part : List ℕ}
    → IsBytes bytes
    → slice? bytes from to ≡ some part
    → IsBytes part
slice?-IsBytes bytes from to {part} fine h =
    let same : take (to - from) (drop from bytes) ≡ part = ground arith in
    subst IsBytes same (take-IsBytes (to - from) (drop from bytes) (drop-IsBytes from bytes fine))

-- A request leaves pending what was pending, or the operation that its payload asks for.
pub pending_after :
    (l : BpfLoader) (request : Request) {l' : BpfLoader} {r : Result (Unit {0}) ℕ}
    → accepts_load l request ≡ some (l', r)
    → (l'.pending ≡ l.pending)
      ⊎ ((payload : List ℕ) × (slice? request.payload 0 request.payload_len ≡ some payload)
          × (l'.pending ≡ ((store l (operation l payload)).0).pending))
unfolding accepts_load
pending_after l request h = elim (Option-cases (slice? request.payload 0 request.payload_len)) [
  | inl outside ↦ inl (ground arith)
  | inr (payload, inside) ↦ elim (Bool-cases (is_pending l.pending)) [
    | inl busy ↦ inl (ground arith)
    | inr quiet ↦ elim (Bool-cases (is_running l.state)) [
      | inl runs ↦ inl (ground arith)
      | inr still ↦ inr (payload, inside, ground arith)
    ]
  ]
]

-- What a Load BPF request of bytes leaves pending, bytes spell.
pub accepts_load-FromBytes :
    (l : BpfLoader) (request : Request) {l' : BpfLoader} {r : Result (Unit {0}) ℕ}
    → IsBytes request.payload
    → ((op : LoadOperation) → l.pending ≡ some op → FromBytes op)
    → accepts_load l request ≡ some (l', r)
    → (op : LoadOperation) → l'.pending ≡ some op
    → FromBytes op
accepts_load-FromBytes l request fine before h op e = elim (pending_after l request h) [
  | inl same ↦ before op (sym same ∙ e)
  | inr (payload, inside, same) ↦ elim (Result-cases (operation l payload)) [
    | inr (status, refused) ↦ before op (cc)
    | inl (found, asked) ↦
        operation-FromBytes l payload {op = op} (slice?-IsBytes request.payload 0 _ fine inside)
          (ground (arith, e, same, asked))
  ]
]
