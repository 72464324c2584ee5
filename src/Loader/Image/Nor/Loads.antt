-- ===== src/Loader/Image/Nor/Loads.antt =====
-- The Load BPF requests of a whole load: Begin, the image in Data requests, Finalize, with
-- `execute_pending` after each.
use opti_bridge.Prelude.{
  ℕ, ◌+◌, ◌-◌, ◌*◌, ◌%◌, ◌^◌, ◌≤◌, ◌<◌, ◌≡◌, ap, sym, get_or-window, ◌∙◌, Option, none, some, List,
  [], ◌∷◌, ◌++◌, length, copy_at, replicate, get_or, to_le16, to_le32, le16-to_le16, le32-to_le32,
  take-copy_at_zero, length-copy_at, ok, arith, false, window,
}
use opti_bridge.Protocol.{bpf_map_descriptor_size, max_payload, cmd_load_bpf}
use opti_bridge.Crc.Detect.{IsBytes}
use opti_bridge.Frame.{Request}
use opti_bridge.Frame.Packet.{request_for}
use opti_bridge.Loader.{
  BpfFlash, BpfLoader, MapLayout, no_layouts, LoadOperation, begin_op, data_op, finalize_op,
  receiving, committed,
}
use opti_bridge.Loader.Accept.{
  accepts_load, operation, begin_request, data_request, finalize_request, is_running,
}
use opti_bridge.Loader.Image.{execute_pending}
use opti_bridge.Loader.Image.Invariant.{IsImage, image_len-IsImage}
use opti_bridge.Loader.Image.Nor.Agrees.{body, layouts_in_cong}
use opti_bridge.Loader.Image.Nor.Bytes.{copy_at-IsBytes}
use opti_bridge.Loader.Image.Nor.{Answers, layouts_in}

-- `request_for` a payload.
abbrev pub load : List ℕ → Request
load payload = request_for cmd_load_bpf 0 0 payload

abbrev pub begin_payload : ℕ → ℕ → ℕ → List ℕ
begin_payload b m c = 0 ∷ (to_le16 b ++ m ∷ to_le32 c)

abbrev pub data_payload : ℕ → List ℕ → List ℕ
data_payload offset chunk = 1 ∷ (to_le16 offset ++ chunk)

abbrev pub finalize_payload : List ℕ
finalize_payload = 2 ∷ []

-- A request whose payload asks for an operation is accepted.
pub accepted :
    (l : BpfLoader) (payload : List ℕ) (op : LoadOperation)
    → l.pending ≡ none
    → is_running l.state ≡ false
    → length payload ≤ max_payload
    → operation l payload ≡ ok op
    → accepts_load l (load payload) ≡ some (record l { pending = some op }, ok tt)
unfolding accepts_load
accepted l payload op quiet still short asked = ground (
  arith,
  quiet,
  still,
  asked,
  length-copy_at 0 payload (replicate 16 0),
  take-copy_at_zero payload (replicate 16 0) (omega (arith, short)),
)

pub operation-begin :
    (l : BpfLoader) (b m c : ℕ)
    → IsImage b m
    → c < 2 ^ 32
    → operation l (begin_payload b m c) ≡ ok (begin_op b m c)
unfolding operation begin_request
operation-begin l b m c image word = ground (
  arith,
  image_len-IsImage image,
  image.nonempty,
  image.bytecode_max,
  image.aligned,
  image.maps_max,
  image.total_max,
  le16-to_le16 b (omega (arith, image.bytecode_max)),
  le32-to_le32 c word,
)

-- The bytes of a Data request.
pub record IsChunk (chunk : List ℕ) : Type 0 where
  pub bytes : IsBytes chunk
  pub some_bytes : 2 ≤ length chunk
  pub few_bytes : length chunk ≤ 12
  pub even : length chunk % 2 ≡ 0

pub operation-data :
    (l : BpfLoader) (offset : ℕ) (chunk : List ℕ)
    → IsChunk chunk
    → l.state ≡ receiving
    → offset ≡ l.next_offset
    → offset + length chunk ≤ l.image_len
    → offset < 2 ^ 16
    → operation l (data_payload offset chunk)
      ≡ ok (data_op offset (copy_at 0 chunk (replicate 12 0)) (length chunk))
unfolding operation data_request
operation-data l offset chunk fine state next fits small = ground (
  arith,
  fine.some_bytes,
  fine.few_bytes,
  fine.even,
  state,
  next,
  fits,
  le16-to_le16 offset small,
)

pub operation-finalize :
    (l : BpfLoader)
    → l.state ≡ receiving
    → l.next_offset ≡ l.image_len
    → operation l finalize_payload ≡ ok finalize_op
unfolding operation finalize_request
operation-finalize l state whole = ground (arith, state, whole)

-- No operation of the flash fails.
pub record Works {ℓ} {S : Type ℓ} (flash : BpfFlash S) : Type ℓ where
  pub answers : Answers flash
  pub writes : (s : S) (offset : ℕ) (bytes : List ℕ) → (flash.write s offset bytes).1 ≡ ok tt
  pub erases : (s : S) (from to : ℕ) → (flash.erase s from to).1 ≡ ok tt

-- The loader when a part of the image has been received and stored.
pub record Progress (b m c : ℕ) (received : List ℕ) (l : BpfLoader) (cells : ℕ → ℕ) : Type 0 where
  pub state : l.state ≡ receiving
  pub quiet : l.pending ≡ none
  pub bytecode : l.bytecode_len ≡ b
  pub maps : l.map_count ≡ m
  pub expected : l.expected_crc ≡ c
  pub next : l.next_offset ≡ length received
  pub held : window cells body (length received) ≡ received

-- The chunks of an image, joined.
unfoldable pub joined : List (List ℕ) → List ℕ
joined [] = []
joined (chunk ∷ chunks) = chunk ++ joined chunks

-- Data requests for the chunks from an offset on, then Finalize.
unfoldable pub data_payloads : ℕ → List (List ℕ) → List (List ℕ)
data_payloads offset [] = finalize_payload ∷ []
data_payloads offset (chunk ∷ chunks) =
    data_payload offset chunk ∷ data_payloads (offset + length chunk) chunks

abbrev pub load_payloads : ℕ → ℕ → ℕ → List (List ℕ) → List (List ℕ)
load_payloads b m c chunks = begin_payload b m c ∷ data_payloads 0 chunks

-- Load BPF requests with these payloads, each followed by `execute_pending`.
unfoldable pub feed {ℓ} :
    {S : Type ℓ} → BpfFlash S → List (List ℕ) → BpfLoader → S → Option (BpfLoader × S)
feed flash [] l s = some (l, s)
feed flash (payload ∷ payloads) l s = elim (accepts_load l (load payload)) [
  | none ↦ none
  | some (l', answer) ↦ let (l'', s') = execute_pending flash l' s in feed flash payloads l'' s'
]

-- The cells of an image that stands behind the header.
abbrev pub cells_of : List ℕ → ℕ → ℕ
cells_of image i = get_or image (i - body) 0

abbrev pub Committed : ℕ → ℕ → ℕ → List MapLayout → BpfLoader → Type 0
Committed b m c layouts l =
    (l.state ≡ committed c)
    × (l.bytecode_len ≡ b)
    × (l.map_layouts ≡ layouts)
    × (l.committed_map_count ≡ m)

pub held-cells :
    (cells : ℕ → ℕ) (image : List ℕ) (b m : ℕ)
    → window cells body (length image) ≡ image
    → length image ≡ b + m * bpf_map_descriptor_size
    → layouts_in cells b m 0 0 no_layouts ≡ layouts_in (cells_of image) b m 0 0 no_layouts
held-cells cells image b m held size =
    layouts_in_cong cells (cells_of image) b m 0 0 no_layouts (λ i lo hi.
      let back : body + (i - body) ≡ i = omega (arith, lo) in
      let cell = get_or-window cells body (length image) (i - body) (omega (arith, lo, hi, size)) in
      ap cells (sym back) ∙ sym cell ∙ ap (λ w. get_or w (i - body) 0) held)

pub begin_payload-IsBytes : (b m c : ℕ) → m < 2 ^ 8 → IsBytes (begin_payload b m c)
begin_payload-IsBytes b m c small = omega arith

pub data_payload-IsBytes :
    (offset : ℕ) (chunk : List ℕ) → IsBytes chunk → IsBytes (data_payload offset chunk)
data_payload-IsBytes offset chunk h = (omega arith, (omega arith, (omega arith, h)))

pub load-IsBytes : (payload : List ℕ) → IsBytes payload → IsBytes ((load payload).payload)
load-IsBytes payload h = copy_at-IsBytes 0 payload (replicate 16 0) h (omega arith)
