-- ===== src/Loader/Image/Nor/Agrees.antt =====
-- The loader beside the cells of the flash: an image in transfer, and a committed image. The
-- operations on the flash in crates/optibridge-protocol/src/lib.rs, on NOR flash.
use opti_bridge.Prelude.{
  window, window_cong, ℕ, zero, suc, ◌+◌, ◌*◌, ◌^◌, ◌≤◌, ◌<◌, ◌≡◌, refl, sym, ◌∙◌, subst, ◌⊎◌, inl,
  inr, some, List, [], ◌∷◌, ◌++◌, set, get_or, Option-cases, arith, false, le16, le32, to_le16,
  to_le32, le16-to_le16, le32-to_le32,
}
use native.Mathlib.Decide.{ℕ_discrete}
use opti_bridge.Protocol.{bpf_flash_offset, bpf_header_size, bpf_map_descriptor_size}
use opti_bridge.Crc.{crc32_update, crc32_finish}
use opti_bridge.Crc.Detect.{IsBytes}
use opti_bridge.Loader.{
  BpfLoader, MapLayout, no_layouts, LoadOperation, LoaderState, empty, receiving, committed,
  running, failed,
}
use opti_bridge.Loader.Image.{layout_of, is_foreign, image_header}
use opti_bridge.Loader.Image.Invariant.{IsImage, IsTransfer}
use opti_bridge.Loader.Image.Nor.Bytes.{FromBytes}
use opti_bridge.Loader.Image.Nor.{layouts_in}

-- A header that boot takes for a committed image with these fields.
abbrev pub Declares : List ℕ → ℕ → ℕ → ℕ → Type 0
Declares h bytecode_len map_count crc =
    (is_foreign h ≡ false)
    × (get_or h 5 0 ≡ map_count)
    × (le16 (get_or h 6 0) (get_or h 7 0) ≡ bytecode_len)
    × (le32 (get_or h 8 0) (get_or h 9 0) (get_or h 10 0) (get_or h 11 0) ≡ crc)

abbrev pub body : ℕ
body = bpf_flash_offset + bpf_header_size

-- A committed image in the cells.
pub record Holds (cells : ℕ → ℕ) (bytecode_len map_count crc : ℕ) (layouts : List MapLayout)
    : Type 0 where
  pub image : IsImage bytecode_len map_count
  pub declared : Declares (window cells bpf_flash_offset bpf_header_size) bytecode_len map_count crc
  pub sum :
      crc32_finish (
        crc32_update 0xffff_ffff
          (window cells body (bytecode_len + map_count * bpf_map_descriptor_size)))
      ≡ crc
  pub laid : layouts_in cells bytecode_len map_count 0 0 no_layouts ≡ some layouts

-- An image in transfer in the cells: a header without the commit marker, the bytes received so far,
-- and erased cells for the rest.
pub record Receives (l : BpfLoader) (cells : ℕ → ℕ) : Type 0 where
  pub header :
      window cells bpf_flash_offset bpf_header_size
      ≡ image_header l.bytecode_len l.map_count l.expected_crc
  pub word : l.expected_crc < 2 ^ 32
  pub sum : l.crc ≡ crc32_update 0xffff_ffff (window cells body l.next_offset)
  pub erased : (i : ℕ) → body + l.next_offset ≤ i → i < body + l.image_len → cells i ≡ 0xff

abbrev pub HoldsOwn : BpfLoader → ℕ → (ℕ → ℕ) → Type 0
HoldsOwn l crc cells =
    Holds cells l.bytecode_len l.map_count crc l.map_layouts × (l.committed_map_count ≡ l.map_count)

abbrev pub Stored : LoaderState → BpfLoader → (ℕ → ℕ) → Type 0
Stored receiving l cells = Receives l cells
Stored (committed crc) l cells = HoldsOwn l crc cells
Stored (running crc) l cells = HoldsOwn l crc cells
Stored empty l cells = Unit
Stored (failed status) l cells = Unit

pub record Agrees (l : BpfLoader) (cells : ℕ → ℕ) : Type 0 where
  pub stored : Stored l.state l cells
  pub spelled : (op : LoadOperation) → l.pending ≡ some op → FromBytes op

pub image_header-IsBytes : (b m c : ℕ) → m < 2 ^ 8 → IsBytes (image_header b m c)
image_header-IsBytes b m c small = omega arith

-- Layouts are read from the image alone.
pub layouts_in_cong :
    (cells cells' : ℕ → ℕ) (b left index total : ℕ) (layouts : List MapLayout)
    → ((i : ℕ)
        → body ≤ i
        → i < body + b + (index + left) * bpf_map_descriptor_size
        → cells i ≡ cells' i)
    → layouts_in cells b left index total layouts ≡ layouts_in cells' b left index total layouts
unfolding layouts_in
layouts_in_cong cells cells' b zero index total layouts same = refl
layouts_in_cong cells cells' b (suc left) index total layouts same =
    let from = body + b + index * bpf_map_descriptor_size in
    let e =
      window_cong cells cells' from bpf_map_descriptor_size
        (λ i lo hi. same i (omega arith) (omega (arith, hi))) in
    elim (Option-cases (layout_of (window cells' from bpf_map_descriptor_size) total)) [
      | inl bad ↦ ground (arith, e)
      | inr ((m, next_total), good) ↦ ground (
        arith,
        e,
        layouts_in_cong cells cells' b left (index + 1) next_total (set layouts index m)
            (λ i lo hi. same i lo (omega (arith, hi))),
      )
    ]

-- The header of `begin` with the commit marker of `finalize`.
abbrev pub committed_header : ℕ → ℕ → ℕ → List ℕ
committed_header b m c =
    b'O' ∷ b'B' ∷ b'P' ∷ b'F' ∷ 1 ∷ m ∷ (to_le16 b ++ to_le32 c ++ 0 ∷ 0 ∷ 0xff ∷ 0xff ∷ [])

pub committed_header-Declares :
    (b m c : ℕ) → b < 2 ^ 16 → c < 2 ^ 32 → Declares (committed_header b m c) b m c
committed_header-Declares b m c small word = (refl, refl, le16-to_le16 b small, le32-to_le32 c word)

-- Writing the commit marker over the erased halfword makes the header one of a committed image.
pub window_marked :
    (cells cells' : ℕ → ℕ) (b m c : ℕ)
    → window cells bpf_flash_offset bpf_header_size ≡ image_header b m c
    → window cells' (bpf_flash_offset + 12) 2 ≡ 0 ∷ 0 ∷ []
    → ((i : ℕ) → (i < bpf_flash_offset + 12) ⊎ (bpf_flash_offset + 14 ≤ i) → cells' i ≡ cells i)
    → window cells' bpf_flash_offset bpf_header_size ≡ committed_header b m c
unfolding window
window_marked cells cells' b m c before marker same = ground (
  arith,
  before,
  marker,
  same (bpf_flash_offset + 0) (inl (omega arith)),
  same (bpf_flash_offset + 1) (inl (omega arith)),
  same (bpf_flash_offset + 2) (inl (omega arith)),
  same (bpf_flash_offset + 3) (inl (omega arith)),
  same (bpf_flash_offset + 4) (inl (omega arith)),
  same (bpf_flash_offset + 5) (inl (omega arith)),
  same (bpf_flash_offset + 6) (inl (omega arith)),
  same (bpf_flash_offset + 7) (inl (omega arith)),
  same (bpf_flash_offset + 8) (inl (omega arith)),
  same (bpf_flash_offset + 9) (inl (omega arith)),
  same (bpf_flash_offset + 10) (inl (omega arith)),
  same (bpf_flash_offset + 11) (inl (omega arith)),
  same (bpf_flash_offset + 14) (inr (omega arith)),
  same (bpf_flash_offset + 15) (inr (omega arith)),
)

-- The cells of the commit marker are erased until it is written.
pub marker_erased :
    (cells : ℕ → ℕ) (b m c i : ℕ)
    → window cells bpf_flash_offset bpf_header_size ≡ image_header b m c
    → bpf_flash_offset + 12 ≤ i
    → i < bpf_flash_offset + 14
    → cells i ≡ 0xff
unfolding window
marker_erased cells b m c i header lo hi = elim (ℕ_discrete i (bpf_flash_offset + 12)) [
  | yes e ↦ rw e (ground (arith, header))
  | no ne ↦ let e : i ≡ bpf_flash_offset + 13 = omega arith in rw e (ground (arith, header))
]

-- A whole image that was received, with the commit marker written, is a committed one.
pub marked-Holds :
    (cells cells' : ℕ → ℕ) (l : BpfLoader) (layouts : List MapLayout)
    → IsTransfer l
    → l.next_offset ≡ l.image_len
    → Receives l cells
    → crc32_finish l.crc ≡ l.expected_crc
    → layouts_in cells l.bytecode_len l.map_count 0 0 no_layouts ≡ some layouts
    → window cells' (bpf_flash_offset + 12) 2 ≡ 0 ∷ 0 ∷ []
    → ((i : ℕ) → (i < bpf_flash_offset + 12) ⊎ (bpf_flash_offset + 14 ≤ i) → cells' i ≡ cells i)
    → Holds cells' l.bytecode_len l.map_count l.expected_crc layouts
marked-Holds cells cells' l layouts t whole r right found marker same =
    let header =
      window_marked cells cells' l.bytecode_len l.map_count l.expected_crc r.header marker same in
    let all : l.bytecode_len + l.map_count * bpf_map_descriptor_size ≡ l.next_offset =
      omega (arith, t.sized, whole) in
    let bytes =
      window_cong cells' cells body l.next_offset (λ i lo hi. same i (inr (omega (arith, lo)))) in
    record {
      image = t.image;
      declared =
          subst (λ h. Declares h l.bytecode_len l.map_count l.expected_crc) (sym header)
            (committed_header-Declares l.bytecode_len l.map_count l.expected_crc
              (omega (arith, t.image.bytecode_max)) r.word);
      sum = rw (all, bytes, ← r.sum) right;
      laid =
          layouts_in_cong cells' cells l.bytecode_len l.map_count 0 0 no_layouts
            (λ i lo hi. same i (inr (omega (arith, lo))))
          ∙ found;
    }

pub nothing_received :
    (cells : ℕ → ℕ) → 0xffff_ffff ≡ crc32_update 0xffff_ffff (window cells body 0)
unfolding window crc32_update
nothing_received cells = refl
