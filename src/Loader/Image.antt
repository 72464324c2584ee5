-- ===== src/Loader/Image.antt =====
-- The flash side of `BpfLoader`: `execute_pending` with `begin` and `finalize`, the descriptors'
-- layouts, and `validate_committed` at boot. Every operation returns the flash beside the loader.
pub mod Layouts
pub mod Invariant
pub mod Partition
pub mod Nor
use opti_bridge.Prelude.{
  ℕ, zero, suc, ◌+◌, ◌-◌, ◌*◌, ◌/◌, ◌%◌, ◌^◌, Bool, true, false, Option, none, some, List, [], ◌∷◌,
  ◌++◌, length, get_or, min, set, take, Result, ok, err, ltb, ◌==◌, if◌then◌else◌, not, ◌||◌,
  checked_add, checked_mul, le16, le32, u16, u32, to_le16, to_le32, copy_at, replicate,
}
use opti_bridge.Protocol.{
  bpf_flash_offset, bpf_header_size, bpf_map_descriptor_size, bpf_max_map_bytes, max_payload,
  status_flash_error, status_bad_crc, status_bad_state,
}
use opti_bridge.Crc.{crc32_update, crc32_finish}
use opti_bridge.Loader.{
  BpfLoader, BpfFlash, LoadOperation, begin_op, data_op, finalize_op, LoaderState, empty, receiving,
  committed, failed, MapLayout, no_layouts, clear_map_layouts, image_len, is_bad_image,
}

-- A computation on the flash that may return `None`; the flash stays as it then is.
abbrev pub Flashing {ℓ κ} : Type ℓ → Type κ → Type (ℓ ⊔ κ)
Flashing S A = S → S × Option A

infixl 5 ◌>>=◌
abbrev pub ◌>>=◌ {ℓ κ υ} :
    {S : Type ℓ} {A : Type κ} {B : Type υ} → Flashing S A → (A → Flashing S B) → Flashing S B
◌>>=◌ m f s = let (s', r) = m s in elim r [ none ↦ (s', none) | some a ↦ f a s' ]

-- The little-endian word at a place of a descriptor.
abbrev pub word_at : List ℕ → ℕ → ℕ
word_at descriptor i =
    le32 (get_or descriptor i 0) (get_or descriptor (i + 1) 0) (get_or descriptor (i + 2) 0)
      (get_or descriptor (i + 3) 0)

-- The layout of the map that a descriptor declares behind `total` bytes of backing, and the new
-- total.
unfoldable pub layout_of : List ℕ → ℕ → Option (MapLayout × ℕ)
layout_of descriptor total =
    let map_type = word_at descriptor 0 in
    let key_size = word_at descriptor 4 in
    let value_size = word_at descriptor 8 in
    let max_entries = word_at descriptor 12 in
    elim (checked_mul (2 ^ 32) value_size max_entries) [
      | none ↦ none
      | some bytes ↦ elim (checked_add (2 ^ 32) total bytes) [
        | none ↦ none
        | some next_total ↦
            if not (map_type == 1)
              || not (key_size == 4)
              || value_size == 0
              || max_entries == 0
              || ltb bpf_max_map_bytes next_total
            then none
            else some (
              record {
                offset = u16 total;
                len = u16 bytes;
                key_size = key_size;
                value_size = value_size;
              },
              next_total,
            )
      ]
    ]

-- The 16 bytes that `begin` writes: the commit marker and the reserved bytes stay erased.
abbrev pub image_header : ℕ → ℕ → ℕ → List ℕ
image_header bytecode_len map_count expected_crc =
    b'O'
    ∷ b'B'
    ∷ b'P'
    ∷ b'F'
    ∷ 1
    ∷ map_count
    ∷ (to_le16 bytecode_len ++ to_le32 expected_crc ++ replicate 4 0xff)

abbrev pub fail : BpfLoader → ℕ → BpfLoader
fail l status = record l { state = failed status }

-- A header without the magic, version, commit marker or erased bytes of a committed image.
abbrev pub is_foreign : List ℕ → Bool
is_foreign header =
    not (get_or header 0 0 == b'O')
    || not (get_or header 1 0 == b'B')
    || not (get_or header 2 0 == b'P')
    || not (get_or header 3 0 == b'F')
    || not (get_or header 4 0 == 1)
    || not (le16 (get_or header 12 0) (get_or header 13 0) == 0)
    || not (get_or header 14 0 == 0xff)
    || not (get_or header 15 0 == 0xff)

module _ {ℓ} {S : Type ℓ} (flash : BpfFlash S) where
  -- `flash.read(offset, &mut descriptor)`, with `return None` on an error.
  abbrev pub read_descriptor : ℕ → Flashing S (List ℕ)
  read_descriptor offset s =
      let (s', answer) = flash.read s offset bpf_map_descriptor_size in
      elim answer [ err e ↦ (s', none) | ok descriptor ↦ (s', some descriptor) ]

  -- The loop of `map_layouts`, with the rounds left, the index, the total and the layouts so far.
  unfoldable pub layouts_from : ℕ → ℕ → ℕ → ℕ → List MapLayout → Flashing S (List MapLayout)
  layouts_from bytecode_len zero index total layouts = λ s. (s, some layouts)
  layouts_from bytecode_len (suc left) index total layouts = do
    descriptor ←
        read_descriptor
          (bpf_flash_offset + bpf_header_size + bytecode_len + index * bpf_map_descriptor_size)
    next ← (λ s. (s, layout_of descriptor total))
    layouts_from bytecode_len left (index + 1) next.1 (set layouts index next.0)

  -- The pair of the layouts and `map_count` that the source returns is the layouts here, since the
  -- caller has the count.
  unfoldable pub map_layouts : ℕ → ℕ → Flashing S (List MapLayout)
  map_layouts bytecode_len map_count = layouts_from bytecode_len map_count 0 0 no_layouts

  unfoldable pub begin : BpfLoader → ℕ → ℕ → ℕ → S → BpfLoader × S
  begin loader bytecode_len map_count expected_crc s =
      let l = clear_map_layouts loader in
      elim (image_len bytecode_len map_count) [
        | none ↦ (fail l status_flash_error, s)
        | some image ↦
            let pages = (bpf_header_size + image + 4095) / 4096 in
            let (s₁, erased) = flash.erase s bpf_flash_offset (bpf_flash_offset + pages * 4096) in
            elim erased [
              | err e ↦ (fail l status_flash_error, s₁)
              | ok done ↦
                  let (s₂, written) =
                    flash.write s₁ bpf_flash_offset
                      (image_header bytecode_len map_count expected_crc) in
                  elim written [
                    | err e ↦ (fail l status_flash_error, s₂)
                    | ok done ↦ (
                      record l {
                        state = receiving;
                        bytecode_len = bytecode_len;
                        map_count = map_count;
                        image_len = u16 image;
                        next_offset = 0;
                        expected_crc = expected_crc;
                        crc = 0xffff_ffff;
                      },
                      s₂,
                    )
                  ]
            ]
      ]

  unfoldable pub program : BpfLoader → ℕ → List ℕ → ℕ → S → BpfLoader × S
  program l offset bytes len s =
      let (s', written) =
        flash.write s (bpf_flash_offset + bpf_header_size + offset) (take len bytes) in
      elim written [
        | err e ↦ (fail l status_flash_error, s')
        | ok done ↦ (
          record l {
            crc = crc32_update l.crc (take len bytes);
            next_offset = u16 (l.next_offset + len);
          },
          s',
        )
      ]

  unfoldable pub finalize : BpfLoader → S → BpfLoader × S
  finalize l s =
      if not (crc32_finish l.crc == l.expected_crc)
      then (fail l status_bad_crc, s)
      else let (s₁, found) = map_layouts l.bytecode_len l.map_count s in
        elim found [
          | none ↦ (fail l status_bad_state, s₁)
          | some layouts ↦
              let (s₂, written) = flash.write s₁ (bpf_flash_offset + 12) (0 ∷ 0 ∷ []) in
              elim written [
                | err e ↦ (fail l status_flash_error, s₂)
                | ok done ↦ (
                  record l {
                    state = committed l.expected_crc;
                    map_layouts = layouts;
                    committed_map_count = l.map_count;
                  },
                  s₂,
                )
              ]
        ]

  abbrev pub perform : LoadOperation → BpfLoader → S → BpfLoader × S
  perform (begin_op bytecode_len map_count expected_crc) l s =
      begin l bytecode_len map_count expected_crc s
  perform (data_op offset bytes len) l s = program l offset bytes len s
  perform finalize_op l s = finalize l s

  unfoldable pub execute_pending : BpfLoader → S → BpfLoader × S
  execute_pending l s = elim l.pending [
    | none ↦ (l, s)
    | some operation ↦ perform operation (record l { pending = none }) s
  ]

  -- The loop of `validate_committed` over the image in chunks of 16 bytes, `fuel` rounds at most.
  unfoldable pub scan : ℕ → ℕ → ℕ → ℕ → S → S × Result ℕ (Unit {0})
  scan zero image_len offset crc s = (s, ok crc)
  scan (suc fuel) image_len offset crc s =
      let step = min max_payload (image_len - offset) in
      let (s', answer) = flash.read s (bpf_flash_offset + bpf_header_size + offset) step in
      let rest : S × Result ℕ (Unit {0}) = elim answer [
        | err e ↦ (s', err tt)
        | ok chunk ↦ scan fuel image_len (offset + step) (crc32_update crc chunk) s'
      ] in
      if ltb offset image_len then rest else (s, ok crc)

  -- `validate_committed` after the checks of the header.
  unfoldable pub validate_image : BpfLoader → ℕ → ℕ → ℕ → ℕ → S → BpfLoader × S
  validate_image l bytecode_len map_count expected_crc image s =
      let (s₁, scanned) = scan image image 0 0xffff_ffff s in
      elim scanned [
        | err e ↦ (fail l status_flash_error, s₁)
        | ok crc ↦
            let (s₂, found) = map_layouts bytecode_len map_count s₁ in
            elim found [
              | none ↦ (record l { state = empty }, s₂)
              | some layouts ↦
                  if not (crc32_finish crc == expected_crc)
                  then (record l { state = empty }, s₂)
                  else (
                    record l {
                      state = committed expected_crc;
                      bytecode_len = bytecode_len;
                      map_count = map_count;
                      map_layouts = layouts;
                      committed_map_count = map_count;
                    },
                    s₂,
                  )
            ]
      ]

  unfoldable pub validate_header : BpfLoader → List ℕ → S → BpfLoader × S
  validate_header l header s =
      if is_foreign header
      then (record l { state = empty }, s)
      else let bytecode_len = le16 (get_or header 6 0) (get_or header 7 0) in
        let map_count = get_or header 5 0 in
        let expected_crc =
          le32 (get_or header 8 0) (get_or header 9 0) (get_or header 10 0) (get_or header 11 0) in
        elim (image_len bytecode_len map_count) [
          | none ↦ (record l { state = empty }, s)
          | some image ↦
              if is_bad_image bytecode_len map_count image
              then (record l { state = empty }, s)
              else validate_image l bytecode_len map_count expected_crc image s
        ]

  unfoldable pub validate_committed : BpfLoader → S → BpfLoader × S
  validate_committed loader s =
      let l = clear_map_layouts loader in
      let (s', answer) = flash.read s bpf_flash_offset bpf_header_size in
      elim answer [
        | err e ↦ (fail l status_flash_error, s')
        | ok header ↦ validate_header l header s'
      ]
