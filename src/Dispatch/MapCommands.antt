-- ===== src/Dispatch/MapCommands.antt =====
-- Write BPF map and Read BPF map as commands of a host.
use opti_bridge.Prelude.{
  ℕ, ◌+◌, ◌*◌, ◌/◌, ◌%◌, ◌^◌, ◌≤◌, ◌<◌, suc, ltb, false, ◌≡◌, refl, some, List, [], ◌∷◌, ◌++◌,
  length, take, slice?, copy_at, replicate, Result, ok, arith, le16, to_le16, u8, bit_and,
  take-copy_at_zero, length-copy_at,
}
use opti_bridge.Prelude.Bits.{bit_and_low, bit_and_high}
use opti_bridge.Protocol.{
  header_len, max_payload, max_map_write_bytes, cmd_write_bpf_map, cmd_read_bpf_map, status_ok,
  max_frame,
}
use opti_bridge.Frame.{Request}
use opti_bridge.Frame.Packet.{wire, request_for}
use opti_bridge.Frame.Response.{encode_response-wire}
use opti_bridge.Loader.{BpfProgramMetadata}
use opti_bridge.Loader.Maps.{write_map}
use opti_bridge.Loader.Maps.Access.{InMap, start_of, write_map_iff, read_map-write_map}
use opti_bridge.Dispatch.{
  Device, response, on_read_map, on_write_map, dispatch_with_bpf_and_executor, respond, answer,
}
use opti_bridge.Dispatch.Safety.{IsDevice}

-- The requests of a host: the location packs the map's id above the ten bits of the offset.
abbrev pub write_request : ℕ → ℕ → ℕ → List ℕ → Request
write_request sequence map_id byte_offset bytes =
    request_for cmd_write_bpf_map sequence 0 (to_le16 (map_id * 2 ^ 10 + byte_offset) ++ bytes)

abbrev pub read_request : ℕ → ℕ → ℕ → ℕ → Request
read_request sequence map_id byte_offset len =
    request_for cmd_read_bpf_map sequence 0 (map_id ∷ (to_le16 byte_offset ++ len ∷ []))

-- The three fields that the masks and shifts take out of a location.
location_fields :
    (map_id byte_offset : ℕ)
    → map_id < 8
    → byte_offset < 2 ^ 10
    → let location = map_id * 2 ^ 10 + byte_offset in
      (bit_and location 0xe000 ≡ 0)
      × (u8 (bit_and (location / 2 ^ 10) 0x07) ≡ map_id)
      × (bit_and location 0x03ff ≡ byte_offset)
location_fields map_id byte_offset p q =
    let location = map_id * 2 ^ 10 + byte_offset in
    (
      omega (arith, bit_and_high 13 location 7, bit_and_low 3 (location / 2 ^ 13)),
      omega (arith, bit_and_low 3 (location / 2 ^ 10)),
      omega (arith, bit_and_low 10 location),
    )

-- The same of the location's two bytes put together again.
abbrev sent : ℕ → ℕ
sent location = le16 (location % 2 ^ 8) (location / 2 ^ 8 % 2 ^ 8)

sent_fields :
    (map_id byte_offset : ℕ)
    → map_id < 8
    → byte_offset < 2 ^ 10
    → let location = sent (map_id * 2 ^ 10 + byte_offset) in
      (bit_and location 0xe000 ≡ 0)
      × (u8 (bit_and (location / 2 ^ 10) 0x07) ≡ map_id)
      × (bit_and location 0x03ff ≡ byte_offset)
sent_fields map_id byte_offset p q =
    let whole : sent (map_id * 2 ^ 10 + byte_offset) ≡ map_id * 2 ^ 10 + byte_offset =
      omega arith in
    rw whole (location_fields map_id byte_offset p q)

-- The bytes behind the location, in the padded payload.
replacement_of :
    (a b : ℕ) (bytes : List ℕ)
    → length bytes ≤ max_map_write_bytes
    → slice? (copy_at 0 (a ∷ b ∷ bytes) (replicate max_payload 0)) 2 (length (a ∷ b ∷ bytes))
      ≡ some bytes
replacement_of a b bytes h =
    ground
      (arith, take-copy_at_zero bytes (replicate 14 0), length-copy_at 0 bytes (replicate 14 0))

respond_short :
    (status sequence : ℕ) (payload output : List ℕ)
    → length payload ≤ max_payload
    → length output ≡ max_frame
    → ((respond status sequence payload output).0 ≡ response (header_len + length payload))
      × (take (header_len + length payload) (respond status sequence payload output).1
          ≡ wire status sequence 0 payload)
      × (length (respond status sequence payload output).1 ≡ max_frame)
unfolding respond
respond_short status sequence payload output short full =
    let (encoded, written, kept) =
      encode_response-wire status sequence 0 payload output short full in
    (rw (encoded, respond), written, kept)

module _ (d : Device) (v : IsDevice d) (map_id byte_offset : ℕ) (bytes : List ℕ)
    (inside : InMap d.loader map_id byte_offset (length bytes)) (some_bytes : 0 < length bytes)
    (few : length bytes ≤ max_map_write_bytes) where
  -- The device after the write.
  abbrev after_write : ℕ → Device
  after_write sequence =
      (answer status_ok sequence [] (record d {
        map_backing = copy_at (start_of d.loader map_id byte_offset) bytes d.map_backing;
      })).1

  id-lt : map_id < 8
  id-lt = omega (arith, inside.known, v.loader.laid.count_max)

  offset-lt : byte_offset < 2 ^ 10
  offset-lt = omega (arith, inside.inside, v.loader.laid.ends map_id inside.known)

  written :
      write_map d.loader map_id byte_offset bytes d.map_backing
      ≡ (ok tt, copy_at (start_of d.loader map_id byte_offset) bytes d.map_backing)
  written =
      (write_map_iff d.loader v.loader.laid map_id byte_offset bytes d.map_backing _
          v.backing_full).1
        (inside, some_bytes, few, refl)

  on_write_map_ok :
      (sequence : ℕ)
      → on_write_map (write_request sequence map_id byte_offset bytes) d
        ≡ some (response header_len, after_write sequence)
  unfolding on_write_map
  on_write_map_ok sequence =
      let location = map_id * 2 ^ 10 + byte_offset in
      let (unreserved, high, low) = sent_fields map_id byte_offset id-lt offset-lt in
      let (replied, _, _) =
        respond_short status_ok sequence [] d.output (omega arith) v.output_full in
      rw (
        unreserved,
        replacement_of (location % 2 ^ 8) (location / 2 ^ 8 % 2 ^ 8) bytes few,
        high,
        low,
        written,
        replied,
        on_write_map,
      )

  on_read_map_ok :
      (first second : ℕ)
      → on_read_map (read_request second map_id byte_offset (length bytes)) (after_write first)
        ≡ answer status_ok second bytes (after_write first)
  unfolding on_read_map
  on_read_map_ok first second =
      let whole : sent byte_offset ≡ byte_offset = omega (arith, offset-lt) in
      let back =
        read_map-write_map d.loader v.loader.laid map_id byte_offset bytes d.map_backing _
          v.backing_full written in
      rw (whole, back, on_read_map)

  -- On a device in order, a host that writes one to 14 bytes into a map of the loaded program and
  -- then reads that range gets them back: the write is answered by `STATUS_OK` alone, the read by
  -- `STATUS_OK` with the bytes, each under its own sequence, and the executor is not called.
  pub read-write_commands {ℓ} :
      {E : Type ℓ} (execute : BpfProgramMetadata → List ℕ → E → Result ℕ ℕ × List ℕ × E) (env : E)
      (first second : ℕ)
      → (d₁ d₂ : Device) × (dispatch_with_bpf_and_executor execute
            (write_request first map_id byte_offset bytes)
            d
            env
          ≡ some (response header_len, d₁, env))
        × (take header_len d₁.output ≡ wire status_ok first 0 [])
        × (dispatch_with_bpf_and_executor execute
              (read_request second map_id byte_offset (length bytes))
              d₁
              env
            ≡ some (response (header_len + length bytes), d₂, env))
        × (take (header_len + length bytes) d₂.output ≡ wire status_ok second 0 bytes)
  unfolding dispatch_with_bpf_and_executor
  read-write_commands execute env first second =
      let d₁ = after_write first in
      let d₂ = (answer status_ok second bytes d₁).1 in
      let (_, plain, full) =
        respond_short status_ok first [] d.output (omega arith) v.output_full in
      let (replied, sent_back, _) =
        respond_short status_ok second bytes d₁.output (omega arith) full in
      let long : ltb (suc (suc (length bytes))) 3 ≡ false = ground arith in
      (
        d₁,
        d₂,
        rw (long, on_write_map_ok first),
        plain,
        rw (on_read_map_ok first second, replied),
        sent_back,
      )
