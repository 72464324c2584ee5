-- ===== src/Bridge.antt =====
-- The USB to I2C bridge, firmware/i2c-bridge/src/main.rs: `handle_request`,
-- with `validate_i2c_request` of crates/optibridge-protocol/src/lib.rs. The I2C
-- driver and the terminal's DTR line are the record `I2c`: a transfer answers `none` when DTR drops
-- first, and `reset_mcu` then ends the run.
pub mod Requests
pub mod Lengths
pub mod Sessions
use opti_bridge.Prelude.{
  ℕ, ◌-◌, Bool, true, false, Option, none, some, List, [], ◌∷◌, ◌++◌, length, get_or, take, slice?,
  replicate, copy_at, Result, ok, err, ◌>>=◌, ◌>>◌, fail_if, ltb, leb, ◌==◌, ◌&&◌, ◌||◌, not,
  if◌then◌else◌, bit_and,
}
use opti_bridge.Protocol.{
  max_payload, cmd_i2c_write, cmd_i2c_read, status_ok, status_bad_flags, status_bad_command,
  status_bad_length,
}
use opti_bridge.Frame.{Request, Parser, push, reset, encode_response}
use opti_bridge.Dispatch.{length_or_header}

unfoldable pub validate_i2c_request : Request → Result (Unit {0}) ℕ
validate_i2c_request request = do
  fail_if (not (request.flags == 0)) status_bad_flags
  fail_if (not (request.command == cmd_i2c_write) && not (request.command == cmd_i2c_read))
      status_bad_command
  fail_if (request.payload_len == 0 || ltb max_payload request.payload_len) status_bad_length
  fail_if (not (bit_and (get_or request.payload 0 0) 0x80 == 0)) status_bad_command
  fail_if
      (request.command == cmd_i2c_read
        && (not (request.payload_len == 2) || ltb max_payload (get_or request.payload 1 0)))
      status_bad_length
  ok tt

-- A write is given the address and the bytes; a read the address and the number of bytes, which it
-- answers with. No caller looks at the buffer of a read that failed.
pub record I2c {ℓ} (S : Type ℓ) : Type ℓ where
  pub write : S → ℕ → List ℕ → S × Option (Result (Unit {0}) (Unit {0}))
  pub read : S → ℕ → ℕ → S × Option (Result (List ℕ) (Unit {0}))

-- How `handle_request` ends: with a response of a length, with `reset_mcu`, or with a panic.
pub data Handled : Type 0 where
  responded : ℕ → Handled
  restarted panicked : Handled

-- `encode_response(status, request.sequence, 0, payload, output).unwrap_or(5)`
abbrev pub reply {ℓ} : {S : Type ℓ} → ℕ → Request → List ℕ → List ℕ → S → Handled × List ℕ × S
reply status request payload output bus =
    let (output', result) = encode_response status request.sequence 0 payload output in
    (responded (length_or_header result), output', bus)

module _ {ℓ} {S : Type ℓ} (i2c : I2c S) where
  unfoldable pub write_to : Request → List ℕ → List ℕ → S → Handled × List ℕ × S
  write_to request bytes output bus =
      let (bus', answer) = i2c.write bus (get_or request.payload 0 0) bytes in
      elim answer [
        | none ↦ (restarted, output, bus')
        | some result ↦ elim result [
          | ok done ↦ reply status_ok request [] output bus'
          | err e ↦ reply status_bad_command request [] output bus'
        ]
      ]

  unfoldable pub read_from : Request → ℕ → List ℕ → S → Handled × List ℕ × S
  read_from request count output bus =
      let (bus', answer) = i2c.read bus (get_or request.payload 0 0) count in
      elim answer [
        | none ↦ (restarted, output, bus')
        | some result ↦ elim result [
          | ok bytes ↦ reply status_ok request bytes output bus'
          | err e ↦ reply status_bad_command request [] output bus'
        ]
      ]

  -- `output` is the response buffer; the read buffer has 16 bytes.
  unfoldable pub handle_request : Request → List ℕ → S → Handled × List ℕ × S
  handle_request request output bus = elim (validate_i2c_request request) [
    | err status ↦ reply status request [] output bus
    | ok valid ↦
        if request.command == cmd_i2c_write
        then elim (slice? request.payload 1 request.payload_len) [
          | none ↦ (panicked, output, bus)
          | some bytes ↦ write_to request bytes output bus
        ]
        else if request.command == cmd_i2c_read
        then if request.payload_len == 2 && leb (get_or request.payload 1 0) 16
          then read_from request (get_or request.payload 1 0) output bus
          else reply status_bad_length request [] output bus
        else (panicked, output, bus)
  ]
