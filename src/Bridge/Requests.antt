-- ===== src/Bridge/Requests.antt =====
-- Requests to the bridge as transfers on the bus.
use opti_bridge.Prelude.{
  ℕ, ◌+◌, ◌-◌, ◌≤◌, ◌≡◌, refl, ◌⊎◌, ◌↔◌, inl, inr, true, false, Option, none, some, List, [],
  length, get_or, take, drop, slice?, leb, ◌==◌, Result, ok, err, arith, Result-cases, bit_and,
}
use opti_bridge.Protocol.{
  max_payload, max_frame, header_len, cmd_i2c_write, cmd_i2c_read, status_ok, status_bad_command,
}
use opti_bridge.Frame.{Request, IsRequest}
use opti_bridge.Frame.Packet.{wire}
use opti_bridge.Frame.Response.{encode_response-wire}
use opti_bridge.Bridge.{
  validate_i2c_request, I2c, Handled, responded, restarted, reply, write_to, read_from,
  handle_request,
}

-- A request to a 7-bit address: bytes to write, or a number of bytes to read that fits a response.
pub record IsTransfer (r : Request) : Type 0 where
  pub no_flags : r.flags ≡ 0
  pub command_known : (r.command ≡ cmd_i2c_write) ⊎ (r.command ≡ cmd_i2c_read)
  pub addressed : 1 ≤ r.payload_len
  pub bound : r.payload_len ≤ max_payload
  pub address : bit_and (get_or r.payload 0 0) 0x80 ≡ 0
  pub read_one_count : r.command ≡ cmd_i2c_read → r.payload_len ≡ 2
  pub read_bound : r.command ≡ cmd_i2c_read → get_or r.payload 1 0 ≤ max_payload

-- A request is validated exactly when it is a well-formed transfer.
validate_i2c_request_iff : (r : Request) → (validate_i2c_request r ≡ ok tt) ↔ IsTransfer r
unfolding validate_i2c_request
validate_i2c_request_iff r = (
  λ h. record {
    no_flags = ground (arith, h);
    command_known = ground (arith, h);
    addressed = ground (arith, h);
    bound = ground (arith, h);
    address = ground (arith, h);
    read_one_count = λ e. ground (arith, h, e);
    read_bound = λ e. ground (arith, h, e);
  },
  λ h. ground (
    arith, h.no_flags, h.command_known, h.addressed, h.bound, h.address, h.read_one_count,
    h.read_bound,
  ),
)

-- The response frame that an outcome and an output hold.
abbrev pub Replied : Request → ℕ → List ℕ → Handled → List ℕ → Type 0
Replied r status payload outcome output =
    (outcome ≡ responded (header_len + length payload))
    × (take (header_len + length payload) output ≡ wire status r.sequence 0 payload)

module _ {ℓ} {S : Type ℓ} (i2c : I2c S) where
  abbrev pub bytes_of : Request → List ℕ
  bytes_of r = take (r.payload_len - 1) (drop 1 r.payload)

  -- At most one transfer is made on the bus, by a valid request alone, and every outcome but a
  -- restart is a response frame with the transfer's result.
  pub data Exchange (r : Request) (bus : S) : Handled × List ℕ × S → Type ℓ where
    refused :
        {outcome : Handled} {output : List ℕ} {status : ℕ}
        → validate_i2c_request r ≡ err status
        → Replied r status [] outcome output
        → Exchange r bus (outcome, output, bus)
    written :
        {outcome : Handled} {output : List ℕ} {bus' : S}
        → IsTransfer r
        → r.command ≡ cmd_i2c_write
        → i2c.write bus (get_or r.payload 0 0) (bytes_of r) ≡ (bus', some (ok tt))
        → Replied r status_ok [] outcome output
        → Exchange r bus (outcome, output, bus')
    not_written :
        {outcome : Handled} {output : List ℕ} {bus' : S}
        → IsTransfer r
        → r.command ≡ cmd_i2c_write
        → i2c.write bus (get_or r.payload 0 0) (bytes_of r) ≡ (bus', some (err tt))
        → Replied r status_bad_command [] outcome output
        → Exchange r bus (outcome, output, bus')
    got :
        {outcome : Handled} {output bytes : List ℕ} {bus' : S}
        → IsTransfer r
        → r.command ≡ cmd_i2c_read
        → i2c.read bus (get_or r.payload 0 0) (get_or r.payload 1 0) ≡ (bus', some (ok bytes))
        → Replied r status_ok bytes outcome output
        → Exchange r bus (outcome, output, bus')
    not_got :
        {outcome : Handled} {output : List ℕ} {bus' : S}
        → IsTransfer r
        → r.command ≡ cmd_i2c_read
        → i2c.read bus (get_or r.payload 0 0) (get_or r.payload 1 0) ≡ (bus', some (err tt))
        → Replied r status_bad_command [] outcome output
        → Exchange r bus (outcome, output, bus')
    dropped_write :
        {output : List ℕ} {bus' : S}
        → IsTransfer r
        → i2c.write bus (get_or r.payload 0 0) (bytes_of r) ≡ (bus', none)
        → Exchange r bus (restarted, output, bus')
    dropped_read :
        {output : List ℕ} {bus' : S}
        → IsTransfer r
        → i2c.read bus (get_or r.payload 0 0) (get_or r.payload 1 0) ≡ (bus', none)
        → Exchange r bus (restarted, output, bus')

  -- A read that succeeds fills the buffer it is given.
  abbrev pub FillsBuffer : Type ℓ
  FillsBuffer =
      (bus : S) (address count : ℕ) (bus' : S) (bytes : List ℕ)
      → i2c.read bus address count ≡ (bus', some (ok bytes))
      → length bytes ≡ count

  reply-Replied :
      (status : ℕ) (r : Request) (payload output : List ℕ) (bus : S)
      → length payload ≤ max_payload
      → length output ≡ max_frame
      → let (outcome, output', bus') = reply status r payload output bus in
        Replied r status payload outcome output'
  reply-Replied status r payload output bus short full =
      let (fine, spelled, kept) =
        encode_response-wire status r.sequence 0 payload output short full in
      (ground (arith, fine), spelled)

  after_write :
      (r : Request) (output : List ℕ) (bus bus' : S)
      (answer : Option (Result (Unit {0}) (Unit {0})))
      → IsTransfer r
      → r.command ≡ cmd_i2c_write
      → length output ≡ max_frame
      → i2c.write bus (get_or r.payload 0 0) (bytes_of r) ≡ (bus', answer)
      → Exchange r bus (elim answer [
        | none ↦ (restarted, output, bus')
        | some result ↦ elim result [
          | ok done ↦ reply status_ok r [] output bus'
          | err e ↦ reply status_bad_command r [] output bus'
        ]
      ])
  after_write r output bus bus' none valid command full e = dropped_write valid e
  after_write r output bus bus' (some (ok tt)) valid command full e =
      written valid command e (reply-Replied status_ok r [] output bus' (omega arith) full)
  after_write r output bus bus' (some (err tt)) valid command full e =
      not_written valid command e
        (reply-Replied status_bad_command r [] output bus' (omega arith) full)

  after_read :
      (r : Request) (output : List ℕ) (bus bus' : S) (answer : Option (Result (List ℕ) (Unit {0})))
      → FillsBuffer
      → IsTransfer r
      → r.command ≡ cmd_i2c_read
      → length output ≡ max_frame
      → i2c.read bus (get_or r.payload 0 0) (get_or r.payload 1 0) ≡ (bus', answer)
      → Exchange r bus (elim answer [
        | none ↦ (restarted, output, bus')
        | some result ↦ elim result [
          | ok bytes ↦ reply status_ok r bytes output bus'
          | err e ↦ reply status_bad_command r [] output bus'
        ]
      ])
  after_read r output bus bus' none fills valid command full e = dropped_read valid e
  after_read r output bus bus' (some (ok bytes)) fills valid command full e =
      let filled = fills bus (get_or r.payload 0 0) (get_or r.payload 1 0) bus' bytes e in
      let short = valid.read_bound command in
      got valid command e
        (reply-Replied status_ok r bytes output bus' (omega (arith, filled, short)) full)
  after_read r output bus bus' (some (err tt)) fills valid command full e =
      not_got valid command e (reply-Replied status_bad_command r [] output bus' (omega arith) full)

  write_to-Exchange :
      (r : Request) (output : List ℕ) (bus : S)
      → IsTransfer r
      → r.command ≡ cmd_i2c_write
      → length output ≡ max_frame
      → Exchange r bus (write_to i2c r (bytes_of r) output bus)
  unfolding write_to
  write_to-Exchange r output bus valid command full =
      let step = i2c.write bus (get_or r.payload 0 0) (bytes_of r) in
      after_write r output bus step.0 step.1 valid command full refl

  read_from-Exchange :
      (r : Request) (output : List ℕ) (bus : S)
      → FillsBuffer
      → IsTransfer r
      → r.command ≡ cmd_i2c_read
      → length output ≡ max_frame
      → Exchange r bus (read_from i2c r (get_or r.payload 1 0) output bus)
  unfolding read_from
  read_from-Exchange r output bus fills valid command full =
      let step = i2c.read bus (get_or r.payload 0 0) (get_or r.payload 1 0) in
      after_read r output bus step.0 step.1 fills valid command full refl

  -- With a driver whose reads fill their buffer and an output of 21 bytes, a request of the form
  -- that parsers deliver is handled without a panic: when it is not valid the bus is left alone
  -- and the response has the reason; when it is, the one transfer asked for is made, and the
  -- response says whether it succeeded and holds the bytes read. A restart follows only from a
  -- transfer that the loss of DTR cut off.
  pub handle_request-Exchange :
      (r : Request) (output : List ℕ) (bus : S)
      → FillsBuffer
      → IsRequest r
      → length output ≡ max_frame
      → Exchange r bus (handle_request i2c r output bus)
  unfolding handle_request
  handle_request-Exchange r output bus fills shaped full =
      elim (Result-cases (validate_i2c_request r)) [
        | inr (status, e) ↦
            rw (e, handle_request)
              (refused e (reply-Replied status r [] output bus (omega arith) full))
        | inl (valid_request, e) ↦
            let valid = (validate_i2c_request_iff r).0 e in
            elim valid.command_known [
              | inl command ↦
                  let writes : (r.command == cmd_i2c_write) ≡ true = ground (arith, command) in
                  let sliced : slice? r.payload 1 r.payload_len ≡ some (bytes_of r) =
                    ground
                      (arith, valid.addressed, shaped.payload_full, shaped.payload_len_bound) in
                  rw (e, writes, sliced, handle_request)
                    (write_to-Exchange r output bus valid command full)
              | inr command ↦
                  let not_write : (r.command == cmd_i2c_write) ≡ false = ground (arith, command) in
                  let reads : (r.command == cmd_i2c_read) ≡ true = ground (arith, command) in
                  let two : (r.payload_len == 2) ≡ true =
                    ground (arith, valid.read_one_count command) in
                  let count = valid.read_bound command in
                  let fits : leb (get_or r.payload 1 0) 16 ≡ true = ground (arith, count) in
                  rw (e, not_write, reads, two, fits, handle_request)
                    (read_from-Exchange r output bus fills valid command full)
            ]
      ]
