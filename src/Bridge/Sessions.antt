-- ===== src/Bridge/Sessions.antt =====
-- The loop of `main` of firmware/i2c-bridge/src/main.rs over the packets of a connected terminal:
-- bytes go through the parser, each request is handled and its response written. The USB driver is
-- the record `Cdc`, on the state that the I2C driver also changes.
pub mod Stream
pub mod Safety
pub mod Frames
pub mod Packets
pub mod Answers
use opti_bridge.Prelude.{
  ℕ, zero, suc, Bool, true, false, Option, none, some, List, [], ◌∷◌, ◌++◌, length, leb, take,
  replicate, Result, ok, err, if◌then◌else◌,
}
use opti_bridge.Protocol.{max_frame}
use opti_bridge.Frame.{Request, Parser, ParseError, new, push, reset}
use opti_bridge.Bridge.{I2c, Handled, responded, restarted, panicked, handle_request}

-- `dtr`, `write_packet`, and `read_packet` into a buffer of the size given: the bytes received before
-- the next poll of DTR, or `none` when the poll comes first.
pub record Cdc {ℓ} (S : Type ℓ) : Type ℓ where
  pub dtr : S → S × Bool
  pub write_packet : S → List ℕ → S × Result (Unit {0}) (Unit {0})
  pub read_packet : S → ℕ → S × Option (Result (List ℕ) (Unit {0}))

-- How a part of the loop ends: it goes on with the parser and the output, or by `reset_mcu`, or with
-- a panic.
pub data Ended : Type 0 where
  listens : Parser → List ℕ → Ended
  resets panics : Ended

abbrev pub greeting : List ℕ
greeting = b'R' ∷ b'E' ∷ b'A' ∷ b'D' ∷ b'Y' ∷ 13 ∷ 10 ∷ []

-- The next step of the loop, if it goes on.
abbrev pub then_next {ℓ} : {S : Type ℓ} → (Parser → List ℕ → S → Ended × S) → Ended × S → Ended × S
then_next next (listens p output, s) = next p output s
then_next next (resets, s) = (resets, s)
then_next next (panics, s) = (panics, s)

module _ {ℓ} {S : Type ℓ} (i2c : I2c S) (cdc : Cdc S) where
  -- After `handle_request`: the response is written.
  unfoldable pub answer : Parser → Handled → List ℕ → S → Ended × S
  answer p restarted output s = (resets, s)
  answer p panicked output s = (panics, s)
  answer p (responded n) output s =
      let (s', written) = cdc.write_packet s (take n output) in
      elim written [ ok done ↦ (listens p output, s') | err e ↦ (resets, s') ]

  unfoldable pub serve : Parser → Request → List ℕ → S → Ended × S
  serve p request output s =
      let (outcome, output', s') = handle_request i2c request output s in
      answer p outcome output' s'

  -- `match parser.push(byte)`
  unfoldable pub serve_byte : Parser → ℕ → List ℕ → S → Ended × S
  serve_byte p byte output s =
      let (p', pushed) = push p byte in
      elim pushed [
        | err e ↦ (listens (reset p') output, s)
        | ok found ↦ elim found [
          | none ↦ (listens p' output, s)
          | some request ↦ serve p' request output s
        ]
      ]

  -- `for byte in input[..received]`
  unfoldable pub serve_bytes : List ℕ → Parser → List ℕ → S → Ended × S
  serve_bytes [] p output s = (listens p output, s)
  serve_bytes (byte ∷ bytes) p output s = then_next (serve_bytes bytes) (serve_byte p byte output s)

  -- One round of `while cdc.dtr()`. The slice `input[..received]` panics beyond the 21 bytes of `input`.
  unfoldable pub listen_once : Parser → List ℕ → S → Ended × S
  listen_once p output s =
      let (s', up) = cdc.dtr s in
      if up
      then (let (s'', received) = cdc.read_packet s' max_frame in
          elim received [
            | none ↦ (listens p output, s'')
            | some packet ↦ elim packet [
              | ok bytes ↦
                  if leb (length bytes) max_frame
                  then serve_bytes bytes p output s''
                  else (panics, s'')
              | err e ↦ (resets, s'')
            ]
          ])
      else (resets, s')

  -- The first rounds of `while cdc.dtr()`, as many as the first argument.
  unfoldable pub listen : ℕ → Parser → List ℕ → S → Ended × S
  listen zero p output s = (listens p output, s)
  listen (suc rounds) p output s = then_next (listen rounds) (listen_once p output s)

  -- `while !cdc.dtr()`, for at most so many polls; whether DTR came up.
  unfoldable pub await_dtr : ℕ → S → S × Bool
  await_dtr zero s = (s, false)
  await_dtr (suc polls) s =
      let (s', up) = cdc.dtr s in let rest = await_dtr polls s' in if up then (s', true) else rest

  -- The body of the outer loop, for a terminal that connects.
  unfoldable pub connect : ℕ → ℕ → Parser → List ℕ → S → Ended × S
  connect polls rounds p output s =
      let (s', written) = cdc.write_packet s greeting in
      elim written [
        | err e ↦ (resets, s')
        | ok done ↦
            let (s'', up) = await_dtr polls s' in
            if up then listen rounds (reset p) output s'' else (listens p output, s'')
      ]
