-- ===== src/Bridge/Sessions/Safety.antt =====
-- That a session neither panics nor leaves its parser or its output out of order.
use opti_bridge.Prelude.{
  ℕ, zero, suc, ◌+◌, ◌≤◌, true, leb, ap, ◌≡◌, ◌≢◌, refl, ◌∙◌, none, some, List, [], ◌∷◌, length,
  take, ok, err, Option-cases, Result-cases, set, drop, replicate, length-copy_at, ◌-◌, arith, inl,
  inr, Bool-cases,
}
use opti_bridge.Protocol.{max_frame, max_payload, header_len}
use opti_bridge.Frame.{Request, Parser, push, reset, IsParser, IsRequest, request_of}
use opti_bridge.Frame.Stream.{push-IsParser}
use opti_bridge.Bridge.{I2c, Handled, responded, restarted, panicked, handle_request}
use opti_bridge.Bridge.Requests.{
  Exchange, refused, written, not_written, got, not_got, dropped_write, dropped_read, FillsBuffer,
  handle_request-Exchange,
}
use opti_bridge.Bridge.Lengths.{length-handle_request}
use opti_bridge.Bridge.Sessions.{
  Cdc, Ended, listens, resets, panics, answer, serve, serve_byte, then_next, serve_bytes,
  listen_once, listen, connect, await_dtr, greeting,
}

-- What may still happen to a session: it goes on with a parser and an output in order, or resets.
abbrev pub Lives : Ended → Type 0
Lives (listens p output) = IsParser p × (length output ≡ max_frame)
Lives resets = Unit
Lives panics = ⊥

then_next-Lives {ℓ} :
    {S : Type ℓ} (f : Parser → List ℕ → S → Ended × S)
    → ((p : Parser) (output : List ℕ) (s : S)
        → IsParser p
        → length output ≡ max_frame
        → Lives (f p output s).0)
    → (r : Ended × S) → Lives (r.0)
    → Lives (then_next f r).0
then_next-Lives f safe (listens p output, s) h = safe p output s (h.0) (h.1)
then_next-Lives f safe (resets, s) h = tt
then_next-Lives f safe (panics, s) h = h

pub reset-IsParser : (p : Parser) → IsParser p → IsParser (reset p)
reset-IsParser p v = record {
  frame_full = v.frame_full;
  length_bound = omega arith;
  payload_bound = λ h. absurd (omega arith);
  unfinished = λ h. absurd (omega arith);
}

push-IsRequest :
    (p : Parser) (byte : ℕ) {r : Request} → IsParser p → (push p byte).1 ≡ ok (some r) → IsRequest r
unfolding push
push-IsRequest p byte {r} v h =
    let frame = set p.frame p.length byte in
    let same : request_of frame (p.length + 1) ≡ r = ground (arith, h) in
    rw (← same) record {
      payload_full =
          length-copy_at 0 (take (p.length + 1 - header_len) (drop header_len frame))
            (replicate max_payload 0);
      payload_len_bound = ground (arith, h, v.length_bound);
    }

-- A packet that is received fits into the buffer.
abbrev pub FitsBuffer {ℓ} : {S : Type ℓ} → Cdc S → Type ℓ
FitsBuffer {S = S} cdc =
    (s : S) (size : ℕ) (s' : S) (bytes : List ℕ)
    → cdc.read_packet s size ≡ (s', some (ok bytes))
    → length bytes ≤ size

module _ {ℓ} {S : Type ℓ} (i2c : I2c S) (cdc : Cdc S) where
  Exchange-returns :
      {r : Request} {bus : S} {x : Handled × List ℕ × S} → Exchange i2c r bus x → x.0 ≢ panicked
  Exchange-returns (refused e replied) h = absurd (cc (replied.0, h))
  Exchange-returns (written valid command e replied) h = absurd (cc (replied.0, h))
  Exchange-returns (not_written valid command e replied) h = absurd (cc (replied.0, h))
  Exchange-returns (got valid command e replied) h = absurd (cc (replied.0, h))
  Exchange-returns (not_got valid command e replied) h = absurd (cc (replied.0, h))
  Exchange-returns (dropped_write valid e) h = absurd (cc h)
  Exchange-returns (dropped_read valid e) h = absurd (cc h)

  answer-Lives :
      (p : Parser) (outcome : Handled) (output : List ℕ) (s : S)
      → IsParser p
      → outcome ≢ panicked
      → length output ≡ max_frame
      → Lives (answer i2c cdc p outcome output s).0
  unfolding answer
  answer-Lives p restarted output s shaped returns full = tt
  answer-Lives p panicked output s shaped returns full = absurd (returns refl)
  answer-Lives p (responded n) output s shaped returns full =
      elim (Result-cases (cdc.write_packet s (take n output)).1) [
        | inl (x, e) ↦ rw (e, answer) (shaped, full)
        | inr (x, e) ↦ rw (e, answer) tt
      ]

  serve-Lives :
      (p : Parser) (r : Request) (output : List ℕ) (s : S)
      → FillsBuffer i2c
      → IsParser p
      → IsRequest r
      → length output ≡ max_frame
      → Lives (serve i2c cdc p r output s).0
  unfolding serve
  serve-Lives p r output s fills shaped valid full =
      let (outcome, output', s') = handle_request i2c r output s in
      answer-Lives p outcome output' s' shaped
        (Exchange-returns (handle_request-Exchange i2c r output s fills valid full))
        (length-handle_request i2c r output s ∙ full)

  serve_byte-Lives :
      (p : Parser) (byte : ℕ) (output : List ℕ) (s : S)
      → FillsBuffer i2c
      → IsParser p
      → length output ≡ max_frame
      → Lives (serve_byte i2c cdc p byte output s).0
  unfolding serve_byte
  serve_byte-Lives p byte output s fills shaped full =
      let kept = push-IsParser p byte shaped in
      elim (Result-cases (push p byte).1) [
        | inr (x, e) ↦ rw (e, serve_byte) (reset-IsParser (push p byte).0 kept, full)
        | inl (none, e) ↦ rw (e, serve_byte) (kept, full)
        | inl (some r, e) ↦
            rw (e, serve_byte)
              (serve-Lives (push p byte).0 r output s fills kept (push-IsRequest p byte shaped e)
                full)
      ]

  serve_bytes-Lives :
      (bytes : List ℕ) (p : Parser) (output : List ℕ) (s : S)
      → FillsBuffer i2c
      → IsParser p
      → length output ≡ max_frame
      → Lives (serve_bytes i2c cdc bytes p output s).0
  unfolding serve_bytes
  serve_bytes-Lives [] p output s fills shaped full = (shaped, full)
  serve_bytes-Lives (byte ∷ bytes) p output s fills shaped full =
      then_next-Lives (serve_bytes i2c cdc bytes)
        (λ p output s shaped full. serve_bytes-Lives bytes p output s fills shaped full)
        (serve_byte i2c cdc p byte output s) (serve_byte-Lives p byte output s fills shaped full)

  listen_once-Lives :
      (p : Parser) (output : List ℕ) (s : S)
      → FillsBuffer i2c
      → FitsBuffer cdc
      → IsParser p
      → length output ≡ max_frame
      → Lives (listen_once i2c cdc p output s).0
  unfolding listen_once
  listen_once-Lives p output s fills fits shaped full =
      let (s', up) = cdc.dtr s in
      elim (Bool-cases up) [
        | inr down ↦ rw (down, listen_once) tt
        | inl here ↦ elim (Option-cases (cdc.read_packet s' max_frame).1) [
          | inl e ↦ rw (here, e, listen_once) (shaped, full)
          | inr (err tt, e) ↦ rw (here, e, listen_once) tt
          | inr (ok bytes, e) ↦
              let received = cdc.read_packet s' max_frame in
              let short : leb (length bytes) max_frame ≡ true =
                ground (arith, fits s' max_frame received.0 bytes (ap (λ o. (received.0, o)) e)) in
              rw (here, e, short, listen_once)
                (serve_bytes-Lives bytes p output received.0 fills shaped full)
        ]
      ]

  listen-Lives :
      (rounds : ℕ) (p : Parser) (output : List ℕ) (s : S)
      → FillsBuffer i2c
      → FitsBuffer cdc
      → IsParser p
      → length output ≡ max_frame
      → Lives (listen i2c cdc rounds p output s).0
  unfolding listen
  listen-Lives zero p output s fills fits shaped full = (shaped, full)
  listen-Lives (suc rounds) p output s fills fits shaped full =
      then_next-Lives (listen i2c cdc rounds)
        (λ p output s shaped full. listen-Lives rounds p output s fills fits shaped full)
        (listen_once i2c cdc p output s) (listen_once-Lives p output s fills fits shaped full)

  -- With an I2C driver whose reads fill their buffer, a USB driver whose packets fit into theirs and an
  -- output of 21 bytes, a terminal that connects is served for any number of polls and rounds without a panic, whatever bytes it sends and
  -- whatever the drivers answer: afterwards the bridge resets, or still listens with a parser that
  -- satisfies the invariant and an output of 21 bytes.
  pub connect-Lives :
      (polls rounds : ℕ) (p : Parser) (output : List ℕ) (s : S)
      → FillsBuffer i2c
      → FitsBuffer cdc
      → IsParser p
      → length output ≡ max_frame
      → Lives (connect i2c cdc polls rounds p output s).0
  unfolding connect
  connect-Lives polls rounds p output s fills fits shaped full =
      let step = cdc.write_packet s greeting in
      elim (Result-cases step.1) [
        | inr (x, e) ↦ rw (e, connect) tt
        | inl (x, e) ↦ elim (Bool-cases (await_dtr i2c cdc polls step.0).1) [
          | inr down ↦ rw (e, down, connect) (shaped, full)
          | inl up ↦
              rw (e, up, connect)
                (listen-Lives rounds (reset p) output (await_dtr i2c cdc polls step.0).0 fills fits
                  (reset-IsParser p shaped) full)
        ]
      ]
