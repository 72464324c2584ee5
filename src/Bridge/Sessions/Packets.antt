-- ===== src/Bridge/Sessions/Packets.antt =====
-- A terminal that connects, holds DTR and sends packets: what the loop of `main` of
-- firmware/i2c-bridge/src/main.rs answers to the frames in them.
use opti_bridge.Prelude.{
  ℕ, suc, ◌≤◌, ◌<◌, ◌≡◌, refl, ap, sym, ◌∙◌, true, false, some, List, [], ◌∷◌, ◌++◌, length, take,
  none, leb, if◌then◌else◌, ok, err, All, Result-cases, Option-cases, Bool-cases, ◌==◌, ◌&&◌,
  get_or, slice?, arith, inl, inr,
}
use opti_bridge.Protocol.{max_frame, cmd_i2c_read, cmd_i2c_write}
use opti_bridge.Frame.{Request, Parser, push}
use opti_bridge.Bridge.{
  I2c, Handled, responded, restarted, panicked, handle_request, write_to, read_from,
  validate_i2c_request,
}
use opti_bridge.Bridge.Sessions.{
  Cdc, Ended, listens, resets, panics, answer, serve, serve_byte, then_next, serve_bytes,
  listen_once, listen,
}
use opti_bridge.Bridge.Sessions.Stream.{then_next_assoc, then_next_cong, serve_bytes-append}

abbrev pub Packets : Type 0
Packets = List (List ℕ)

abbrev pub joined : Packets → List ℕ
joined [] = []
joined (packet ∷ packets) = packet ++ joined packets

abbrev pub Fits : List ℕ → Type 0
Fits packet = length packet ≤ max_frame

-- One round for each packet, and so many more.
abbrev pub rounds_for : Packets → ℕ → ℕ
rounds_for [] more = more
rounds_for (packet ∷ packets) more = suc (rounds_for packets more)

-- The I2C bus does not see what the terminal has still to send.
abbrev pub beside {ℓ} : {D : Type ℓ} → I2c D → I2c (D × Packets)
beside i2c = record {
  write = λ s address bytes. let (d, r) = i2c.write (s.0) address bytes in ((d, s.1), r);
  read = λ s address count. let (d, r) = i2c.read (s.0) address count in ((d, s.1), r);
}

-- The USB driver `cdc` with a terminal that holds DTR and sends the packets in turn. A packet longer
-- than the buffer is an error, as the documentation of `read_packet` has it. Writes are those of
-- `near`.
pub record IsSending {ℓ} {D : Type ℓ} (near : Cdc D) (cdc : Cdc (D × Packets)) : Type ℓ where
  pub held : (d : D) (ps : Packets) → cdc.dtr (d, ps) ≡ ((d, ps), true)
  pub writes :
      (d : D) (ps : Packets) (bytes : List ℕ)
      → cdc.write_packet (d, ps) bytes
        ≡ (let (d', written) = near.write_packet d bytes in ((d', ps), written))
  pub reads :
      (d : D) (packet : List ℕ) (ps : Packets) (size : ℕ)
      → cdc.read_packet (d, packet ∷ ps) size
        ≡ ((d, ps), some (if leb (length packet) size then ok packet else err tt))

module _ {ℓ} {D : Type ℓ} where
  abbrev with_packets : Packets → Ended × D → Ended × (D × Packets)
  with_packets ps (e, d) = (e, (d, ps))

  -- The end of a part of the loop without what the terminal has still to send.
  abbrev pub behind : Ended × (D × Packets) → Ended × D
  behind (e, (d, ps)) = (e, d)

  behind-then_next :
      (next : Parser → List ℕ → D × Packets → Ended × (D × Packets)) (ps : Packets) (r : Ended × D)
      → behind (then_next next (with_packets ps r))
        ≡ then_next (λ p output d. behind (next p output (d, ps))) r
  behind-then_next next ps (listens p output, d) = refl
  behind-then_next next ps (resets, d) = refl
  behind-then_next next ps (panics, d) = refl

module _ {ℓ} {D : Type ℓ} (i2c : I2c D) where
  write_to-beside :
      (r : Request) (bytes output : List ℕ) (d : D) (ps : Packets)
      → write_to (beside i2c) r bytes output (d, ps)
        ≡ (let (h, output', d') = write_to i2c r bytes output d in (h, output', (d', ps)))
  unfolding write_to
  write_to-beside r bytes output d ps = ground arith

  read_from-beside :
      (r : Request) (count : ℕ) (output : List ℕ) (d : D) (ps : Packets)
      → read_from (beside i2c) r count output (d, ps)
        ≡ (let (h, output', d') = read_from i2c r count output d in (h, output', (d', ps)))
  unfolding read_from
  read_from-beside r count output d ps = ground arith

  handle_request-beside :
      (r : Request) (output : List ℕ) (d : D) (ps : Packets)
      → handle_request (beside i2c) r output (d, ps)
        ≡ (let (h, output', d') = handle_request i2c r output d in (h, output', (d', ps)))
  unfolding handle_request
  handle_request-beside r output d ps = elim (Result-cases (validate_i2c_request r)) [
    | inr (status, e) ↦ rw (e, handle_request) refl
    | inl (valid, e) ↦ elim (Bool-cases (r.command == cmd_i2c_write)) [
      | inl write ↦ elim (Option-cases (slice? r.payload 1 r.payload_len)) [
        | inl short ↦ rw (e, write, short, handle_request) refl
        | inr (bytes, long) ↦
            rw (e, write, long, handle_request) (write_to-beside r bytes output d ps)
      ]
      | inr other ↦ elim (Bool-cases (r.command == cmd_i2c_read)) [
        | inr neither ↦ rw (e, other, neither, handle_request) refl
        | inl read ↦ elim (Bool-cases (r.payload_len == 2 && leb (get_or r.payload 1 0) 16)) [
          | inl right ↦
              rw (e, other, read, right, handle_request)
                (read_from-beside r (get_or r.payload 1 0) output d ps)
          | inr wrong ↦ rw (e, other, read, wrong, handle_request) refl
        ]
      ]
    ]
  ]

module _ {ℓ} {D : Type ℓ} (i2c : I2c D) (near : Cdc D) (cdc : Cdc (D × Packets))
    (sends : IsSending near cdc) where
  answer-beside :
      (p : Parser) (handled : Handled) (output : List ℕ) (d : D) (ps : Packets)
      → answer (beside i2c) cdc p handled output (d, ps)
        ≡ with_packets ps (answer i2c near p handled output d)
  unfolding answer
  answer-beside p restarted output d ps = refl
  answer-beside p panicked output d ps = refl
  answer-beside p (responded n) output d ps =
      elim (Result-cases (near.write_packet d (take n output)).1) [
        | inl (done, e) ↦
            let wrote = sends.writes d ps (take n output) in rw (wrote, e, answer) (rw wrote refl)
        | inr (failed, e) ↦
            let wrote = sends.writes d ps (take n output) in rw (wrote, e, answer) (rw wrote refl)
      ]

  serve-beside :
      (p : Parser) (r : Request) (output : List ℕ) (d : D) (ps : Packets)
      → serve (beside i2c) cdc p r output (d, ps) ≡ with_packets ps (serve i2c near p r output d)
  unfolding serve
  serve-beside p r output d ps =
      let (handled, output', d') = handle_request i2c r output d in
      rw (handle_request-beside i2c r output d ps) (answer-beside p handled output' d' ps)

  serve_byte-beside :
      (p : Parser) (byte : ℕ) (output : List ℕ) (d : D) (ps : Packets)
      → serve_byte (beside i2c) cdc p byte output (d, ps)
        ≡ with_packets ps (serve_byte i2c near p byte output d)
  unfolding serve_byte
  serve_byte-beside p byte output d ps = elim (Result-cases (push p byte).1) [
    | inr (x, e) ↦ rw (e, serve_byte) refl
    | inl (none, e) ↦ rw (e, serve_byte) refl
    | inl (some r, e) ↦ rw (e, serve_byte) (serve-beside (push p byte).0 r output d ps)
  ]

  next-beside :
      (f : Parser → List ℕ → D × Packets → Ended × (D × Packets))
      (g : Parser → List ℕ → D → Ended × D) (ps : Packets)
      → ((p : Parser) (output : List ℕ) (d : D)
          → f p output (d, ps) ≡ with_packets ps (g p output d))
      → (r : Ended × D) → then_next f (with_packets ps r) ≡ with_packets ps (then_next g r)
  next-beside f g ps same (listens p output, d) = same p output d
  next-beside f g ps same (resets, d) = refl
  next-beside f g ps same (panics, d) = refl

  serve_bytes-beside :
      (bytes : List ℕ) (p : Parser) (output : List ℕ) (d : D) (ps : Packets)
      → serve_bytes (beside i2c) cdc bytes p output (d, ps)
        ≡ with_packets ps (serve_bytes i2c near bytes p output d)
  unfolding serve_bytes
  serve_bytes-beside [] p output d ps = refl
  serve_bytes-beside (byte ∷ bytes) p output d ps =
      ap (then_next (serve_bytes (beside i2c) cdc bytes)) (serve_byte-beside p byte output d ps)
      ∙ next-beside (serve_bytes (beside i2c) cdc bytes) (serve_bytes i2c near bytes) ps
          (λ p output d. serve_bytes-beside bytes p output d ps)
          (serve_byte i2c near p byte output d)

  listen_once-beside :
      (packet : List ℕ) (p : Parser) (output : List ℕ) (d : D) (ps : Packets)
      → Fits packet
      → listen_once (beside i2c) cdc p output (d, packet ∷ ps)
        ≡ with_packets ps (serve_bytes i2c near packet p output d)
  unfolding listen_once
  listen_once-beside packet p output d ps short =
      let fits : leb (length packet) max_frame ≡ true = ground (arith, short) in
      rw (sends.held d (packet ∷ ps), sends.reads d packet ps max_frame, fits, listen_once)
        (rw (sends.held d (packet ∷ ps), sends.reads d packet ps max_frame, fits)
          (serve_bytes-beside packet p output d ps))

  pub listen_once-overrun :
      (packet : List ℕ) (p : Parser) (output : List ℕ) (d : D) (ps : Packets)
      → max_frame < length packet
      → listen_once (beside i2c) cdc p output (d, packet ∷ ps) ≡ (resets, (d, ps))
  unfolding listen_once
  listen_once-overrun packet p output d ps long =
      let over : leb (length packet) max_frame ≡ false = ground (arith, long) in
      rw (sends.held d (packet ∷ ps), sends.reads d packet ps max_frame, over, listen_once)
        (rw (sends.held d (packet ∷ ps), sends.reads d packet ps max_frame) refl)

  -- Rounds of the loop over packets that fit serve the joined bytes, and the other rounds follow.
  pub listen-joined :
      (packets rest : Packets) (rounds : ℕ) (p : Parser) (output : List ℕ) (d : D)
      → All Fits packets
      → behind (listen (beside i2c) cdc (rounds_for packets rounds) p output (d, packets ++ rest))
        ≡ then_next
            (λ p output d. behind (listen (beside i2c) cdc rounds p output (d, rest)))
            (serve_bytes i2c near (joined packets) p output d)
  unfolding listen serve_bytes
  listen-joined [] rest rounds p output d short = refl
  listen-joined (packet ∷ packets) rest rounds p output d (fits, short) =
      ap (λ r. behind (then_next (listen (beside i2c) cdc (rounds_for packets rounds)) r))
        (listen_once-beside packet p output d (packets ++ rest) fits)
      ∙ (behind-then_next (listen (beside i2c) cdc (rounds_for packets rounds)) (packets ++ rest)
            (serve_bytes i2c near packet p output d)
          ∙ (then_next_cong _ _ (λ p output d. listen-joined packets rest rounds p output d short)
                (serve_bytes i2c near packet p output d)
              ∙ (sym (
                    then_next_assoc (serve_bytes i2c near (joined packets)) _
                      (serve_bytes i2c near packet p output d))
                  ∙ ap (then_next _)
                      (sym (serve_bytes-append i2c near packet (joined packets) p output d)))))
