-- ===== src/Tests/Terminals.antt =====
-- A terminal of the bridge that sends a read of two bytes in two packets, and instances.
use opti_bridge.Prelude.{
  ℕ, ◌+◌, ◌≡◌, refl, arith, true, some, List, [], ◌∷◌, ◌++◌, replicate, ok, err, take, length,
  length-take, leb, if◌then◌else◌, none,
}
use opti_bridge.Protocol.{magic, max_frame, cmd_i2c_read}
use opti_bridge.Frame.{new, push, encode_response}
use opti_bridge.Frame.Packet.{wire}
use opti_bridge.Frame.Stream.{new-IsParser}
use opti_bridge.Bridge.{handle_request, validate_i2c_request, read_from}
use opti_bridge.Bridge.Sessions.{Cdc, serve_bytes, serve_byte, serve, answer, connect}
use opti_bridge.Bridge.Sessions.Safety.{Lives, FitsBuffer, connect-Lives}
use opti_bridge.Bridge.Sessions.Frames.{Sent, requests, outcome_of, IsBetweenFrames, respond_all}
use opti_bridge.Bridge.Sessions.Packets.{Packets, rounds_for, beside, IsSending, behind}
use opti_bridge.Bridge.Sessions.Answers.{greeted, cut, connect-respond_all, connect-overrun}
use opti_bridge.Tests.Targets.{bus, bus-FillsBuffer}

-- Its state counts the calls of both drivers.
abbrev terminal : Cdc ℕ
terminal = record {
  dtr = λ n. (n + 1, true);
  write_packet = λ n bytes. (n + 1, ok tt);
  read_packet = λ n size. (n + 1, some (ok (take size (magic ∷ cmd_i2c_read ∷ 2 ∷ 5 ∷ []))));
}

terminal-FitsBuffer : FitsBuffer terminal
terminal-FitsBuffer n size n' bytes e =
    ground (arith, e, length-take size (magic ∷ cmd_i2c_read ∷ 2 ∷ 5 ∷ []))

abbrev start : List ℕ
start = magic ∷ cmd_i2c_read ∷ 2 ∷ []

abbrev start_rest : List ℕ
start_rest = 5 ∷ 0 ∷ 0x42 ∷ 2 ∷ []

abbrev output : List ℕ
output = replicate max_frame 0

-- A read of two bytes, and a frame that is no request to the bridge.
abbrev frames : List Sent
frames =
    record { command = cmd_i2c_read; sequence = 5; flags = 0; body = 0x42 ∷ 2 ∷ [] }
    ∷ record { command = 1; sequence = 6; flags = 0; body = [] }
    ∷ []

-- The same driver, with what it has still to send.
abbrev sending : Cdc (ℕ × Packets)
sending = record {
  dtr = λ s. (s, true);
  write_packet = λ s bytes. ((s.0 + 1, s.1), ok tt);
  read_packet = λ s size. elim (s.1) [
    | [] ↦ (s, none)
    | packet ∷ ps ↦ ((s.0, ps), some (if leb (length packet) size then ok packet else err tt))
  ];
}

sending-IsSending : IsSending terminal sending
sending-IsSending = record {
  held = λ n ps. refl;
  writes = λ n ps bytes. refl;
  reads = λ n packet ps size. refl;
}

-- The two frames, cut within the first and joined with the second.
abbrev packets : Packets
packets = start ∷ (start_rest ++ magic ∷ 1 ∷ 0 ∷ 6 ∷ 0 ∷ []) ∷ []

connect-respond_all_example :
    let x = connect (beside bus) sending 1 (rounds_for packets 0) new output (0, packets) in
    (outcome_of (behind x) ≡ greeted terminal (respond_all bus terminal (requests frames) output) 0)
    × IsBetweenFrames x.0
connect-respond_all_example =
    connect-respond_all bus terminal sending frames packets 0 new output 0 sending-IsSending
      new-IsParser (omega arith) (omega arith) refl

-- Three frames of 21 bytes in one packet of 63.
abbrev three_frames : List ℕ
three_frames = let frame = wire cmd_i2c_read 7 0 (replicate 16 1) in frame ++ frame ++ frame

connect-overrun_example :
    outcome_of (
      behind (
        connect
          (beside bus)
          sending
          1
          (rounds_for packets 1)
          new
          output
          (0, packets ++ three_frames ∷ [])))
    ≡ greeted terminal (λ n. cut (respond_all bus terminal (requests frames) output n)) 0
connect-overrun_example =
    connect-overrun bus terminal sending frames packets [] three_frames 0 new output 0
      sending-IsSending new-IsParser (omega arith) (omega arith) refl (omega arith)

connect-Lives_example : Lives (connect bus terminal 3 2 new output 0).0
connect-Lives_example =
    connect-Lives bus terminal 3 2 new output 0 bus-FillsBuffer terminal-FitsBuffer new-IsParser
      refl

-- One transfer and one response.
served_once : (serve_bytes bus terminal (start ++ start_rest) new output 0).1 ≡ 2
unfolding serve_bytes serve_byte serve answer push handle_request validate_i2c_request read_from
    encode_response
served_once = refl
